-- ===== src/Extents.antt =====
-- hdf5/src/hl/extents.rs: the current and the greatest size of a dataspace along each axis. The
-- conversions and the printing of the source are not modelled, but for `From<T>`.
pub mod Laws
mod Runs
use hdf5_rs.Prelude.{
  ℕ, ◌+◌, ◌*◌, List, [], ◌∷◌, map, length, leb, Bool, true, false, ◌&&◌, not, any, all, Option,
  none, some, if◌then◌else◌,
}
use hdf5_rs.Selection.Linear.{product}

-- H5S_MAX_RANK
abbrev pub max_rank : ℕ
max_rank = 32

pub record Extent : Type 0 where
  pub dim : ℕ
  pub limit : Option ℕ

-- `From<Ix>` and `Extent::fixed`
abbrev pub fixed : ℕ → Extent
fixed dim = record { dim = dim; limit = some dim }

-- `From<RangeFrom<Ix>>` and `Extent::resizable`
abbrev pub unlimited_from : ℕ → Extent
unlimited_from dim = record { dim = dim; limit = none }

-- `From<RangeInclusive<Ix>>`
abbrev pub up_to : ℕ → ℕ → Extent
up_to dim end = record { dim = dim; limit = some end }

-- `is_some_and`, `is_none` and `unwrap_or` on the limit.
abbrev pub reached : Option ℕ → ℕ → Bool
reached none dim = false
reached (some m) dim = leb m dim

abbrev pub no_limit : Option ℕ → Bool
no_limit none = true
no_limit (some m) = false

abbrev pub limit_or : Option ℕ → ℕ → ℕ
limit_or none dim = dim
limit_or (some m) dim = m

abbrev pub extent_is_fixed : Extent → Bool
extent_is_fixed e = reached e.limit e.dim

abbrev pub extent_is_resizable : Extent → Bool
extent_is_resizable e = no_limit e.limit

abbrev pub extent_is_valid : Extent → Bool
extent_is_valid e = leb e.dim (limit_or e.limit e.dim)

-- `SimpleExtents` is its list.
abbrev pub SimpleExtents : Type 0
SimpleExtents = List Extent

abbrev pub simple_fixed : List ℕ → SimpleExtents
simple_fixed dims = map fixed dims

abbrev pub simple_resizable : List ℕ → SimpleExtents
simple_resizable dims = map unlimited_from dims

abbrev pub simple_dims : SimpleExtents → List ℕ
simple_dims s = map (λ (e : Extent). e.dim) s

abbrev pub simple_maxdims : SimpleExtents → List (Option ℕ)
simple_maxdims s = map (λ (e : Extent). e.limit) s

-- `fold(1, |acc, x| acc * x.dim)`
abbrev pub fold_size : ℕ → SimpleExtents → ℕ
fold_size acc [] = acc
fold_size acc (e ∷ es) = fold_size (acc * e.dim) es

abbrev pub simple_size : SimpleExtents → ℕ
simple_size s = fold_size 1 s

abbrev pub no_axis : SimpleExtents → Bool
no_axis [] = true
no_axis (e ∷ es) = false

unfoldable pub simple_is_fixed : SimpleExtents → Bool
simple_is_fixed s = not (no_axis s) && all extent_is_fixed s

unfoldable pub simple_is_unlimited : SimpleExtents → Bool
simple_is_unlimited s = any extent_is_resizable s

unfoldable pub simple_is_resizable : SimpleExtents → Bool
simple_is_resizable s = not (no_axis s) && any extent_is_resizable s

unfoldable pub simple_is_valid : SimpleExtents → Bool
simple_is_valid s = all extent_is_valid s && leb (length s) max_rank

pub data Extents : Type 0 where
  null : Extents
  scalar : Extents
  simple : SimpleExtents → Extents

-- `From<T>`: no axis makes a scalar.
unfoldable pub from_simple : SimpleExtents → Extents
from_simple [] = scalar
from_simple (e ∷ es) = simple (e ∷ es)

abbrev pub ndim : Extents → ℕ
ndim null = 0
ndim scalar = 0
ndim (simple s) = length s

abbrev pub dims : Extents → List ℕ
dims null = []
dims scalar = []
dims (simple s) = simple_dims s

abbrev pub maxdims : Extents → List (Option ℕ)
maxdims null = []
maxdims scalar = []
maxdims (simple s) = simple_maxdims s

unfoldable pub size : Extents → ℕ
size null = 0
size scalar = 1
size (simple s) = simple_size s

-- `is_none_or`
unfoldable pub is_valid : Extents → Bool
unfolding simple_is_valid
is_valid null = true
is_valid scalar = true
is_valid (simple s) = simple_is_valid s

unfoldable pub is_unlimited : Extents → Bool
unfolding simple_is_unlimited
is_unlimited null = true
is_unlimited scalar = true
is_unlimited (simple s) = simple_is_unlimited s

unfoldable pub is_resizable : Extents → Bool
unfolding simple_is_resizable
is_resizable null = true
is_resizable scalar = true
is_resizable (simple s) = simple_is_resizable s

unfoldable pub resizable : Extents → Extents
unfolding from_simple
resizable null = null
resizable scalar = scalar
resizable (simple s) = from_simple (simple_resizable (simple_dims s))

-- The shape of a dataset in model.rs: `DatasetData` less what has no part in it.
pub record Shape : Type 0 where
  pub dims : List ℕ
  pub maxdims : List (Option ℕ)
  pub is_scalar : Bool
  pub is_null : Bool

abbrev pub zip_extents : List ℕ → List (Option ℕ) → SimpleExtents
zip_extents [] ms = []
zip_extents (d ∷ ds) [] = []
zip_extents (d ∷ ds) (m ∷ ms) = (record { dim = d; limit = m }) ∷ zip_extents ds ms

-- `DatasetData::extents`
unfoldable pub dataset_extents : Shape → Extents
dataset_extents d =
    if d.is_null
    then null
    else if d.is_scalar
    then scalar
    else simple (zip_extents d.dims d.maxdims)

-- `DatasetData::num_elements`
unfoldable pub num_elements : Shape → ℕ
num_elements d = if d.is_null then 0 else if d.is_scalar then 1 else product d.dims
