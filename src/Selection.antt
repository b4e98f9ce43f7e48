-- ===== src/Selection.antt =====
-- hdf5/src/hl/selection.rs: selectors, their lowering to raw slices for a shape, and the checks.
-- An error keeps the fixed words of its message.
pub mod Linear
pub mod Lowering
pub mod Everything
pub mod OutShape
mod Runs
use hdf5_rs.Prelude.{
  ℕ, ◌+◌, ◌-◌, ◌*◌, ◌/◌, List, [], ◌∷◌, length, leb, ltb, ◌==◌, if◌then◌else◌, Option, none, some,
  Result, ok, err, ◌>>=◌, ◌>>◌, ensure, Bool, true, false, ◌&&◌, any,
}

-- A selector of a one-dimensional array.
pub data SliceOrIndex : Type 0 where
  index : ℕ → SliceOrIndex
  slice_to : (start step end block : ℕ) → SliceOrIndex
  slice_count : (start step count block : ℕ) → SliceOrIndex
  unlimited : (start step block : ℕ) → SliceOrIndex

pub record RawSlice : Type 0 where
  pub start : ℕ
  pub step : ℕ
  pub count : Option ℕ
  pub block : ℕ

-- `(from..to).step_by(step).count()`, for a step of at least 1
abbrev pub step_count : ℕ → ℕ → ℕ → ℕ
step_count from to step = if ltb from to then (to - from - 1) / step + 1 else 0

-- A slice with an end. The source tests `step >= 1` and, again, `step > 0`.
unfoldable pub slice_to_raw : (start step end block dim : ℕ) → Result RawSlice
slice_to_raw start step end block dim = do
  ensure (leb 1 step) "Slice stride < 1"
  ensure (leb start dim) "Slice start out of bounds"
  ensure (leb end dim) "Slice end out of bounds"
  ensure (ltb 0 step) "Stride out of bounds"
  ok (record {
    start = start;
    step = step;
    count = some (step_count (start + (block - 1)) end step);
    block = block;
  })

unfoldable pub slice_info_to_raw : SliceOrIndex → ℕ → Result RawSlice
unfolding slice_to_raw
slice_info_to_raw (index i) dim = do
  ensure (ltb i dim) "Index out of bounds"
  ok (record { start = i; step = 1; count = some 1; block = 1 })
slice_info_to_raw (slice_to start step end block) dim = slice_to_raw start step end block dim
slice_info_to_raw (slice_count start step count block) dim = do
  ensure (leb 1 step) "Slice stride < 1"
  ensure (leb start dim) "Slice start out of bounds"
  ensure (leb (start + (block - 1) + step * (count - 1)) dim) "Slice end out of bounds"
  ok (record { start = start; step = step; count = some count; block = block })
slice_info_to_raw (unlimited start step block) dim = slice_to_raw start step dim block dim

-- The slices and the shape are of one length where this is called.
unfoldable pub slices_to_raw : List SliceOrIndex → List ℕ → Result (List RawSlice)
unfolding slice_info_to_raw
slices_to_raw [] shape = ok []
slices_to_raw (s ∷ ss) [] = ok []
slices_to_raw (s ∷ ss) (dim ∷ dims) = do
  r ← slice_info_to_raw s dim
  rs ← slices_to_raw ss dims
  ok (r ∷ rs)

-- `Hyperslab::into_raw`
unfoldable pub hyperslab_into_raw : List SliceOrIndex → List ℕ → Result (List RawSlice)
unfolding slices_to_raw
hyperslab_into_raw hyper shape = do
  ensure (length hyper == length shape) "Slice ndim != shape ndim"
  slices_to_raw hyper shape

abbrev pub of_count : Option ℕ → (start step block : ℕ) → SliceOrIndex
of_count (some count) start step block = slice_count start step count block
of_count none start step block = unlimited start step block

-- `Hyperslab::from_raw`
unfoldable pub hyperslab_from_raw : List RawSlice → Result (List SliceOrIndex)
hyperslab_from_raw [] = ok []
hyperslab_from_raw (r ∷ rs) = do
  ensure (leb r.block r.step) "Blocks can not overlap"
  rest ← hyperslab_from_raw rs
  ok (of_count r.count r.start r.step r.block ∷ rest)

-- `RawHyperslab::is_none`
abbrev pub counts_none : Option ℕ → Bool
counts_none none = false
counts_none (some count) = count == 0

unfoldable pub is_none : List RawSlice → Bool
is_none hyper = any (λ (s : RawSlice). counts_none s.count) hyper

-- One slice of `RawHyperslab::is_all`.
unfoldable pub spans : RawSlice → ℕ → Bool
spans s dim = elim s.count [
  | none ↦ false
  | some count ↦ s.start == 0 && s.step == s.block && count * s.block == dim
]

unfoldable pub is_all : List RawSlice → List ℕ → Bool
unfolding spans
is_all [] shape = true
is_all (s ∷ ss) [] = true
is_all (s ∷ ss) (dim ∷ dims) = spans s dim && is_all ss dims

-- A table of coordinates, one point to a row.
pub record Points : Type 0 where
  pub ncols : ℕ
  pub rows : List (List ℕ)

pub data RawSelection : Type 0 where
  nothing : RawSelection
  everything : RawSelection
  points : Points → RawSelection
  regular_hyperslab : List RawSlice → RawSelection
  complex_hyperslab : RawSelection

pub data Selection : Type 0 where
  everything : Selection
  points : Points → Selection
  hyperslab : List SliceOrIndex → Selection

-- `coords.shape() == [0, 0]`
abbrev pub no_table : Points → Bool
no_table p = length p.rows == 0 && p.ncols == 0

-- Every coordinate of a row lies below the dimension of its axis.
unfoldable pub row_inside : List ℕ → List ℕ → Bool
row_inside [] shape = true
row_inside (c ∷ cs) [] = true
row_inside (c ∷ cs) (dim ∷ dims) = ltb c dim && row_inside cs dims

unfoldable pub rows_inside : List (List ℕ) → List ℕ → Bool
unfolding row_inside
rows_inside [] shape = true
rows_inside (r ∷ rs) shape = row_inside r shape && rows_inside rs shape

-- The source goes through the axes one by one; both refuse exactly when some coordinate is too large.
unfoldable pub check_coords : Points → List ℕ → Result (Unit {0})
unfolding rows_inside
check_coords p shape = if no_table p then ok tt else (do
  ensure (p.ncols == length shape) "Slice ndim != shape ndim"
  ensure (rows_inside p.rows shape) "Index out of bounds for axis")

-- What `into_raw` makes of the raw slices.
unfoldable pub classify : List RawSlice → List ℕ → RawSelection
unfolding is_none is_all
classify raw shape =
    if is_none raw
    then RawSelection.nothing
    else if is_all raw shape
    then RawSelection.everything
    else RawSelection.regular_hyperslab raw

-- `Selection::into_raw`
unfoldable pub into_raw : Selection → List ℕ → Result RawSelection
unfolding hyperslab_into_raw classify check_coords
into_raw everything shape = ok RawSelection.everything
into_raw (points p) shape = do
  check_coords p shape
  ok (if length p.rows == 0 then RawSelection.nothing else RawSelection.points p)
into_raw (hyperslab hyper) shape = do raw ← hyperslab_into_raw hyper shape; ok (classify raw shape)

-- `Selection::from_raw`
unfoldable pub from_raw : RawSelection → Result Selection
unfolding hyperslab_from_raw
from_raw nothing = ok (Selection.points (record { ncols = 0; rows = [] }))
from_raw everything = ok Selection.everything
from_raw (points p) = ok (Selection.points p)
from_raw (regular_hyperslab raw) = hyperslab_from_raw raw >>= λ hyper. ok (hyperslab hyper)
from_raw complex_hyperslab = err "Cannot convert complex hyperslabs"

abbrev pub is_index : SliceOrIndex → Bool
is_index (index i) = true
is_index (slice_to start step end block) = false
is_index (slice_count start step count block) = false
is_index (unlimited start step block) = false

-- The sizes of the axes of the result: an axis that an index selects is dropped.
abbrev pub out_axis : Bool → ℕ → List ℕ → List ℕ
out_axis true n rest = rest
out_axis false n rest = n ∷ rest

abbrev pub out_count : Option ℕ → Result ℕ
out_count none = err "Unable to get the shape for unlimited hyperslab"
out_count (some count) = ok count

unfoldable pub out_axes : List RawSlice → List SliceOrIndex → Result (List ℕ)
out_axes [] hyper = ok []
out_axes (r ∷ rs) [] = ok []
out_axes (r ∷ rs) (s ∷ ss) = do
  count ← out_count r.count
  rest ← out_axes rs ss
  ok (out_axis (is_index s) (count * r.block) rest)

-- `Selection::out_shape`
unfoldable pub out_shape : Selection → List ℕ → Result (List ℕ)
unfolding check_coords hyperslab_into_raw out_axes
out_shape everything shape = ok shape
out_shape (points p) shape =
    check_coords p shape >> ok (if no_table p then [] else length p.rows ∷ [])
out_shape (hyperslab hyper) shape = hyperslab_into_raw hyper shape >>= λ raw. out_axes raw hyper
