-- ===== src/Extents/Runs.antt =====
-- Small dataspaces.
use hdf5_rs.Prelude.{◌≡◌, refl, [], ◌∷◌, some, none, false}
use hdf5_rs.Extents.{
  Extents, simple, from_simple, fixed, up_to, size, is_valid, simple_is_valid, Shape,
  dataset_extents, num_elements,
}
use hdf5_rs.Extents.Laws.{size-dataset_extents}

-- A limit below the dimension is not valid.
too_large : is_valid (from_simple (fixed 2 ∷ up_to 3 2 ∷ [])) ≡ false
unfolding is_valid simple_is_valid from_simple
too_large = refl

abbrev growing : Shape
growing = record {
  dims = 3 ∷ 4 ∷ [];
  maxdims = none ∷ some 4 ∷ [];
  is_scalar = false;
  is_null = false;
}

size-dataset_extents_example : size (dataset_extents growing) ≡ num_elements growing
size-dataset_extents_example = size-dataset_extents growing refl

abbrev table : Extents
table = simple (fixed 3 ∷ fixed 4 ∷ [])
