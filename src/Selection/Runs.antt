-- ===== src/Selection/Runs.antt =====
-- Runs of the selections on small arrays, and the theorems applied to them.
use hdf5_rs.Prelude.{ℕ, ◌≡◌, refl, List, [], ◌∷◌, All, map, ◌<◌, some, ok, err}
use hdf5_rs.Prelude.Loops.{for_each}
use hdf5_rs.Selection.{
  SliceOrIndex, index, slice_to, slice_count, unlimited, RawSlice, RawSelection, hyperslab,
  regular_hyperslab, hyperslab_into_raw, slices_to_raw, slice_info_to_raw, slice_to_raw, into_raw,
  classify, is_none, is_all, spans, out_shape, out_axes,
}
use hdf5_rs.Selection.Linear.{
  product, range_from, linear_indices, row_major_strides, all_axes, slice_length, axis_coords,
  cartesian, enumerate, advance,
}
use hdf5_rs.Selection.Linear.Odometer.{lengths, combination, cartesian-combination}
use hdf5_rs.Selection.Linear.Positions.{linear_indices-Below}
use hdf5_rs.Selection.Everything.{into_raw-linear_indices}

abbrev lower_rows : RawSlice
lower_rows = record { start = 1; step = 1; count = some 2; block = 1 }

abbrev even_columns : RawSlice
even_columns = record { start = 0; step = 2; count = some 2; block = 1 }

abbrev shape : List ℕ
shape = 3 ∷ 4 ∷ []

abbrev table : List RawSlice
table = lower_rows ∷ even_columns ∷ []

abbrev chosen : List ℕ
chosen = 4 ∷ 6 ∷ 8 ∷ 10 ∷ []

chosen_run : linear_indices (regular_hyperslab table) shape ≡ ok chosen
unfolding linear_indices row_major_strides all_axes slice_length axis_coords cartesian enumerate
    advance for_each
chosen_run = refl

linear_indices-Below_example : All (λ i. i < product shape) chosen
linear_indices-Below_example =
    linear_indices-Below (regular_hyperslab table) shape chosen tt chosen_run

abbrev two_axes : List (List ℕ)
two_axes = (1 ∷ 2 ∷ []) ∷ (0 ∷ 2 ∷ []) ∷ []

cartesian-combination_example :
    cartesian two_axes (4 ∷ 1 ∷ [])
    ≡ map (combination two_axes (4 ∷ 1 ∷ [])) (range_from (product (lengths two_axes)) 0)
cartesian-combination_example = cartesian-combination two_axes (4 ∷ 1 ∷ [])

abbrev sliced : List SliceOrIndex
sliced = unlimited 1 1 1 ∷ slice_to 0 2 3 1 ∷ []

-- An index drops its axis.
row_shape : out_shape (hyperslab (index 1 ∷ slice_to 0 2 3 1 ∷ [])) shape ≡ ok (2 ∷ [])
unfolding out_shape hyperslab_into_raw slices_to_raw slice_info_to_raw slice_to_raw out_axes
row_shape = refl

abbrev all_rows : RawSlice
all_rows = record { start = 0; step = 1; count = some 2; block = 1 }

abbrev all_columns : RawSlice
all_columns = record { start = 0; step = 2; count = some 2; block = 2 }

abbrev full : List SliceOrIndex
full = slice_to 0 1 2 1 ∷ slice_count 0 2 2 2 ∷ []

abbrev eight : List ℕ
eight = 0 ∷ 1 ∷ 2 ∷ 3 ∷ 4 ∷ 5 ∷ 6 ∷ 7 ∷ []

full_run : hyperslab_into_raw full (2 ∷ 4 ∷ []) ≡ ok (all_rows ∷ all_columns ∷ [])
unfolding hyperslab_into_raw slices_to_raw slice_info_to_raw slice_to_raw
full_run = refl

everything_run : into_raw (hyperslab full) (2 ∷ 4 ∷ []) ≡ ok RawSelection.everything
unfolding into_raw hyperslab_into_raw slices_to_raw slice_info_to_raw slice_to_raw classify is_none
    is_all spans
everything_run = refl

slabs_run : linear_indices (regular_hyperslab (all_rows ∷ all_columns ∷ [])) (2 ∷ 4 ∷ []) ≡ ok eight
unfolding linear_indices row_major_strides all_axes slice_length axis_coords cartesian enumerate
    advance for_each
slabs_run = refl

into_raw-linear_indices_example : linear_indices RawSelection.everything (2 ∷ 4 ∷ []) ≡ ok eight
into_raw-linear_indices_example =
    into_raw-linear_indices full (2 ∷ 4 ∷ []) eight (all_rows ∷ all_columns ∷ [])
      RawSelection.everything full_run everything_run slabs_run

-- The check of a counted slice lets its last coordinate be the dimension, which is off the array.
one_too_far :
    hyperslab_into_raw (slice_count 0 2 3 1 ∷ []) (4 ∷ [])
    ≡ ok (record { start = 0; step = 2; count = some 3; block = 1 } ∷ [])
unfolding hyperslab_into_raw slices_to_raw slice_info_to_raw slice_to_raw
one_too_far = refl

refused_late :
    linear_indices
      (regular_hyperslab (record { start = 0; step = 2; count = some 3; block = 1 } ∷ []))
      (4 ∷ [])
    ≡ err "selection out of bounds"
unfolding linear_indices row_major_strides all_axes slice_length axis_coords cartesian enumerate
    advance for_each
refused_late = refl
