-- ===== src/Selection/OutShape.antt =====
-- The shape of a hyperslab's result holds as many elements as the hyperslab selects.
use hdf5_rs.Prelude.{ℕ, ◌≡◌, List, Option, none, some, ok}
use hdf5_rs.Selection.{SliceOrIndex, RawSlice, out_axes}
use hdf5_rs.Selection.Linear.{product, all_axes}
use hdf5_rs.Selection.Linear.Odometer.{lengths}

count_or : Option ℕ → ℕ
count_or none = 0
count_or (some n) = n

-- The axes and the sizes of the result, and that they agree.
abbrev Agree : List RawSlice → List SliceOrIndex → List ℕ → Type 0
Agree raw hyper shape =
    (axes : List (List ℕ)) × (sizes : List ℕ) × (all_axes raw shape ≡ ok axes)
    × (out_axes raw hyper ≡ ok sizes)
    × (product sizes ≡ product (lengths axes))
