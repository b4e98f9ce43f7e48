-- ===== src/Selection/Linear.antt =====
-- `RawSelection::linear_indices`: the row-major positions of a selection, in its order.
pub mod Strides
pub mod Odometer
pub mod Axis
pub mod Positions
use hdf5_rs.Prelude.{
  ℕ, zero, suc, ◌+◌, ◌-◌, ◌*◌, ◌/◌, List, [], ◌∷◌, ◌++◌, map, length, leb, ltb, ◌==◌, if◌then◌else◌,
  any, Option, none, some, Result, ok, err, ◌>>=◌, ◌>>◌, ensure, assert, Bool, true, false, ◌||◌,
  get_or,
}
use hdf5_rs.Prelude.Loops.{for_each}
use hdf5_rs.Selection.{
  RawSlice, RawSelection, nothing, everything, points, regular_hyperslab, complex_hyperslab, Points,
  check_coords,
}

abbrev pub product : List ℕ → ℕ
product [] = 1
product (n ∷ ns) = n * product ns

-- The loop of the source goes from the last axis to the first.
unfoldable pub row_major_strides : List ℕ → List ℕ
row_major_strides [] = []
row_major_strides (d ∷ []) = 1 ∷ []
row_major_strides (d ∷ e ∷ ds) =
    let rest = row_major_strides (e ∷ ds) in (get_or rest 0 1 * e) ∷ rest

-- The sum of the coordinates times the strides.
abbrev pub dot : List ℕ → List ℕ → ℕ
dot [] strides = 0
dot (c ∷ cs) [] = 0
dot (c ∷ cs) (s ∷ ss) = c * s + dot cs ss

-- `0..total`
abbrev pub range_from : ℕ → ℕ → List ℕ
range_from zero i = []
range_from (suc n) i = i ∷ range_from n (suc i)

-- The count of a slice; an unlimited one goes on to the end of the axis.
unfoldable pub slice_length : RawSlice → ℕ → Result ℕ
slice_length s dim = elim s.count [
  | some c ↦ ok c
  | none ↦
      if s.block == 0 || s.step == 0
      then ok 0
      else if ltb s.start dim
      then (assert (leb s.block (dim - s.start)) >> ok ((dim - s.start - s.block) / s.step + 1))
      else ok 0
]

-- The inner body: `let c = base + j; ensure!(c < dim); coords.push(c)`.
abbrev pub block_step : ℕ → ℕ → ℕ → List ℕ → Result (List ℕ)
block_step dim base j coords = do
  ensure (ltb (base + j) dim) "selection out of bounds"
  ok (coords ++ ((base + j) ∷ []))

-- The coordinates of an axis that a slice selects.
unfoldable pub axis_coords : RawSlice → ℕ → ℕ → Result (List ℕ)
axis_coords s count dim =
    for_each count 0 (λ i coords. for_each s.block 0 (block_step dim (s.start + i * s.step)) coords)
      []

unfoldable pub all_axes : List RawSlice → List ℕ → Result (List (List ℕ))
unfolding slice_length axis_coords
all_axes [] shape = ok []
all_axes (s ∷ ss) [] = ok []
all_axes (s ∷ ss) (dim ∷ dims) = do
  count ← slice_length s dim
  coords ← axis_coords s count dim
  rest ← all_axes ss dims
  ok (coords ∷ rest)

-- The coordinates at the positions `idx` of the axes.
abbrev pub pick : List (List ℕ) → List ℕ → List ℕ
pick [] idx = []
pick (axis ∷ axes) [] = []
pick (axis ∷ axes) (j ∷ js) = get_or axis j 0 ∷ pick axes js

-- The last position counts up; one that has reached its end starts again and carries to the left.
abbrev pub turn : ℕ → ℕ → Bool × List ℕ → Bool × List ℕ
turn len j (false, js) = (false, j ∷ js)
turn len j (true, js) = if ltb (j + 1) len then (false, (j + 1) ∷ js) else (true, 0 ∷ js)

unfoldable pub advance : List (List ℕ) → List ℕ → Bool × List ℕ
advance [] idx = (true, [])
advance (axis ∷ axes) [] = (true, [])
advance (axis ∷ axes) (j ∷ js) = turn (length axis) j (advance axes js)

-- `for _ in 0..n`
unfoldable pub enumerate : ℕ → List (List ℕ) → List ℕ → List ℕ → List ℕ
unfolding advance
enumerate zero axes strides idx = []
enumerate (suc n) axes strides idx =
    dot (pick axes idx) strides ∷ enumerate n axes strides (advance axes idx).1

abbrev pub is_empty : List ℕ → Bool
is_empty [] = true
is_empty (x ∷ xs) = false

unfoldable pub cartesian : List (List ℕ) → List ℕ → List ℕ
unfolding enumerate
cartesian axes strides =
    if any is_empty axes
    then []
    else enumerate (product (map length axes)) axes strides (map (λ _. 0) axes)

unfoldable pub linear_indices : RawSelection → List ℕ → Result (List ℕ)
unfolding row_major_strides all_axes cartesian
linear_indices nothing shape = ok []
linear_indices everything shape = ok (range_from (product shape) 0)
linear_indices (points p) shape = do
  check_coords p shape
  ok (map (λ row. dot row (row_major_strides shape)) p.rows)
linear_indices (regular_hyperslab hyper) shape = do
  ensure (length hyper == length shape) "selection rank mismatch"
  axes ← all_axes hyper shape
  ok (cartesian axes (row_major_strides shape))
linear_indices complex_hyperslab shape = err "Complex hyperslabs are not supported"
