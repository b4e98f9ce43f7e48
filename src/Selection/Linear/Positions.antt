-- ===== src/Selection/Linear/Positions.antt =====
-- What `linear_indices` returns: positions of the array, and which ones for a regular hyperslab.
use hdf5_rs.Prelude.{
  ℕ, zero, suc, ◌+◌, ◌<◌, ◌≡◌, sym, subst, ◌∙◌, List, [], ◌∷◌, map, length, get_or, arith, All,
  true, Bool-cases, inl, inr, ltb, ltb→lt, ◌==◌, ==_iff, ok, ◌>>◌, >>=-eq-ok, Safe, ensure, ensured,
  ok_inj, and_true,
}
use hdf5_rs.Selection.{
  RawSlice, RawSelection, nothing, everything, points, regular_hyperslab, complex_hyperslab, Points,
  row_inside, rows_inside, check_coords, no_table,
}
use hdf5_rs.Selection.Linear.{
  product, row_major_strides, dot, range_from, slice_length, axis_coords, all_axes, pick,
  linear_indices,
}
use hdf5_rs.Selection.Linear.Strides.{Inside, dot-lt, unravel, Inside-unravel}
use hdf5_rs.Selection.Linear.Odometer.{lengths, combination, cartesian-combination}
use hdf5_rs.Selection.Linear.Axis.{axis_coords-Safe}

-- One list of coordinates for each axis, all on it.
abbrev pub OnAxes : List (List ℕ) → List ℕ → Type 0
OnAxes [] [] = Unit {0}
OnAxes [] (d ∷ ds) = ⊥
OnAxes (a ∷ axes) [] = ⊥
OnAxes (a ∷ axes) (d ∷ ds) = All (λ c. c < d) a × OnAxes axes ds

-- Each row of the table has one entry for each column.
abbrev pub IsTable : RawSelection → Type 0
IsTable (points p) = All (λ r. length r ≡ p.ncols) p.rows
IsTable s = Unit {0}

All-get_or : (P : ℕ → Type 0) (xs : List ℕ) (i d : ℕ) → All P xs → i < length xs → P (get_or xs i d)
All-get_or P [] i d h q = absurd (omega arith)
All-get_or P (x ∷ xs) zero d (h, hs) q = h
All-get_or P (x ∷ xs) (suc i) d (h, hs) q = All-get_or P xs i d hs (omega arith)

pub Inside-pick :
    (axes : List (List ℕ)) (idx shape : List ℕ)
    → OnAxes axes shape
    → Inside idx (lengths axes)
    → Inside (pick axes idx) shape
Inside-pick [] [] [] h q = tt
Inside-pick [] (j ∷ js) shape h q = elim q [ ]
Inside-pick [] [] (d ∷ ds) h q = elim h [ ]
Inside-pick (a ∷ axes) [] shape h q = elim q [ ]
Inside-pick (a ∷ axes) (j ∷ js) [] h q = elim h [ ]
Inside-pick (a ∷ axes) (j ∷ js) (d ∷ ds) (h, hs) (q, qs) =
    (All-get_or (λ c. c < d) a j 0 h q, Inside-pick axes js ds hs qs)

All-map-range :
    (P : ℕ → Type 0) (f : ℕ → ℕ) (n k end : ℕ)
    → ((i : ℕ) → i < end → P (f i))
    → k + n ≡ end
    → All P (map f (range_from n k))
All-map-range P f zero k end h e = tt
All-map-range P f (suc n) k end h e =
    (h k (omega arith), All-map-range P f n (suc k) end h (omega arith))

range-Below : (n k end : ℕ) → k + n ≡ end → All (λ i. i < end) (range_from n k)
range-Below zero k end e = tt
range-Below (suc n) k end e = (omega arith, range-Below n (suc k) end (omega arith))

pub all_axes-OnAxes :
    (hyper : List RawSlice) (shape : List ℕ) (axes : List (List ℕ))
    → length hyper ≡ length shape
    → all_axes hyper shape ≡ ok axes
    → OnAxes axes shape
unfolding all_axes
all_axes-OnAxes [] [] [] e h = tt
all_axes-OnAxes [] [] (a ∷ axes) e h = cc
all_axes-OnAxes [] (d ∷ ds) axes e h = absurd (omega arith)
all_axes-OnAxes (s ∷ ss) [] axes e h = absurd (omega arith)
all_axes-OnAxes (s ∷ ss) (d ∷ ds) axes e h =
    let (count, hc, h1) = >>=-eq-ok (slice_length s d) _ h in
    let (coords, ha, h2) = >>=-eq-ok (axis_coords s count d) _ h1 in
    let (rest, hr, h3) = >>=-eq-ok (all_axes ss ds) _ h2 in
    subst (λ t. OnAxes t (d ∷ ds)) (ok_inj (coords ∷ rest) axes h3)
      (
        subst (Safe (All (λ c. c < d))) ha (axis_coords-Safe s count d),
        all_axes-OnAxes ss ds rest (omega arith) hr,
      )

row_inside-Inside :
    (r shape : List ℕ) → length r ≡ length shape → row_inside r shape ≡ true → Inside r shape
unfolding row_inside
row_inside-Inside [] [] e h = tt
row_inside-Inside [] (d ∷ ds) e h = absurd (omega arith)
row_inside-Inside (c ∷ cs) [] e h = absurd (omega arith)
row_inside-Inside (c ∷ cs) (d ∷ ds) e h =
    let both = and_true (ltb c d) (row_inside cs ds) h in
    (ltb→lt c d both.0, row_inside-Inside cs ds (omega arith) both.1)

-- The positions of the rows of a table that lies inside the shape.
rows-Below :
    (rows : List (List ℕ)) (n : ℕ) (shape : List ℕ)
    → All (λ r. length r ≡ n) rows
    → n ≡ length shape
    → rows_inside rows shape ≡ true
    → All (λ i. i < product shape) (map (λ row. dot row (row_major_strides shape)) rows)
unfolding rows_inside
rows-Below [] n shape h e q = tt
rows-Below (r ∷ rows) n shape (h, hs) e q =
    let both = and_true (row_inside r shape) (rows_inside rows shape) q in
    (dot-lt r shape (row_inside-Inside r shape (h ∙ e) both.0), rows-Below rows n shape hs e both.1)

no_rows :
    (P : ℕ → Type 0) (f : List ℕ → ℕ) (rows : List (List ℕ)) → length rows ≡ 0 → All P (map f rows)
no_rows P f [] e = tt
no_rows P f (r ∷ rows) e = absurd (omega arith)

checked_rows-Below :
    (p : Points) (shape : List ℕ) (u : Unit {0})
    → All (λ r. length r ≡ p.ncols) p.rows
    → check_coords p shape ≡ ok u
    → All (λ i. i < product shape) (map (λ row. dot row (row_major_strides shape)) p.rows)
unfolding check_coords
checked_rows-Below p shape u t h = elim (Bool-cases (no_table p)) [
  | inl b ↦ no_rows _ _ p.rows ((==_iff _ _).0 (and_true (length p.rows == 0) (p.ncols == 0) b).0)
  | inr b ↦
      let h' : (do
        ensure (p.ncols == length shape) "Slice ndim != shape ndim"
        ensure (rows_inside p.rows shape) "Index out of bounds for axis")
          ≡ ok u =
        rw b at h in
      let (v, h1, h2) =
        >>=-eq-ok (ensure (p.ncols == length shape) "Slice ndim != shape ndim") _ h' in
      rows-Below p.rows p.ncols shape t ((==_iff _ _).0 (ensured _ _ v h1)) (ensured _ _ u h2)
]

table-Below :
    (p : Points) (shape : List ℕ) (out : List ℕ)
    → All (λ r. length r ≡ p.ncols) p.rows
    → linear_indices (points p) shape ≡ ok out
    → All (λ i. i < product shape) out
unfolding linear_indices
table-Below p shape out t h =
    let (u, hc, h1) = >>=-eq-ok (check_coords p shape) _ h in
    subst (All (λ i. i < product shape)) (ok_inj _ out h1) (checked_rows-Below p shape u t hc)

hyperslab-Below :
    (hyper : List RawSlice) (shape out : List ℕ)
    → linear_indices (regular_hyperslab hyper) shape ≡ ok out
    → All (λ i. i < product shape) out
unfolding linear_indices
hyperslab-Below hyper shape out h =
    let (u, he, h1) =
      >>=-eq-ok (ensure (length hyper == length shape) "selection rank mismatch") _ h in
    let (axes, ha, h2) = >>=-eq-ok (all_axes hyper shape) _ h1 in
    let on = all_axes-OnAxes hyper shape axes ((==_iff _ _).0 (ensured _ _ u he)) ha in
    subst (All (λ i. i < product shape))
      (sym (cartesian-combination axes (row_major_strides shape)) ∙ ok_inj _ out h2)
      (All-map-range (λ i. i < product shape) (combination axes (row_major_strides shape))
        (product (lengths axes)) 0 (product (lengths axes))
        (λ k hk.
          dot-lt (pick axes (unravel (row_major_strides (lengths axes)) k)) shape
            (Inside-pick axes _ shape on (Inside-unravel (lengths axes) k hk)))
        (omega arith))

-- Every position that `linear_indices` returns is one of the array, whatever the selection, where
-- a table of points has as many entries in each row as columns.
pub linear_indices-Below :
    (sel : RawSelection) (shape out : List ℕ)
    → IsTable sel
    → linear_indices sel shape ≡ ok out
    → All (λ i. i < product shape) out
unfolding linear_indices
linear_indices-Below nothing shape out t h =
    subst (All (λ i. i < product shape)) (ok_inj [] out h) tt
linear_indices-Below everything shape out t h =
    subst (All (λ i. i < product shape)) (ok_inj _ out h)
      (range-Below (product shape) 0 (product shape) (omega arith))
linear_indices-Below (points p) shape out t h = table-Below p shape out t h
linear_indices-Below (regular_hyperslab hyper) shape out t h = hyperslab-Below hyper shape out h
linear_indices-Below complex_hyperslab shape out t h = cc
