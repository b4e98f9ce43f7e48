-- ===== src/Selection/Everything.antt =====
-- `Selection::into_raw` sets apart the hyperslabs that select nothing or everything; the positions
-- stay those of the raw slices.
use hdf5_rs.Prelude.{
  ℕ, zero, suc, ◌+◌, ◌*◌, ◌<◌, ◌≡◌, refl, ap, ap₂, sym, subst, ◌∙◌, List, [], ◌∷◌, ◌++◌, map,
  length, arith, true, false, Bool-cases, inl, inr, any, Option-cases, get_or, ◌&&◌, ◌==◌, ==_iff,
  and_true, ok, >>=-eq-ok, ensure, ensured, ok_inj,
}
use mathlib.Core.Bool.{or-true}
use hdf5_rs.Prelude.Loops.{for_each}
use hdf5_rs.Selection.{
  SliceOrIndex, RawSlice, RawSelection, hyperslab, regular_hyperslab, counts_none, is_none, spans,
  is_all, hyperslab_into_raw, into_raw, classify,
}
use hdf5_rs.Selection.Linear.{
  product, range_from, dot, pick, slice_length, axis_coords, all_axes, cartesian, linear_indices,
  row_major_strides, is_empty,
}
use hdf5_rs.Selection.Linear.Strides.{Inside, unravel, Inside-unravel, dot-unravel}
use hdf5_rs.Selection.Linear.Odometer.{lengths, combination, cartesian-combination}
use hdf5_rs.Selection.Linear.Axis.{blocks, Fits, axis_coords-blocks}

-- The coordinates of the whole of each axis.
abbrev whole : List ℕ → List (List ℕ)
whole shape = map (λ d. range_from d 0) shape

length-range_from : (n k : ℕ) → length (range_from n k) ≡ n
length-range_from zero k = refl
length-range_from (suc n) k = ap suc (length-range_from n (suc k))

get_or-range_from : (n k i : ℕ) → i < n → get_or (range_from n k) i 0 ≡ k + i
get_or-range_from zero k i h = absurd (omega arith)
get_or-range_from (suc n) k zero h = omega arith
get_or-range_from (suc n) k (suc i) h = omega (arith, get_or-range_from n (suc k) i (omega arith))

lengths-whole : (shape : List ℕ) → lengths (whole shape) ≡ shape
lengths-whole [] = refl
lengths-whole (d ∷ ds) = ap₂ ◌∷◌ (length-range_from d 0) (lengths-whole ds)

pick-whole : (shape idx : List ℕ) → Inside idx shape → pick (whole shape) idx ≡ idx
pick-whole [] [] h = refl
pick-whole [] (j ∷ js) h = elim h [ ]
pick-whole (d ∷ ds) [] h = elim h [ ]
pick-whole (d ∷ ds) (j ∷ js) (h, hs) =
    ap₂ ◌∷◌ (omega (arith, get_or-range_from d 0 j h)) (pick-whole ds js hs)

map-range_from :
    (f : ℕ → ℕ) (n k end : ℕ)
    → ((i : ℕ) → i < end → f i ≡ i)
    → k + n ≡ end
    → map f (range_from n k) ≡ range_from n k
map-range_from f zero k end h e = refl
map-range_from f (suc n) k end h e =
    ap₂ ◌∷◌ (h k (omega arith)) (map-range_from f n (suc k) end h (omega arith))

combination-whole :
    (shape : List ℕ) (k : ℕ)
    → k < product shape
    → combination (whole shape) (row_major_strides shape) k ≡ k
combination-whole shape k h =
    let strides = row_major_strides shape in
    ap (λ lens. dot (pick (whole shape) (unravel (row_major_strides lens) k)) strides)
      (lengths-whole shape)
    ∙ ap (λ c. dot c strides) (pick-whole shape (unravel strides k) (Inside-unravel shape k h))
    ∙ dot-unravel shape k h

cartesian-whole :
    (shape : List ℕ)
    → cartesian (whole shape) (row_major_strides shape) ≡ range_from (product shape) 0
cartesian-whole shape =
    let f = combination (whole shape) (row_major_strides shape) in
    cartesian-combination (whole shape) (row_major_strides shape)
    ∙ ap (λ n. map f (range_from n 0)) (ap product (lengths-whole shape))
    ∙ map-range_from f (product shape) 0 (product shape) (combination-whole shape) (omega arith)

cartesian-empty :
    (axes : List (List ℕ)) (strides : List ℕ)
    → any is_empty axes ≡ true
    → cartesian axes strides ≡ []
unfolding cartesian
cartesian-empty axes strides h = rw h refl

-- Blocks that touch make a range.
range_from-append :
    (m n k j : ℕ) → j ≡ k + m → range_from m k ++ range_from n j ≡ range_from (m + n) k
range_from-append zero n k j e = ap₂ range_from (omega arith) (omega arith)
range_from-append (suc m) n k j e =
    let both : suc (m + n) ≡ suc m + n = omega arith in
    ap (◌∷◌ k) (range_from-append m n (suc k) j (omega arith)) ∙ ap (λ t. range_from t k) both

blocks-touch :
    (count base block : ℕ) → blocks count base block block ≡ range_from (count * block) base
blocks-touch zero base block = let z : 0 ≡ 0 * block = omega arith in ap (λ n. range_from n base) z
blocks-touch (suc count) base block =
    let n : block + count * block ≡ suc count * block = grind arith in
    ap (◌++◌ (range_from block base)) (blocks-touch count (base + block) block)
    ∙ range_from-append block (count * block) base (base + block) refl
    ∙ ap (λ n. range_from n base) n

touching-Fits : (count block dim : ℕ) → count * block ≡ dim → Fits count 0 block block dim
touching-Fits zero block dim e = tt
touching-Fits (suc n) block dim e = grind arith

-- A slice that spans the axis has the coordinates of the whole axis.
whole_axis :
    (s : RawSlice) (dim : ℕ)
    → spans s dim ≡ true
    → (count : ℕ) × (slice_length s dim ≡ ok count)
      × (axis_coords s count dim ≡ ok (range_from dim 0))
unfolding spans slice_length
whole_axis s dim h = elim (Option-cases s.count) [
  | inl e ↦ let c : false ≡ true = rw e at h in cc
  | inr (count, e) ↦
      let all : (s.start == 0 && s.step == s.block && count * s.block == dim) ≡ true = rw e at h in
      let h1 = and_true (s.start == 0 && s.step == s.block) (count * s.block == dim) all in
      let h2 = and_true (s.start == 0) (s.step == s.block) h1.0 in
      let e1 : s.start ≡ 0 = (==_iff s.start 0).0 h2.0 in
      let e2 : s.step ≡ s.block = (==_iff s.step s.block).0 h2.1 in
      let e3 : count * s.block ≡ dim = (==_iff (count * s.block) dim).0 h1.1 in
      let fits : Fits count s.start s.step s.block dim =
        rw (e1, e2) (touching-Fits count s.block dim e3) in
      (
        count,
        rw e refl,
        axis_coords-blocks s count dim fits
            ∙ ap ok (
                ap₂ (λ a b. blocks count a b s.block) e1 e2
                ∙ blocks-touch count 0 s.block
                ∙ ap (λ n. range_from n 0) e3),
      )
]

whole_axes :
    (raw : List RawSlice) (shape : List ℕ)
    → length raw ≡ length shape
    → is_all raw shape ≡ true
    → all_axes raw shape ≡ ok (whole shape)
unfolding is_all all_axes
whole_axes [] [] e h = refl
whole_axes [] (d ∷ ds) e h = absurd (omega arith)
whole_axes (s ∷ ss) [] e h = absurd (omega arith)
whole_axes (s ∷ ss) (d ∷ ds) e h =
    let both = and_true (spans s d) (is_all ss ds) h in
    let (count, e1, e2) = whole_axis s d both.0 in
    rw (e1, e2, whole_axes ss ds (omega arith) both.1) refl

empty_axis :
    (s : RawSlice) (dim count : ℕ) (coords : List ℕ)
    → counts_none s.count ≡ true
    → slice_length s dim ≡ ok count
    → axis_coords s count dim ≡ ok coords
    → is_empty coords ≡ true
unfolding slice_length axis_coords for_each
empty_axis s dim count coords h e1 e2 = elim (Option-cases s.count) [
  | inl e ↦ let c : false ≡ true = rw e at h in cc
  | inr (n, e) ↦
      let z : n ≡ 0 = (==_iff n 0).0 (rw e at h) in
      let same : n ≡ count = ok_inj n count (rw e at e1) in
      let none_taken : axis_coords s 0 dim ≡ ok coords =
        subst (λ k. axis_coords s k dim ≡ ok coords) (sym same ∙ z) e2 in
      ap is_empty (sym (ok_inj [] coords none_taken))
]

empty_axes :
    (raw : List RawSlice) (shape : List ℕ) (axes : List (List ℕ))
    → length raw ≡ length shape
    → is_none raw ≡ true
    → all_axes raw shape ≡ ok axes
    → any is_empty axes ≡ true
unfolding is_none all_axes
empty_axes [] shape axes e n h = cc
empty_axes (s ∷ ss) [] axes e n h = absurd (omega arith)
empty_axes (s ∷ ss) (d ∷ ds) axes e n h =
    let (count, e1, h1) = >>=-eq-ok (slice_length s d) _ h in
    let (coords, e2, h2) = >>=-eq-ok (axis_coords s count d) _ h1 in
    let (rest, e3, h3) = >>=-eq-ok (all_axes ss ds) _ h2 in
    subst (λ t. any is_empty t ≡ true) (ok_inj (coords ∷ rest) axes h3)
      (elim (Bool-cases (counts_none s.count)) [
        | inl b ↦ rw (empty_axis s d count coords b e1 e2) refl
        | inr b ↦
            rw (empty_axes ss ds rest (omega arith) (rw b at n) e3) (or-true (is_empty coords))
      ])

-- The positions of the classified slices, by the class.
classified_positions :
    (raw : List RawSlice) (shape out : List ℕ) (axes : List (List ℕ))
    → length raw ≡ length shape
    → all_axes raw shape ≡ ok axes
    → ok (cartesian axes (row_major_strides shape)) ≡ ok out
    → linear_indices (regular_hyperslab raw) shape ≡ ok out
    → linear_indices (classify raw shape) shape ≡ ok out
unfolding linear_indices classify
classified_positions raw shape out axes same ea l2 l =
    let strides = row_major_strides shape in
    elim (Bool-cases (is_none raw)) [
      | inl b ↦
          rw b
            (ap ok (sym (cartesian-empty axes strides (empty_axes raw shape axes same b ea))) ∙ l2)
      | inr b ↦ elim (Bool-cases (is_all raw shape)) [
        | inl a ↦
            rw (b, a)
              (ap ok (
                  sym (cartesian-whole shape)
                  ∙ ap (λ t. cartesian t strides)
                      (ok_inj (whole shape) axes (sym (whole_axes raw shape same a) ∙ ea)))
                ∙ l2)
        | inr a ↦ rw (b, a) l
      ]
    ]

-- What `into_raw` makes of a hyperslab for a shape selects the positions that its raw slices
-- select, where these select without an error.
pub into_raw-linear_indices :
    (hyper : List SliceOrIndex) (shape out : List ℕ) (raw : List RawSlice) (sel : RawSelection)
    → hyperslab_into_raw hyper shape ≡ ok raw
    → into_raw (hyperslab hyper) shape ≡ ok sel
    → linear_indices (regular_hyperslab raw) shape ≡ ok out
    → linear_indices sel shape ≡ ok out
unfolding into_raw linear_indices
into_raw-linear_indices hyper shape out raw sel h k l =
    let sel_is : classify raw shape ≡ sel = ok_inj (classify raw shape) sel (rw h at k) in
    let (u, e, l1) =
      >>=-eq-ok (ensure (length raw == length shape) "selection rank mismatch") _ l in
    let same = (==_iff _ _).0 (ensured _ _ u e) in
    let (axes, ea, l2) = >>=-eq-ok (all_axes raw shape) _ l1 in
    subst (λ t. linear_indices t shape ≡ ok out) sel_is
      (classified_positions raw shape out axes same ea l2 l)
