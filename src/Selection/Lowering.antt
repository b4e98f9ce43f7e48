-- ===== src/Selection/Lowering.antt =====
-- From selectors to positions: the slices that a selector lowers to fit the axis.
use hdf5_rs.Prelude.{
  ℕ, zero, suc, ◌+◌, ◌-◌, ◌*◌, ◌/◌, ◌≤◌, ◌≡◌, ◌≢◌, refl, ap, sym, subst, ◌∙◌, List, [], ◌∷◌, length,
  arith, Bool-cases, inl, inr, ltb, leb, leb→le, ltb→lt, some, ok, >>=-eq-ok, ensure, ensured,
  ok_inj,
}
use native.Mathlib.Nat.{div-mul-le_self}
use hdf5_rs.Selection.{
  SliceOrIndex, index, slice_to, slice_count, unlimited, RawSlice, step_count, slice_to_raw,
  slice_info_to_raw, slices_to_raw,
}
use hdf5_rs.Selection.Linear.{slice_length}
use hdf5_rs.Selection.Linear.Axis.{Fits}

-- A block is not empty, and the last coordinate of a counted slice is not the dimension itself,
-- which the check of `slice_info_to_raw` lets through.
abbrev pub Reaches : SliceOrIndex → ℕ → Type 0
Reaches (index i) dim = Unit {0}
Reaches (slice_to start step end block) dim = 1 ≤ block
Reaches (slice_count start step count block) dim =
    (1 ≤ block) × (start + (block - 1) + step * (count - 1) ≢ dim)
Reaches (unlimited start step block) dim = 1 ≤ block

abbrev pub AllReach : List SliceOrIndex → List ℕ → Type 0
AllReach [] shape = Unit {0}
AllReach (s ∷ ss) [] = Unit {0}
AllReach (s ∷ ss) (d ∷ ds) = Reaches s d × AllReach ss ds

-- A slice with a count that stays on the axis.
abbrev pub Good : RawSlice → ℕ → Type 0
Good r dim = (count : ℕ) × (r.count ≡ some count) × Fits count r.start r.step r.block dim

step_count-Fits :
    (start step end block dim : ℕ)
    → 1 ≤ block
    → end ≤ dim
    → Fits (step_count (start + (block - 1)) end step) start step block dim
step_count-Fits start step end block dim hb he = elim (Bool-cases (ltb (start + (block - 1)) end)) [
  | inl b ↦
      let q = (end - (start + (block - 1)) - 1) / step in
      let one : suc q ≡ q + 1 = omega arith in
      rw b (
        subst (λ c. Fits c start step block dim) one
          (omega (arith, ltb→lt _ _ b, div-mul-le_self (end - (start + (block - 1)) - 1) step)))
  | inr b ↦ rw b tt
]

counted-Fits :
    (start step count block dim : ℕ)
    → 1 ≤ block
    → start + (block - 1) + step * (count - 1) ≢ dim
    → start + (block - 1) + step * (count - 1) ≤ dim
    → Fits count start step block dim
counted-Fits start step zero block dim hb ne le = tt
counted-Fits start step (suc n) block dim hb ne le = grind arith

slice_to-Good :
    (start step end block dim : ℕ) (r : RawSlice)
    → 1 ≤ block
    → slice_to_raw start step end block dim ≡ ok r
    → Good r dim
unfolding slice_to_raw
slice_to-Good start step end block dim r hb h =
    let (u1, e1, h1) = >>=-eq-ok (ensure (leb 1 step) "Slice stride < 1") _ h in
    let (u2, e2, h2) = >>=-eq-ok (ensure (leb start dim) "Slice start out of bounds") _ h1 in
    let (u3, e3, h3) = >>=-eq-ok (ensure (leb end dim) "Slice end out of bounds") _ h2 in
    let (u4, e4, h4) = >>=-eq-ok (ensure (ltb 0 step) "Stride out of bounds") _ h3 in
    subst (λ t. Good t dim) (ok_inj _ r h4)
      (_, refl, step_count-Fits start step end block dim hb (leb→le end dim (ensured _ _ u3 e3)))

pub slice_info_to_raw-Good :
    (s : SliceOrIndex) (dim : ℕ) (r : RawSlice)
    → Reaches s dim
    → slice_info_to_raw s dim ≡ ok r
    → Good r dim
unfolding slice_info_to_raw
slice_info_to_raw-Good (index i) dim r q h =
    let (u, e, h1) = >>=-eq-ok (ensure (ltb i dim) "Index out of bounds") _ h in
    subst (λ t. Good t dim) (ok_inj _ r h1) (1, refl, omega (arith, ltb→lt i dim (ensured _ _ u e)))
slice_info_to_raw-Good (slice_to start step end block) dim r q h =
    slice_to-Good start step end block dim r q h
slice_info_to_raw-Good (unlimited start step block) dim r q h =
    slice_to-Good start step dim block dim r q h
slice_info_to_raw-Good (slice_count start step count block) dim r (qb, qe) h =
    let (u1, e1, h1) = >>=-eq-ok (ensure (leb 1 step) "Slice stride < 1") _ h in
    let (u2, e2, h2) = >>=-eq-ok (ensure (leb start dim) "Slice start out of bounds") _ h1 in
    let (u3, e3, h3) =
      >>=-eq-ok
        (ensure (leb (start + (block - 1) + step * (count - 1)) dim) "Slice end out of bounds") _
        h2 in
    subst (λ t. Good t dim) (ok_inj _ r h3)
      (count, refl, counted-Fits start step count block dim qb qe (leb→le _ _ (ensured _ _ u3 e3)))

pub length-slices_to_raw :
    (hyper : List SliceOrIndex) (shape : List ℕ) (raw : List RawSlice)
    → length hyper ≡ length shape
    → slices_to_raw hyper shape ≡ ok raw
    → length raw ≡ length shape
unfolding slices_to_raw
length-slices_to_raw [] [] raw e h = ap length (sym (ok_inj [] raw h))
length-slices_to_raw [] (d ∷ ds) raw e h = absurd (omega arith)
length-slices_to_raw (s ∷ ss) [] raw e h = absurd (omega arith)
length-slices_to_raw (s ∷ ss) (d ∷ ds) raw e h =
    let (r, h1, k1) = >>=-eq-ok (slice_info_to_raw s d) _ h in
    let (rs, h2, k2) = >>=-eq-ok (slices_to_raw ss ds) _ k1 in
    ap length (sym (ok_inj _ raw k2)) ∙ ap suc (length-slices_to_raw ss ds rs (omega arith) h2)

pub counted-slice_length :
    (r : RawSlice) (count dim : ℕ) → r.count ≡ some count → slice_length r dim ≡ ok count
unfolding slice_length
counted-slice_length r count dim e = rw e refl
