-- ===== src/Selection/Linear/Odometer.antt =====
-- The odometer of `linear_indices` against a direct description: its k-th result is the position
-- of the coordinates that the row-major digits of k choose on the axes.
use hdf5_rs.Prelude.{
  ℕ, zero, suc, ◌+◌, ◌*◌, ◌<◌, ◌≤◌, ◌≡◌, refl, sym, ap, ap₂, ◌∙◌, ◌⊎◌, inl, inr, List, [], ◌∷◌, map,
  arith, length, Bool, true, false, Bool-cases, ltb, any, ltb→lt, not_ltb→le,
}
use hdf5_rs.Selection.Linear.{
  product, row_major_strides, dot, pick, turn, advance, enumerate, cartesian, range_from, is_empty,
}
use hdf5_rs.Selection.Linear.Strides.{Inside, dot-cons, unravel, unravel-dot}

abbrev pub lengths : List (List ℕ) → List ℕ
lengths axes = map length axes

-- The number that the positions stand for.
abbrev pub reading : List (List ℕ) → List ℕ → ℕ
reading axes idx = dot idx (row_major_strides (lengths axes))

-- One step counts one up, or starts again from zero with a carry.
abbrev Counts : List (List ℕ) → List ℕ → Bool × List ℕ → Type 0
Counts axes idx r =
    Inside r.1 (lengths axes)
    × (((r.0 ≡ false) × (reading axes r.1 ≡ reading axes idx + 1))
        ⊎ ((r.0 ≡ true)
            × ((reading axes idx + 1 ≡ product (lengths axes)) × (reading axes r.1 ≡ 0))))

carried :
    (j p low first from to : ℕ)
    → low + 1 ≡ p
    → first ≡ 0
    → from ≡ j * p + low
    → to ≡ (j + 1) * p + first
    → to ≡ from + 1
carried j p low first from to e z f g = grind arith

wrapped :
    (j len p low from : ℕ) → low + 1 ≡ p → len ≡ j + 1 → from ≡ j * p + low → from + 1 ≡ len * p
wrapped j len p low from e f g = rw f (grind arith)

turn-Counts :
    (axis : List ℕ) (axes : List (List ℕ)) (j : ℕ) (js : List ℕ) (r : Bool × List ℕ)
    → j < length axis
    → Counts axes js r
    → Counts (axis ∷ axes) (j ∷ js) (turn (length axis) j r)
turn-Counts axis axes j js (false, next) h (ins, inr (c, (e, z))) = cc
turn-Counts axis axes j js (true, next) h (ins, inl (c, e)) = cc
turn-Counts axis axes j js (false, next) h (ins, inl (c, e)) = (
  (h, ins),
  inl (
    refl,
    omega (
      arith,
      e,
      dot-cons j (length axis) js (lengths axes),
      dot-cons j (length axis) next (lengths axes),
    ),
  ),
)
turn-Counts axis axes j js (true, next) h (ins, inr (c, (e, z))) =
    elim (Bool-cases (ltb (j + 1) (length axis))) [
      | inl below ↦ rw below (
        (ltb→lt (j + 1) (length axis) below, ins),
        inl (
          refl,
          carried j (product (lengths axes)) (reading axes js) (reading axes next) _ _ e z
              (dot-cons j (length axis) js (lengths axes))
              (dot-cons (j + 1) (length axis) next (lengths axes)),
        ),
      )
      | inr end ↦ rw end (
        (omega arith, ins),
        inr (
          refl,
          (
            wrapped j (length axis) (product (lengths axes)) (reading axes js) _ e
                (omega (arith, not_ltb→le _ _ end)) (dot-cons j (length axis) js (lengths axes)),
            omega (arith, z, dot-cons 0 (length axis) next (lengths axes)),
          ),
        ),
      )
    ]

advance-Counts :
    (axes : List (List ℕ)) (idx : List ℕ)
    → Inside idx (lengths axes)
    → Counts axes idx (advance axes idx)
unfolding advance row_major_strides
advance-Counts [] [] h = (tt, inr (refl, (refl, refl)))
advance-Counts [] (j ∷ js) h = elim h [ ]
advance-Counts (axis ∷ axes) [] h = elim h [ ]
advance-Counts (axis ∷ axes) (j ∷ js) (h, hs) =
    turn-Counts axis axes j js (advance axes js) h (advance-Counts axes js hs)

pub no_carry :
    (axes : List (List ℕ)) (idx : List ℕ)
    → Inside idx (lengths axes)
    → reading axes idx + 1 < product (lengths axes)
    → Inside (advance axes idx).1 (lengths axes)
      × (reading axes (advance axes idx).1 ≡ reading axes idx + 1)
no_carry axes idx h lt =
    let (ins, counted) = advance-Counts axes idx h in
    (ins, elim counted [ inl p ↦ p.1 | inr p ↦ absurd (omega (arith, p.1.0)) ])

-- The position that the k-th combination of coordinates has.
abbrev pub combination : List (List ℕ) → List ℕ → ℕ → ℕ
combination axes strides k = dot (pick axes (unravel (row_major_strides (lengths axes)) k)) strides

digits :
    (axes : List (List ℕ)) (idx : List ℕ) (k : ℕ)
    → Inside idx (lengths axes)
    → reading axes idx ≡ k
    → idx ≡ unravel (row_major_strides (lengths axes)) k
digits axes idx k h e =
    sym (unravel-dot idx (lengths axes) h) ∙ ap (unravel (row_major_strides (lengths axes))) e

enumerate-combination :
    (n : ℕ) (axes : List (List ℕ)) (strides idx : List ℕ) (k : ℕ)
    → Inside idx (lengths axes)
    → reading axes idx ≡ k
    → k + n ≤ product (lengths axes)
    → enumerate n axes strides idx ≡ map (combination axes strides) (range_from n k)
unfolding enumerate
enumerate-combination zero axes strides idx k h e b = refl
enumerate-combination (suc zero) axes strides idx k h e b =
    ap₂ ◌∷◌ (ap (λ i. dot (pick axes i) strides) (digits axes idx k h e)) refl
enumerate-combination (suc (suc n)) axes strides idx k h e b =
    let next = no_carry axes idx h (omega arith) in
    ap₂ ◌∷◌ (ap (λ i. dot (pick axes i) strides) (digits axes idx k h e)) (
      enumerate-combination (suc n) axes strides (advance axes idx).1 (suc k) next.0
        (omega (arith, next.1)) (omega arith))

-- Where no axis is empty the odometer starts at zero; otherwise there is no combination.
starts :
    (axes : List (List ℕ))
    → any is_empty axes ≡ false
    → Inside (map (λ _. 0) axes) (lengths axes) × (reading axes (map (λ _. 0) axes) ≡ 0)
unfolding row_major_strides
starts [] h = (tt, refl)
starts ([] ∷ axes) h = cc
starts ((x ∷ xs) ∷ axes) h =
    let rest = starts axes h in
    (
      (omega arith, rest.0),
      omega (arith, dot-cons 0 (suc (length xs)) (map (λ _. 0) axes) (lengths axes), rest.1),
    )

none_left : (axes : List (List ℕ)) → any is_empty axes ≡ true → product (lengths axes) ≡ 0
none_left [] h = cc
none_left ([] ∷ axes) h = omega arith
none_left ((x ∷ xs) ∷ axes) h = rw (none_left axes h) (omega arith)

-- The odometer over the axes returns, for each k below the product of their lengths and in this
-- order, the position of the coordinates that the row-major digits of k choose.
pub cartesian-combination :
    (axes : List (List ℕ)) (strides : List ℕ)
    → cartesian axes strides
      ≡ map (combination axes strides) (range_from (product (lengths axes)) 0)
unfolding cartesian
cartesian-combination axes strides = elim (Bool-cases (any is_empty axes)) [
  | inl h ↦ rw (h, none_left axes h) refl
  | inr h ↦
      let s = starts axes h in
      rw h (
        enumerate-combination (product (lengths axes)) axes strides (map (λ _. 0) axes) 0 s.0 s.1
          (omega arith))
]
