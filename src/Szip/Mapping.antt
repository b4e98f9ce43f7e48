-- ===== src/Szip/Mapping.antt =====
-- The decoder undoes the preprocessing of the encoder: the mapped differences give back the samples.
use hdf5_rs.Prelude.{
  ℕ, zero, suc, ◌+◌, ◌-◌, ◌*◌, ◌/◌, ◌%◌, ◌^◌, ◌<◌, ◌≤◌, ◌≡◌, refl, ap, ◌∙◌, arith, min, List, [],
  ◌∷◌, All, Bool, true, false, leb, ◌==◌, ==_iff, bit_and, le→leb, le→not_ltb, lt→not_leb, dec_lt,
  dec_le, if◌then◌else◌, ok,
}
use native.Mathlib.Nat.{
  pow-suc, one-le-pow, mod-eq_of_lt, pow-le-pow_right, div-eq_of_lt, div-eq_of_lt-le,
}
use hdf5_rs.Prelude.Bits.{bit_and_low, bit_and_high, all_ones-bit_xor, zero-bit_xor}
use hdf5_rs.Szip.Decode.{xmax_of, unmap_step, unmap_loop, unmap_rsi}
use hdf5_rs.Szip.Encode.{map_step, map_loop, map_rsi}

keep32 : (m : ℕ) → m < 2 ^ 32 → m % 2 ^ 32 ≡ m
keep32 m h = mod-eq_of_lt h

-- The middle of the range is the high bit, and a sample has it or lies below.
module _ (k : ℕ) where
  abbrev top : ℕ
  top = 2 ^ suc k - 1

  middle : top / 2 + 1 ≡ (2 ^ 1 - 1) * 2 ^ k
  middle = omega (arith, pow-suc 2 k, one-le-pow k 2)

  sign_low : (s : ℕ) → s < 2 ^ k → bit_and s (top / 2 + 1) ≡ 0
  sign_low s h = rw (middle, bit_and_high k 1 s, div-eq_of_lt h) (omega arith)

  sign_high : (s : ℕ) → 2 ^ k ≤ s → s < 2 ^ suc k → bit_and s (top / 2 + 1) ≡ 2 ^ k
  sign_high s h q =
      let one : s / 2 ^ k ≡ 1 =
        div-eq_of_lt-le {k = 1} (2 ^ k) (omega arith) (omega (arith, pow-suc 2 k)) in
      rw (middle, bit_and_high k 1 s, one) (omega arith)

  -- What `unmap_step` computes below the middle, and above it.
  abbrev undone : ℕ → ℕ → ℕ → ℕ → ℕ
  undone s theta d far =
      if leb (d / 2 + d % 2) theta
      then (if d % 2 == 1 then (s + 2 ^ 32 - (d / 2 + 1)) % 2 ^ 32 else (s + d / 2) % 2 ^ 32)
      else far

  unmap_low :
      (s d : ℕ) → s < 2 ^ k → s < 2 ^ suc k → d < 2 ^ suc k → unmap_step top s d ≡ undone s s d d
  unfolding unmap_step
  unmap_low s d h q r =
      rw (sign_low s h, zero-bit_xor (suc k) s q, zero-bit_xor (suc k) d r, bit_and_low 1 d) refl

  unmap_high :
      (s d : ℕ)
      → 2 ^ k ≤ s
      → s < 2 ^ suc k
      → d < 2 ^ suc k
      → unmap_step top s d ≡ undone s (top - s) d (top - d)
  unfolding unmap_step
  unmap_high s d h q r =
      let ne : (2 ^ k == 0) ≡ false = grind (arith, ==_iff, one-le-pow k 2) in
      rw
        (
          sign_high s h q,
          ne,
          all_ones-bit_xor (suc k) s q,
          all_ones-bit_xor (suc k) d r,
          bit_and_low 1 d,
        )
        refl

  theta_low : (s : ℕ) → s < 2 ^ k → min s (top - s) ≡ s
  theta_low s h = omega (arith, pow-suc 2 k)

  theta_high : (s : ℕ) → 2 ^ k ≤ s → min s (top - s) ≡ top - s
  theta_high s h = omega (arith, pow-suc 2 k)

  -- The mapped difference, for a distance to the nearer end of the range.
  abbrev mapped : ℕ → ℕ → ℕ → ℕ
  mapped theta prev x =
      if leb prev x
      then (if leb (x - prev) theta then 2 * (x - prev) else theta + (x - prev))
      else (if leb (prev - x) theta then 2 * (prev - x) - 1 else theta + (prev - x))

  undone_even :
      (s theta d far u : ℕ) → d ≡ 2 * u → u ≤ theta → s + u < 2 ^ 32 → undone s theta d far ≡ s + u
  undone_even s theta d far u e h w =
      let odd : (d % 2 == 1) ≡ false = grind (arith, ==_iff) in
      rw (le→leb (d / 2 + d % 2) theta (omega arith), odd) (omega arith)

  undone_odd :
      (s theta d far u : ℕ)
      → d + 1 ≡ 2 * u
      → u ≤ theta
      → u ≤ s
      → s < 2 ^ 32
      → undone s theta d far ≡ s - u
  undone_odd s theta d far u e h v w =
      let odd : (d % 2 == 1) ≡ true = (==_iff (d % 2) 1).1 (omega arith) in
      rw (le→leb (d / 2 + d % 2) theta (omega arith), odd) (omega arith)

  undone_far : (s theta d far : ℕ) → 2 * theta < d → undone s theta d far ≡ far
  undone_far s theta d far h = rw (lt→not_leb (d / 2 + d % 2) theta (omega arith)) refl

  -- One difference there and back, where the range ends at `theta` on the nearer side.
  mapped_back :
      (prev theta x : ℕ) (far : ℕ → ℕ)
      → prev < 2 ^ 32
      → x < 2 ^ 32
      → (prev + theta < x → far (theta + (x - prev)) ≡ x)
      → (x + theta < prev → far (theta + (prev - x)) ≡ x)
      → undone prev theta (mapped theta prev x) (far (mapped theta prev x)) ≡ x
  mapped_back prev theta x far p q up down = elim (dec_le prev x) [
    | yes a ↦ elim (dec_le (x - prev) theta) [
      | yes b ↦
          rw (le→leb prev x a, le→leb (x - prev) theta b)
            (undone_even prev theta (2 * (x - prev)) (far (2 * (x - prev))) (x - prev) refl b
                (omega arith)
              ∙ omega arith)
      | no b ↦
          rw (le→leb prev x a, lt→not_leb (x - prev) theta (omega arith))
            (undone_far prev theta (theta + (x - prev)) (far (theta + (x - prev))) (omega arith)
              ∙ up (omega arith))
    ]
    | no a ↦ elim (dec_le (prev - x) theta) [
      | yes b ↦
          rw (lt→not_leb prev x (omega arith), le→leb (prev - x) theta b)
            (undone_odd prev theta (2 * (prev - x) - 1) (far (2 * (prev - x) - 1)) (prev - x)
                (omega arith) b (omega arith) p
              ∙ omega arith)
      | no b ↦
          rw (lt→not_leb prev x (omega arith), lt→not_leb (prev - x) theta (omega arith))
            (undone_far prev theta (theta + (prev - x)) (far (theta + (prev - x))) (omega arith)
              ∙ down (omega arith))
    ]
  ]

  mapped-lt :
      (prev theta x : ℕ)
      → theta ≤ prev
      → prev + theta ≤ top
      → prev < 2 ^ suc k
      → x < 2 ^ suc k
      → mapped theta prev x < 2 ^ suc k
  mapped-lt prev theta x t u p q = elim (dec_le prev x) [
    | yes a ↦ elim (dec_le (x - prev) theta) [
      | yes b ↦ rw (le→leb prev x a, le→leb (x - prev) theta b) (omega arith)
      | no b ↦ rw (le→leb prev x a, lt→not_leb (x - prev) theta (omega arith)) (omega arith)
    ]
    | no a ↦ elim (dec_le (prev - x) theta) [
      | yes b ↦ rw (lt→not_leb prev x (omega arith), le→leb (prev - x) theta b) (omega arith)
      | no b ↦
          rw (lt→not_leb prev x (omega arith), lt→not_leb (prev - x) theta (omega arith))
            (omega arith)
    ]
  ]

  map_step-mapped :
      (prev x : ℕ) → prev < 2 ^ suc k → map_step top prev x ≡ mapped (min prev (top - prev)) prev x
  unfolding map_step
  map_step-mapped prev x p = rw (le→not_ltb top prev (omega arith)) refl

  -- One difference, mapped and undone, gives back the sample.
  module _ (low : 2 ^ suc k ≤ 2 ^ 32) (prev x : ℕ) (p : prev < 2 ^ suc k) (q : x < 2 ^ suc k) where
    unmap_step-map_step : unmap_step top prev (map_step top prev x % 2 ^ 32) ≡ x
    unmap_step-map_step = elim (dec_lt prev (2 ^ k)) [
      | yes h ↦
          let double = pow-suc 2 k in
          let small = mapped-lt prev prev x (omega arith) (omega (arith, double)) p q in
          rw (map_step-mapped prev x p, theta_low prev h, keep32 (mapped prev prev x) (omega arith))
            (unmap_low prev (mapped prev prev x) h p small
              ∙ mapped_back prev prev x (λ m. m) (omega arith) (omega arith) (λ u. omega arith)
                  (λ u. omega arith))
      | no h ↦
          let double = pow-suc 2 k in
          let above : 2 ^ k ≤ prev = omega arith in
          let near : top - prev ≤ prev = omega (arith, double) in
          let small = mapped-lt prev (top - prev) x near (omega (arith, double)) p q in
          rw
            (
              map_step-mapped prev x p,
              theta_high prev above,
              keep32 (mapped (top - prev) prev x) (omega arith),
            )
            (unmap_high prev (mapped (top - prev) prev x) above p small
              ∙ mapped_back prev (top - prev) x (λ m. top - m) (omega arith) (omega arith)
                  (λ u. omega arith) (λ u. omega arith))
    ]

  unmap_loop-map_loop :
      (low : 2 ^ suc k ≤ 2 ^ 32) (prev : ℕ) (xs : List ℕ)
      → prev < 2 ^ suc k
      → All (λ x. x < 2 ^ suc k) xs
      → unmap_loop top prev (map_loop top prev xs) ≡ xs
  unfolding unmap_loop map_loop
  unmap_loop-map_loop low prev [] p h = refl
  unmap_loop-map_loop low prev (x ∷ xs) p (q, qs) =
      let step = unmap_step-map_step low prev x p q in
      rw step (ap (◌∷◌ x) (unmap_loop-map_loop low x xs q qs))

-- The decoder's `unmap_rsi` gives back every segment of samples that fit their width, of one to 32
-- bits, that the preprocessing of the encoder has mapped.
pub unmap_rsi-map_rsi :
    (pp : Bool) (bps : ℕ) (x : ℕ) (xs : List ℕ)
    → 1 ≤ bps
    → bps ≤ 32
    → All (λ s. s < 2 ^ bps) (x ∷ xs)
    → unmap_rsi pp (xmax_of bps) (map_rsi pp (xmax_of bps) (x ∷ xs)) ≡ ok (x ∷ xs)
unfolding unmap_rsi map_rsi
unmap_rsi-map_rsi false bps x xs h k (p, ps) = refl
unmap_rsi-map_rsi true zero x xs h k (p, ps) = absurd (omega arith)
unmap_rsi-map_rsi true (suc b) x xs h k (p, ps) =
    ap (λ t. ok (x ∷ t))
      (unmap_loop-map_loop b (pow-le-pow_right {n = 2} (omega arith) k) x xs p ps)
