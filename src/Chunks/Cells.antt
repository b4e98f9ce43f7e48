-- ===== src/Chunks/Cells.antt =====
-- What a write to one element does to the elements of a list.
use hdf5_rs.Prelude.{
  ℕ, zero, suc, ◌+◌, ◌-◌, ◌*◌, ◌<◌, ◌≤◌, ◌≡◌, ◌≢◌, refl, ap, sym, ◌∙◌, arith, List, [], ◌∷◌, ◌++◌,
  length, length-append, length-take, length-drop, take, drop, take-append, drop-append, drop-add,
  le→leb, ok, dec_lt,
}
use hdf5_rs.Prelude.Bytes.{write_at}
use hdf5_rs.Chunks.Copy.{cell}

-- Inside the first `a` entries, what stands behind them plays no part.
cut_before :
    (a k n : ℕ) (xs ys : List ℕ)
    → k + n ≤ a
    → a ≤ length xs
    → take n (drop k (take a xs ++ ys)) ≡ take n (drop k xs)
cut_before zero zero zero xs ys h room = refl
cut_before zero zero (suc n) xs ys h room = absurd (omega arith)
cut_before zero (suc k) n xs ys h room = absurd (omega arith)
cut_before (suc a) k n [] ys h room = absurd (omega arith)
cut_before (suc a) zero zero (x ∷ xs) ys h room = refl
cut_before (suc a) zero (suc n) (x ∷ xs) ys h room =
    ap (◌∷◌ x) (cut_before a zero n xs ys (omega arith) (omega arith))
cut_before (suc a) (suc k) n (x ∷ xs) ys h room = cut_before a k n xs ys (omega arith) (omega arith)

abbrev pub written : List ℕ → ℕ → List ℕ → List ℕ
written xs a new = take a xs ++ (new ++ drop (a + length new) xs)

module _ (xs new : List ℕ) (a : ℕ) (room : a + length new ≤ length xs) where
  pub write_at-written : write_at xs a new ≡ ok (written xs a new)
  write_at-written = rw (le→leb (a + length new) (length xs) room) refl

  front : length (take a xs) ≡ a
  front = omega (arith, length-take a xs)

  pub length-written : length (written xs a new) ≡ length xs
  length-written = omega (
    arith,
    front,
    length-append (take a xs) (new ++ drop (a + length new) xs),
    length-append new (drop (a + length new) xs),
    length-drop (a + length new) xs,
  )

  drop_front : drop a (written xs a new) ≡ new ++ drop (a + length new) xs
  drop_front =
      ap (λ k. drop k (written xs a new)) (sym front)
      ∙ drop-append (take a xs) (new ++ drop (a + length new) xs)

  at_write : take (length new) (drop a (written xs a new)) ≡ new
  at_write = rw drop_front (take-append new (drop (a + length new) xs))

  behind : (k : ℕ) → a + length new ≤ k → drop k (written xs a new) ≡ drop k xs
  behind k h =
      let r = k - (a + length new) in
      let parts : k ≡ a + (length new + r) = omega arith in
      let whole : k ≡ (a + length new) + r = omega arith in
      drop-add a (length new + r) k (written xs a new) parts
      ∙ ap (drop (length new + r)) drop_front
      ∙ drop-add (length new) r (length new + r) (new ++ drop (a + length new) xs) refl
      ∙ ap (drop r) (drop-append new (drop (a + length new) xs))
      ∙ sym (drop-add (a + length new) r k xs whole)

module _ (es : ℕ) (xs new : List ℕ) (g : ℕ) (size : length new ≡ es)
    (room : g * es + es ≤ length xs) where
  fits : g * es + length new ≤ length xs
  fits = omega arith

  pub cell-written_same : cell es (written xs (g * es) new) g ≡ new
  cell-written_same =
      ap (λ n. take n (drop (g * es) (written xs (g * es) new))) (sym size)
      ∙ at_write xs new (g * es) fits

  pub cell-written_other : (e : ℕ) → e ≢ g → cell es (written xs (g * es) new) e ≡ cell es xs e
  cell-written_other e ne = elim (dec_lt e g) [
    | yes lt ↦
        let before : e * es + es ≤ g * es = grind arith in
        cut_before (g * es) (e * es) es xs _ before (omega arith)
    | no ge ↦
        let after : g * es + es ≤ e * es = let big : g < e = omega (arith, ne) in grind arith in
        ap (take es) (behind xs new (g * es) fits (e * es) (omega arith))
  ]
