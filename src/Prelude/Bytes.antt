-- ===== src/Prelude/Bytes.antt =====
-- Rust's `to_le_bytes` and `from_le_bytes`, and checked access to slices.
use Prim.Native.Nat.{ℕ, zero, suc, ◌+◌, ◌-◌, ◌*◌, ◌/◌, ◌%◌, ◌^◌, ◌<◌, ◌≤◌}
use mathlib.Core.Path.{◌≡◌, refl, sym, ap, ap₂, ◌∙◌}
use mathlib.Core.Bool.{◌&&◌}
use mathlib.Core.List.{List, [], ◌∷◌, ◌++◌}
use mathlib.Core.Option.{none, some}
use native.Mathlib.Omega.{arith}
use native.Mathlib.Nat.{
  pow-suc, one-le-pow, mod-lt, div-add-mod', mod-eq_of_lt, add-mul-mod_self_right,
}
use hdf5_rs.Prelude.Tests.{ltb, leb, if◌then◌else◌, lt→ltb, le→leb}
use hdf5_rs.Prelude.Lists.{
  length, get_elem?, set, take, drop, All, get_or, get_elem?-eq-get_or, length-set,
}
use hdf5_rs.Prelude.Lists.{length-append, length-take, length-drop}
use hdf5_rs.Prelude.Fallible.{Result, ok, panic, Safe}

abbrev pub IsByte : ℕ → Type 0
IsByte b = b < 256

abbrev pub to_le : ℕ → ℕ → List ℕ
to_le zero v = []
to_le (suc n) v = (v % 256) ∷ to_le n (v / 256)

abbrev pub from_le : List ℕ → ℕ
from_le [] = 0
from_le (b ∷ bs) = b + 256 * from_le bs

pub length-to_le : (n v : ℕ) → length (to_le n v) ≡ n
length-to_le zero v = refl
length-to_le (suc n) v = ap suc (length-to_le n (v / 256))

pub to_le-IsByte : (n v : ℕ) → All IsByte (to_le n v)
to_le-IsByte zero v = tt
to_le-IsByte (suc n) v = (omega arith, to_le-IsByte n (v / 256))

-- The value survives up to the width.
pub from_le-to_le : (n v : ℕ) → from_le (to_le n v) ≡ v % 256 ^ n
from_le-to_le zero v = omega arith
from_le-to_le (suc n) v =
    let m = 256 * 256 ^ n in
    let width : m ≡ 256 ^ suc n = omega (arith, pow-suc 256 n) in
    let low : ℕ = v % 256 + 256 * (v / 256 % 256 ^ n) in
    let pos : 1 ≤ 256 ^ n = one-le-pow n 256 (omega arith) in
    let q = mod-lt (v / 256) {m = 256 ^ n} pos in
    let small : low < m = omega (arith, q) in
    let whole : v ≡ low + v / 256 / 256 ^ n * m =
      omega (arith, ap (λ (t : ℕ). 256 * t) (div-add-mod' (v / 256) (256 ^ n))) in
    ap (λ t. v % 256 + 256 * t) (from_le-to_le n (v / 256))
    ∙ sym (mod-eq_of_lt small)
    ∙ sym (add-mul-mod_self_right low (v / 256 / 256 ^ n) m)
    ∙ ap (λ t. t % m) (sym whole)
    ∙ ap (λ t. v % t) width

pub to_le-from_le : (bs : List ℕ) → All IsByte bs → to_le (length bs) (from_le bs) ≡ bs
to_le-from_le [] h = refl
to_le-from_le (b ∷ bs) (hb, hs) =
    let low : (b + 256 * from_le bs) % 256 ≡ b = omega arith in
    let high : (b + 256 * from_le bs) / 256 ≡ from_le bs = omega arith in
    ap₂ ◌∷◌ low (ap (to_le (length bs)) high ∙ to_le-from_le bs hs)

pub from_le-lt : (bs : List ℕ) → All IsByte bs → from_le bs < 256 ^ length bs
from_le-lt [] h = omega arith
from_le-lt (b ∷ bs) (hb, hs) = omega (arith, from_le-lt bs hs, pow-suc 256 (length bs))

module _ {ℓ} {A : Type ℓ} where
  -- `xs[i]`
  abbrev pub index : List A → ℕ → Result A
  index xs i = elim (get_elem? xs i) [ none ↦ panic | some x ↦ ok x ]

  -- `xs[i] = v`
  abbrev pub put : List A → ℕ → A → Result (List A)
  put xs i v = if ltb i (length xs) then ok (set xs i v) else panic

  -- `&xs[from..to]`
  abbrev pub slice : List A → ℕ → ℕ → Result (List A)
  slice xs from to =
      if leb from to && leb to (length xs) then ok (take (to - from) (drop from xs)) else panic

  -- `xs[at..at + n].copy_from_slice(new)` for a `new` of n elements
  abbrev pub write_at : List A → ℕ → List A → Result (List A)
  write_at xs at new =
      if leb (at + length new) (length xs)
      then ok (take at xs ++ (new ++ drop (at + length new) xs))
      else panic

module _ {ℓ} {A : Type ℓ} where
  pub index-Safe : (xs : List A) (i : ℕ) → i < length xs → Safe (λ _. Unit {0}) (index xs i)
  index-Safe [] i h = absurd (omega arith)
  index-Safe (x ∷ xs) zero h = tt
  index-Safe (x ∷ xs) (suc i) h = index-Safe xs i (omega arith)

  pub index-eq-get_or :
      (xs : List A) (i : ℕ) (d : A) → i < length xs → index xs i ≡ ok (get_or xs i d)
  index-eq-get_or xs i d h = rw (get_elem?-eq-get_or xs i d h, index)

  pub put-Safe :
      (xs : List A) (i : ℕ) (v : A)
      → i < length xs
      → Safe (λ ys. length ys ≡ length xs) (put xs i v)
  put-Safe xs i v h = rw (lt→ltb i (length xs) h) (length-set xs i v)

  pub slice-Safe :
      (xs : List A) (from to : ℕ)
      → from ≤ to
      → to ≤ length xs
      → Safe (λ ys. length ys ≡ to - from) (slice xs from to)
  slice-Safe xs from to h k =
      rw (le→leb from to h, le→leb to (length xs) k)
        (omega (arith, length-take (to - from) (drop from xs), length-drop from xs))

  pub write_at-Safe :
      (xs : List A) (at : ℕ) (new : List A)
      → at + length new ≤ length xs
      → Safe (λ ys. length ys ≡ length xs) (write_at xs at new)
  write_at-Safe xs at new h = rw (le→leb (at + length new) (length xs) h) (
      omega (
        arith,
        length-append (take at xs) (new ++ drop (at + length new) xs),
        length-append new (drop (at + length new) xs),
        length-take at xs,
        length-drop (at + length new) xs,
      ))
