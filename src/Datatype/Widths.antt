-- ===== src/Datatype/Widths.antt =====
-- hdf5/src/format/datatype.rs: `bytes_for`, the bytes that a number needs, and at least one.
use hdf5_rs.Prelude.{
  ℕ, zero, suc, ◌+◌, ◌/◌, ◌^◌, ◌<◌, ◌≤◌, arith, max, Bool-cases, true, false, inl, inr, ◌==◌,
  ==_iff, Result, ok, out_of_fuel, ◌>>=◌, Safe, >>=-Safe,
}
use native.Mathlib.Nat.{pow-suc}

-- `while v > 0 { bits += 1; v >>= 1 }`
unfoldable pub count_bits : ℕ → ℕ → Result ℕ
count_bits zero v = out_of_fuel
count_bits (suc fuel) v = elim (v == 0) [
  | true ↦ ok 0
  | false ↦ count_bits fuel (v / 2) >>= λ bits. ok (1 + bits)
]

unfoldable pub bytes_for : ℕ → Result ℕ
unfolding count_bits
bytes_for n = count_bits (n + 1) n >>= λ bits. ok (max ((bits + 7) / 8) 1)

count_bits-Safe :
    (k fuel v : ℕ) → v < fuel → v < 2 ^ k → Safe (λ bits. bits ≤ k) (count_bits fuel v)
unfolding count_bits
count_bits-Safe k zero v h w = absurd (omega arith)
count_bits-Safe zero (suc fuel) v h w = rw (Safe, (==_iff v 0).1 (omega arith)) (omega arith)
count_bits-Safe (suc k) (suc fuel) v h w = elim (Bool-cases (v == 0)) [
  | inl b ↦ rw (Safe, b) (omega arith)
  | inr b ↦
      let e = pow-suc 2 k in
      let ne : 1 ≤ v = grind (arith, ==_iff) in
      rw (Safe, b)
        (>>=-Safe (λ bits. bits ≤ k) (λ bits. bits ≤ suc k) (count_bits fuel (v / 2)) _
          (count_bits-Safe k fuel (v / 2) (omega arith) (omega arith)) (λ bits q. omega arith))
]

-- A number of four bytes needs at most four.
pub bytes_for-Safe : (n : ℕ) → n < 2 ^ 32 → Safe (λ width. width ≤ 8) (bytes_for n)
unfolding bytes_for
bytes_for-Safe n h =
    >>=-Safe (λ bits. bits ≤ 32) (λ width. width ≤ 8) (count_bits (n + 1) n) _
      (count_bits-Safe 32 (n + 1) n (omega arith) h) (λ bits q. omega arith)
