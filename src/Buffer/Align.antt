-- ===== src/Buffer/Align.antt =====
-- Rounding up to a multiple.
use hdf5_rs.Prelude.{
  ℕ, zero, suc, ◌+◌, ◌-◌, ◌*◌, ◌/◌, ◌^◌, ◌<◌, ◌≤◌, ◌≡◌, ap, subst, ◌∙◌, arith, bit_and, length,
  length-append, length-replicate, replicate,
}
use hdf5_rs.Prelude.Bits.{bit_and_high}
use hdf5_rs.Prelude.Arith.{split_index, row-lt}
use native.Mathlib.Nat.{mod-lt, pow-suc, one-le-pow, mod-eq_of_lt}
use hdf5_rs.Buffer.{align8, align_up, Buf, pad8}

-- The least multiple of `a` that is not below `n`.
abbrev pub RoundsUp : ℕ → ℕ → ℕ → Type 0
RoundsUp a n r = (n ≤ r) × ((r < n + a) × ((q : ℕ) × (r ≡ q * a)))

-- `m` high bits over `k` low ones.
masked_up :
    (k m n : ℕ)
    → n + 2 ^ k ≤ 2 ^ m * 2 ^ k
    → RoundsUp (2 ^ k) n (bit_and (n + 2 ^ k - 1) ((2 ^ m - 1) * 2 ^ k))
masked_up k m n h =
    let pos : 1 ≤ 2 ^ k = one-le-pow k 2 (omega arith) in
    let x = n + 2 ^ k - 1 in
    let fits : x / 2 ^ k < 2 ^ m = row-lt x (2 ^ m) (2 ^ k) (omega arith) in
    let cleared : bit_and x ((2 ^ m - 1) * 2 ^ k) ≡ x / 2 ^ k * 2 ^ k =
      bit_and_high k m x ∙ ap (λ (t : ℕ). t * 2 ^ k) (mod-eq_of_lt fits) in
    let parts = split_index x (2 ^ k) in
    let low = mod-lt x {m = 2 ^ k} pos in (omega arith, (omega arith, (x / 2 ^ k, cleared)))

power_sum : (m k j : ℕ) → j ≡ m + k → 2 ^ m * 2 ^ k ≡ 2 ^ j
power_sum m zero j e = let same : m ≡ j = omega arith in omega (arith, ap (λ (t : ℕ). 2 ^ t) same)
power_sum m (suc k) zero e = absurd (omega arith)
power_sum m (suc k) (suc j) e =
    grind (arith, pow-suc 2 k, pow-suc 2 j, power_sum m k j (omega arith))

less_one : (x p : ℕ) → 1 ≤ p → x * p ≡ 2 ^ 64 → (x - 1) * p ≡ 2 ^ 64 - 1 - (p - 1)
less_one zero p q e = omega arith
less_one (suc x) p q e = grind arith

-- With `a` a power of two up to 2^64, and a result that fits 64 bits, `align_up` is the least
-- multiple of `a` that is not below `n`.
pub align_up-RoundsUp :
    (k m n : ℕ) → k + m ≡ 64 → n + 2 ^ k ≤ 2 ^ 64 → RoundsUp (2 ^ k) n (align_up n (2 ^ k))
unfolding align_up
align_up-RoundsUp k m n e h =
    let whole : 2 ^ m * 2 ^ k ≡ 2 ^ 64 = power_sum m k 64 (omega arith) in
    let pos : 1 ≤ 2 ^ k = one-le-pow k 2 (omega arith) in
    let mask : (2 ^ m - 1) * 2 ^ k ≡ 2 ^ 64 - 1 - (2 ^ k - 1) =
      less_one (2 ^ m) (2 ^ k) pos whole in
    subst (λ t. RoundsUp (2 ^ k) n (bit_and (n + 2 ^ k - 1) t)) mask (masked_up k m n (omega arith))

pub align8-RoundsUp : (n : ℕ) → n + 8 ≤ 2 ^ 64 → RoundsUp 8 n (align8 n)
unfolding align8
align8-RoundsUp n h =
    let same : n + 8 - 1 ≡ n + 7 = omega arith in
    subst (λ t. RoundsUp 8 n (bit_and t (2 ^ 64 - 1 - 7))) same (masked_up 3 61 n h)

-- Padding adds less than eight bytes and ends at a multiple of eight, where the length plus 8 fits
-- 64 bits.
pub pad8-RoundsUp :
    (b : Buf) → length b.bytes + 8 ≤ 2 ^ 64 → RoundsUp 8 (length b.bytes) (length (pad8 b).bytes)
unfolding pad8
pad8-RoundsUp b h =
    let r = align8-RoundsUp (length b.bytes) h in
    subst (RoundsUp 8 (length b.bytes))
      (omega (
        arith,
        length-append b.bytes (replicate (align8 (length b.bytes) - length b.bytes) 0),
        length-replicate {A = ℕ} (align8 (length b.bytes) - length b.bytes) 0,
        r.0,
      ))
      r
