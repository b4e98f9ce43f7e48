-- ===== src/Filters/Fletcher/Bounds.antt =====
-- Between two foldings the sums stay below 2 ^ 32: this is what the block of 360 words is for.
use hdf5_rs.Prelude.{
  ℕ, zero, suc, ◌+◌, ◌-◌, ◌*◌, ◌/◌, ◌%◌, ◌^◌, ◌<◌, ◌≤◌, ◌≡◌, refl, subst, arith, bit_or,
}
use hdf5_rs.Prelude.Bits.{◌<<<◌, bit_or_disjoint, bit_and_low}
use hdf5_rs.Filters.Fletcher.{fold_sum}
use hdf5_rs.Prelude.Bytes.{IsByte}

-- Bounds on the sums after `k` words of a block.
abbrev pub bound1 : ℕ → ℕ
bound1 k = 65896 + k * 65535

pub bound2 : ℕ → ℕ
bound2 zero = 131070
bound2 (suc k) = bound2 k + bound1 (suc k)

pub bound2-suc : (k : ℕ) → bound2 (suc k) ≡ bound2 k + bound1 (suc k)
unfolding bound2
bound2-suc k = refl

pub bound2-zero : bound2 0 ≡ 131070
unfolding bound2
bound2-zero = refl

bound2_mono : (d k : ℕ) → bound2 k ≤ bound2 (d + k)
unfolding bound2
bound2_mono zero k = let e : 0 + k ≡ k = omega arith in rw e (omega arith)
bound2_mono (suc d) k =
    let e : suc d + k ≡ suc (d + k) = omega arith in rw e (omega (arith, bound2_mono d k))

bound2_block : bound2 360 < 2 ^ 32
unfolding bound2
bound2_block = omega arith

pub bound2-lt : (k : ℕ) → k ≤ 360 → bound2 k < 2 ^ 32
bound2-lt k h =
    let e : 360 - k + k ≡ 360 = omega arith in
    omega (arith, bound2_block, subst (λ j. bound2 k ≤ bound2 j) e (bound2_mono (360 - k) k))

pub fold_sum_lem : (s : ℕ) → s < 2 ^ 32 → fold_sum s ≡ s % 65536 + s / 65536
unfolding fold_sum
fold_sum_lem s h = omega (arith, bit_and_low 16 s)

pub word_lem : (a b : ℕ) → IsByte b → bit_or (a <<< 8) b ≡ a * 256 + b
word_lem a b h = bit_or_disjoint 8 a b h
