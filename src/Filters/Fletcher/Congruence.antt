-- ===== src/Filters/Fletcher/Congruence.antt =====
-- The checksum against the plain sums, modulo 65535.
use hdf5_rs.Prelude.{
  ℕ, zero, suc, ◌+◌, ◌-◌, ◌*◌, ◌/◌, ◌%◌, ◌^◌, ◌<◌, ◌≤◌, ◌≡◌, refl, ap, ◌∙◌, min, bit_or, List, [],
  ◌∷◌, ◌++◌, append_assoc, length, get_or, All, ◌==◌, arith, inl, inr, Bool-cases, true, false,
}
use hdf5_rs.Prelude.{length-append, get_or-append_right}
use hdf5_rs.Prelude.Bits.{◌<<<◌, bit_or_disjoint}
use hdf5_rs.Prelude.Bytes.{IsByte}
use hdf5_rs.Filters.Fletcher.{
  Sums, add_word, fold_sum, fold_sums, words_loop, blocks_loop, add_odd_byte, fletcher32,
}
use hdf5_rs.Filters.Fletcher.Spec.{plain, word_sum, prefix_sum}
use hdf5_rs.Filters.Fletcher.Bounds.{
  bound1, bound2, bound2-suc, bound2-zero, bound2-lt, fold_sum_lem, word_lem,
}

-- The sums are those of the bytes that went before, up to multiples of 65535; `goal` says so by what
-- the plain sums come to in the end.
record Tracks (whole bytes : List ℕ) (s : Sums) : Type 0 where
  p1 : ℕ
  p2 : ℕ
  low : s.sum1 % 65535 ≡ p1 % 65535
  high : s.sum2 % 65535 ≡ p2 % 65535
  goal : plain bytes p1 p2 ≡ plain whole 0 0
  front : List ℕ
  joined : front ++ bytes ≡ whole
  valid : All IsByte bytes

-- One word, where nothing wraps.
add_word_lem :
    (w : ℕ) (s : Sums)
    → s.sum1 + w + s.sum2 < 2 ^ 32
    → add_word w s ≡ record { sum1 = s.sum1 + w; sum2 = s.sum2 + (s.sum1 + w) }
unfolding add_word
add_word_lem w s h = ground arith

add_word-Tracks :
    (a b : ℕ) (whole rest : List ℕ) (s : Sums)
    → s.sum1 + (a * 256 + b) + s.sum2 < 2 ^ 32
    → Tracks whole (a ∷ b ∷ rest) s
    → Tracks whole rest (add_word (bit_or (a <<< 8) b) s)
unfolding plain
add_word-Tracks a b whole rest s h t =
    rw (word_lem a b (t.valid.1.0), add_word_lem (a * 256 + b) s h)
      record {
        p1 = t.p1 + (a * 256 + b);
        p2 = t.p2 + (t.p1 + (a * 256 + b));
        low = omega (arith, t.low);
        high = omega (arith, t.low, t.high);
        goal = t.goal;
        front = t.front ++ (a ∷ b ∷ []);
        joined = append_assoc t.front (a ∷ b ∷ []) rest ∙ t.joined;
        valid = t.valid.1.1;
      }

-- After the words of a block up to the `d`-th, with `n` bytes left.
record Advanced (whole : List ℕ) (n d : ℕ) (s : Sums) (bytes : List ℕ) : Type 0 where
  tracks : Tracks whole bytes s
  within1 : s.sum1 ≤ bound1 d
  within2 : s.sum2 ≤ bound2 d
  left : length bytes ≡ n

words_loop-Advanced :
    (t d e n m : ℕ) (whole bytes : List ℕ) (s : Sums)
    → e ≡ t + d
    → e ≤ 360
    → n ≡ 2 * t + m
    → Advanced whole n d s bytes
    → Advanced whole m e (words_loop t bytes s).0 (words_loop t bytes s).1
unfolding words_loop
words_loop-Advanced zero d e n m whole bytes s he hd hn a =
    let same : e ≡ d = omega arith in let none_read : m ≡ n = omega arith in rw (same, none_read) a
words_loop-Advanced (suc t) d e n m whole [] s he hd hn a = absurd (omega (arith, a.left))
words_loop-Advanced (suc t) d e n m whole (x ∷ []) s he hd hn a = absurd (omega (arith, a.left))
words_loop-Advanced (suc t) d e n m whole (x ∷ y ∷ rest) s he hd hn a =
    words_loop-Advanced t (suc d) e (2 * t + m) m whole rest (add_word (bit_or (x <<< 8) y) s)
      (omega arith) hd refl step
  where
    bytes_valid : IsByte x × IsByte y
    bytes_valid = (a.tracks.valid.0, a.tracks.valid.1.0)

    small : s.sum1 + (x * 256 + y) + s.sum2 < 2 ^ 32
    small =
        omega
          (arith, a.within1, a.within2, bytes_valid, bound2-suc d, bound2-lt (suc d) (omega arith))

    step : Advanced whole (2 * t + m) (suc d) (add_word (bit_or (x <<< 8) y) s) rest
    step = record {
      tracks = add_word-Tracks x y whole rest s small a.tracks;
      within1 = rw (word_lem x y bytes_valid.1) (omega (arith, a.within1, bytes_valid, small));
      within2 =
          rw (word_lem x y bytes_valid.1)
            (omega (arith, a.within1, a.within2, bytes_valid, bound2-suc d, small));
      left = omega (arith, a.left);
    }

-- A folding keeps the residues, and brings the sums back to the bounds of a block's start.
fold_sums-Advanced :
    (d n : ℕ) (whole bytes : List ℕ) (s : Sums)
    → d ≤ 360
    → Advanced whole n d s bytes
    → Advanced whole n 0 (fold_sums s) bytes
unfolding fold_sums
fold_sums-Advanced d n whole bytes s h a =
    let f1 = fold_sum_lem s.sum1 (omega (arith, a.within1)) in
    let f2 = fold_sum_lem s.sum2 (omega (arith, a.within2, bound2-lt d h)) in
    record {
      tracks = record {
        p1 = a.tracks.p1;
        p2 = a.tracks.p2;
        low = omega (arith, f1, a.tracks.low);
        high = omega (arith, f2, a.tracks.high);
        goal = a.tracks.goal;
        front = a.tracks.front;
        joined = a.tracks.joined;
        valid = a.tracks.valid;
      };
      within1 = omega (arith, f1, a.within1);
      within2 = omega (arith, f2, bound2-zero, a.within2, bound2-lt d h);
      left = a.left;
    }

blocks_loop-Advanced :
    (fuel len n m : ℕ) (whole bytes : List ℕ) (s : Sums)
    → len ≤ fuel
    → n ≡ 2 * len + m
    → Advanced whole n 0 s bytes
    → (rest : List ℕ) × Advanced whole m 0 (blocks_loop fuel len bytes s) rest
unfolding blocks_loop
blocks_loop-Advanced zero len n m whole bytes s hf hn a =
    let e : m ≡ n = omega arith in (bytes, rw e a)
blocks_loop-Advanced (suc fuel) len n m whole bytes s hf hn a = elim (Bool-cases (len == 0)) [
  | inl done ↦ let e : m ≡ n = ground arith in rw done (bytes, rw e a)
  | inr more ↦ rw more (
      blocks_loop-Advanced fuel (len - min len 360) (2 * (len - min len 360) + m) m whole _ _
        (ground arith) refl
        (fold_sums-Advanced (min len 360 + 0) (2 * (len - min len 360) + m) whole _ _ (omega arith)
          (words_loop-Advanced (min len 360) 0 (min len 360 + 0) n (2 * (len - min len 360) + m)
            whole bytes s refl (omega arith) (omega arith) a)))
]

-- All bytes are in: the sums are those of the whole buffer, up to multiples of 65535.
record Settled (whole : List ℕ) (s : Sums) : Type 0 where
  low : s.sum1 % 65535 ≡ word_sum whole % 65535
  high : s.sum2 % 65535 ≡ prefix_sum whole % 65535
  within1 : s.sum1 ≤ 65896
  within2 : s.sum2 ≤ 131070

last_byte :
    (whole front : List ℕ) (x : ℕ)
    → front ++ (x ∷ []) ≡ whole
    → get_or whole (length whole - 1) 0 ≡ x
last_byte whole front x e = rw (← e) (
    get_or-append_right front (x ∷ []) 0 (length (front ++ (x ∷ [])) - 1) 0
      (omega (arith, length-append front (x ∷ []))))

odd_word :
    (whole front : List ℕ) (x : ℕ)
    → front ++ (x ∷ []) ≡ whole
    → get_or whole (length whole - 1) 0 <<< 8 ≡ x * 256
odd_word whole front x e = ap (λ k. k * 256) (last_byte whole front x e)

add_odd_byte-Settled :
    (whole rest : List ℕ) (s : Sums)
    → Advanced whole (length whole % 2) 0 s rest
    → Settled whole (add_odd_byte whole s)
unfolding add_odd_byte plain
add_odd_byte-Settled whole [] s a =
    let even : (length whole % 2 == 0) ≡ true = ground (arith, a.left) in
    let low_end : a.tracks.p1 ≡ word_sum whole = ap (λ p. p.0) a.tracks.goal in
    let high_end : a.tracks.p2 ≡ prefix_sum whole = ap (λ p. p.1) a.tracks.goal in
    rw even record {
      low = omega (arith, a.tracks.low, low_end);
      high = omega (arith, a.tracks.high, high_end);
      within1 = a.within1;
      within2 = omega (arith, a.within2, bound2-zero);
    }
add_odd_byte-Settled whole (x ∷ []) s a =
    let odd : (length whole % 2 == 0) ≡ false = ground (arith, a.left) in
    let w : ℕ = get_or whole (length whole - 1) 0 <<< 8 in
    let e : w ≡ x * 256 = odd_word whole a.tracks.front x a.tracks.joined in
    let small : x < 256 = a.tracks.valid.0 in
    let low_end : a.tracks.p1 + x * 256 ≡ word_sum whole = ap (λ p. p.0) a.tracks.goal in
    let high_end : a.tracks.p2 + (a.tracks.p1 + x * 256) ≡ prefix_sum whole =
      ap (λ p. p.1) a.tracks.goal in
    let f1 = fold_sum_lem ((s.sum1 + w) % 2 ^ 32) (omega arith) in
    let f2 = fold_sum_lem ((s.sum2 + (s.sum1 + w) % 2 ^ 32) % 2 ^ 32) (omega arith) in
    rw odd record {
      low = omega (arith, f1, e, a.within1, a.tracks.low, low_end);
      high =
          omega (
            arith, f2, e, a.within1, a.within2, bound2-zero, a.tracks.low, a.tracks.high, high_end,
          );
      within1 = omega (arith, f1, e, a.within1);
      within2 = omega (arith, f2, e, a.within1, a.within2, bound2-zero);
    }
add_odd_byte-Settled whole (x ∷ y ∷ r) s a = absurd (omega (arith, a.left))

summed-Settled :
    (whole : List ℕ)
    → All IsByte whole
    → Settled whole (
        add_odd_byte whole
          (blocks_loop (length whole / 2) (length whole / 2) whole (record { sum1 = 0; sum2 = 0 })))
summed-Settled whole valid =
    let (rest, a) =
      blocks_loop-Advanced (length whole / 2) (length whole / 2) (length whole) (length whole % 2)
        whole whole (record { sum1 = 0; sum2 = 0 }) (omega arith) (omega arith)
        record {
          tracks = record {
            p1 = 0;
            p2 = 0;
            low = refl;
            high = refl;
            goal = refl;
            front = [];
            joined = refl;
            valid = valid;
          };
          within1 = omega arith;
          within2 = omega (arith, bound2-zero);
          left = refl;
        } in
    add_odd_byte-Settled whole rest _ a

-- The last folding leaves 16 bits in each sum.
fold_sum_final : (s : ℕ) → s ≤ 131070 → fold_sum s < 65536
fold_sum_final s h = omega (arith, fold_sum_lem s (omega arith))

-- What the two halves put together say of the plain sums.
abbrev Agrees : List ℕ → ℕ → Type 0
Agrees bytes sum =
    (sum < 2 ^ 32)
    × (sum % 65536 % 65535 ≡ word_sum bytes % 65535)
    × (sum / 65536 % 65535 ≡ prefix_sum bytes % 65535)

join_halves :
    (bytes : List ℕ) (s : Sums)
    → Settled bytes s
    → Agrees bytes (bit_or ((fold_sum s.sum2 <<< 16) % 2 ^ 32) (fold_sum s.sum1))
join_halves bytes s d =
    let f1 = fold_sum_lem s.sum1 (omega (arith, d.within1)) in
    let f2 = fold_sum_lem s.sum2 (omega (arith, d.within2)) in
    let b1 = fold_sum_final s.sum1 (omega (arith, d.within1)) in
    let b2 = fold_sum_final s.sum2 d.within2 in
    let high : (fold_sum s.sum2 <<< 16) % 2 ^ 32 ≡ fold_sum s.sum2 <<< 16 = omega arith in
    rw (high, bit_or_disjoint 16 (fold_sum s.sum2) (fold_sum s.sum1) b1)
      (omega arith, omega (arith, d.low), omega (arith, d.high))

-- For every buffer of bytes no addition of `fletcher32` wraps around: the checksum is two 16-bit
-- halves, the low one congruent modulo 65535 to the plain sum of the big-endian words, the high one
-- to the plain sum of that sum's prefixes.
pub fletcher32_congruent :
    (bytes : List ℕ)
    → All IsByte bytes
    → (fletcher32 bytes < 2 ^ 32)
      × (fletcher32 bytes % 65536 % 65535 ≡ word_sum bytes % 65535)
      × (fletcher32 bytes / 65536 % 65535 ≡ prefix_sum bytes % 65535)
unfolding fletcher32
fletcher32_congruent bytes valid = join_halves bytes _ (summed-Settled bytes valid)
