-- ===== src/Filters/Fletcher.antt =====
-- `fletcher32`: two running sums of big-endian 16-bit words, folded after each 360 words.
-- A loop over `pos` is a recursion on the bytes from `pos` on.
pub mod Spec
pub mod Bounds
pub mod Congruence
use hdf5_rs.Prelude.{
  ℕ, zero, suc, ◌+◌, ◌-◌, ◌*◌, ◌/◌, ◌%◌, ◌^◌, min, bit_and, bit_or, List, [], ◌∷◌, length, get_or,
  ◌==◌, if◌then◌else◌,
}
use hdf5_rs.Prelude.Bits.{◌<<<◌, ◌>>>◌}

-- The two `u32` sums.
pub record Sums : Type 0 where
  pub sum1 : ℕ
  pub sum2 : ℕ

unfoldable pub add_word : ℕ → Sums → Sums
add_word word s =
    let sum1' = (s.sum1 + word) % 2 ^ 32 in
    record { sum1 = sum1'; sum2 = (s.sum2 + sum1') % 2 ^ 32 }

unfoldable pub fold_sum : ℕ → ℕ
fold_sum s = (bit_and s 0xffff + s >>> 16) % 2 ^ 32

unfoldable pub fold_sums : Sums → Sums
unfolding fold_sum
fold_sums s = record { sum1 = fold_sum s.sum1; sum2 = fold_sum s.sum2 }

-- `while tlen > 0`. The last clause is not reached: the caller has counted the words.
unfoldable pub words_loop : ℕ → List ℕ → Sums → Sums × List ℕ
unfolding add_word
words_loop zero bytes s = (s, bytes)
words_loop (suc tlen) (a ∷ b ∷ rest) s = words_loop tlen rest (add_word (bit_or (a <<< 8) b) s)
words_loop (suc tlen) short s = (s, short)

-- `while len > 0`, with the number of words as fuel: a round takes one at least.
unfoldable pub blocks_loop : ℕ → ℕ → List ℕ → Sums → Sums
unfolding words_loop fold_sums
blocks_loop zero len bytes s = s
blocks_loop (suc fuel) len bytes s =
    let tlen = min len 360 in
    let round = words_loop tlen bytes s in
    let more = blocks_loop fuel (len - tlen) round.1 (fold_sums round.0) in
    if len == 0 then s else more

unfoldable pub add_odd_byte : List ℕ → Sums → Sums
unfolding add_word fold_sums
add_odd_byte bytes s =
    if length bytes % 2 == 0
    then s
    else fold_sums (add_word (get_or bytes (length bytes - 1) 0 <<< 8) s)

unfoldable pub fletcher32 : List ℕ → ℕ
unfolding blocks_loop add_odd_byte fold_sums
fletcher32 bytes =
    let words = length bytes / 2 in
    let summed = blocks_loop words words bytes (record { sum1 = 0; sum2 = 0 }) in
    let s = fold_sums (add_odd_byte bytes summed) in bit_or ((s.sum2 <<< 16) % 2 ^ 32) s.sum1
