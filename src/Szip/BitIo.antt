-- ===== src/Szip/BitIo.antt =====
-- `BitReader` and `BitWriter`: streams of bits, the high bit of a byte first.
use hdf5_rs.Prelude.{
  ℕ, zero, suc, ◌+◌, ◌-◌, ◌*◌, ◌/◌, ◌%◌, ◌^◌, List, [], ◌∷◌, ◌++◌, length, get_or, ltb, leb, ◌==◌,
  bit_and, bit_or, if◌then◌else◌, Result, ok, err, out_of_fuel,
}
use hdf5_rs.Prelude.Bits.{◌<<<◌, ◌>>>◌}

-- The bit at a position.
abbrev pub bit_at : List ℕ → ℕ → ℕ
bit_at source place = bit_and (get_or source (place / 8) 0 >>> (7 - place % 8)) 1

-- `bits(n)`: the value and the new position.
unfoldable pub bits_from : List ℕ → ℕ → (v place : ℕ) → Result (ℕ × ℕ)
bits_from source zero v place = ok (v, place)
bits_from source (suc n) v place =
    let rest = bits_from source n (bit_or ((v <<< 1) % 2 ^ 64) (bit_at source place)) (place + 1) in
    if leb (length source) (place / 8) then err "szip: stream truncated" else rest

unfoldable pub bits : List ℕ → ℕ → ℕ → Result (ℕ × ℕ)
unfolding bits_from
bits source n place = bits_from source n 0 place

-- `fs`: the zeros before the next one. A round takes a bit of the stream.
unfoldable pub fs_from : ℕ → List ℕ → (n place : ℕ) → Result (ℕ × ℕ)
fs_from zero source n place = out_of_fuel
fs_from (suc fuel) source n place =
    let rest = fs_from fuel source (n + 1) (place + 1) in
    if leb (length source) (place / 8)
    then err "szip: stream truncated in FS"
    else (if bit_at source place == 1
        then ok (n, place + 1)
        else (if ltb (1 <<< 28) (n + 1) then err "szip: unterminated FS" else rest))

unfoldable pub fs : List ℕ → ℕ → Result (ℕ × ℕ)
unfolding fs_from
fs source place = fs_from (8 * length source - place + 1) source 0 place

pub record BitWriter : Type 0 where
  pub out : List ℕ
  pub cur : ℕ
  pub nbits : ℕ

abbrev pub new_writer : BitWriter
new_writer = record { out = []; cur = 0; nbits = 0 }

-- One bit: a full byte goes out.
unfoldable pub put_bit : ℕ → BitWriter → BitWriter
put_bit bit w =
    let cur = bit_or ((w.cur <<< 1) % 2 ^ 8) bit in
    if w.nbits + 1 == 8
    then record { out = w.out ++ (cur ∷ []); cur = 0; nbits = 0 }
    else record { out = w.out; cur = cur; nbits = w.nbits + 1 }

-- `for i in (0..n).rev()`
unfoldable pub put : ℕ → ℕ → BitWriter → BitWriter
unfolding put_bit
put v zero w = w
put v (suc i) w = put v i (put_bit (bit_and (v >>> i) 1) w)

unfoldable pub put_zeros : ℕ → BitWriter → BitWriter
unfolding put
put_zeros zero w = w
put_zeros (suc v) w = put_zeros v (put 0 1 w)

unfoldable pub put_fs : ℕ → BitWriter → BitWriter
unfolding put_zeros
put_fs v w = put 1 1 (put_zeros v w)

unfoldable pub finish : BitWriter → List ℕ
finish w = if ltb 0 w.nbits then w.out ++ (((w.cur <<< (8 - w.nbits)) % 2 ^ 8) ∷ []) else w.out
