-- ===== src/Filters/NBit.antt =====
-- `nbit_decompress`: atomic little-endian elements, cut to their significant bits.
pub mod Safety
use hdf5_rs.Prelude.{
  ℕ, ◌+◌, ◌-◌, ◌*◌, ◌/◌, ◌%◌, ◌^◌, List, length, replicate, leb, ltb, ◌==◌, if◌then◌else◌, Result,
  ok, ◌>>=◌, ◌>>◌, ensure, assert, not, ◌&&◌, ◌||◌,
}
use hdf5_rs.Prelude.Loops.{for_each, for_down}
use hdf5_rs.Prelude.Bytes.{index, put}
use hdf5_rs.Filters.BitStream.{Place, unpack_bits}

-- How many bits byte `k` of an element holds, and from which bit on.
unfoldable pub byte_bits : ℕ → ℕ → ℕ → ℕ → ℕ → ℕ → ℕ × ℕ
byte_bits datatype_len precision offset begin_i end_i k =
    if not (begin_i == end_i)
    then if k == begin_i
      then (8 - (datatype_len - precision - offset) % 8, 0)
      else if k == end_i
      then (8 - offset % 8, 8 - (8 - offset % 8))
      else (8, 0)
    else (precision, offset % 8)

-- The output and the place in the stream.
pub record Unpacking : Type 0 where
  pub out : List ℕ
  pub place : Place

unfoldable pub unpack_into : List ℕ → ℕ → ℕ × ℕ → Unpacking → Result Unpacking
unpack_into packed at (bits, dat_offset) u = do
  (byte, place') ← unpack_bits packed u.place bits dat_offset
  out' ← put u.out at byte
  ok (record { out = out'; place = place' })

unfoldable pub begin_index : ℕ → ℕ → ℕ
begin_index precision offset =
    if not ((precision + offset) % 8 == 0)
    then (precision + offset) / 8
    else (precision + offset) / 8 - 1

-- The two loops, with `begin_i` and `end_i` at hand.
unfoldable pub decode_elements : List ℕ → ℕ → ℕ → ℕ → ℕ → Unpacking → Result Unpacking
decode_elements packed nelmts size precision offset =
    let begin_i = begin_index precision offset in
    let end_i = offset / 8 in
    for_each nelmts 0 λ e.
      for_down (begin_i + 1 - end_i) end_i λ k.
        unpack_into packed (e * size + k) (byte_bits (size * 8) precision offset begin_i end_i k)

-- `vec![0u8; nelmts * size]` panics above the largest `isize`.
unfoldable pub decode_atomic : List ℕ → List ℕ → Result (List ℕ)
decode_atomic cdata packed = do
  ensure (leb 8 (length cdata)) "nbit: missing parameters"
  nelmts ← index cdata 2
  class ← index cdata 3
  ensure (class == 1) "nbit: only atomic datatypes are supported"
  size ← index cdata 4
  order ← index cdata 5
  precision ← index cdata 6
  offset ← index cdata 7
  ensure (order == 0) "nbit: big-endian datasets are not supported"
  ensure (not (ltb (size * 8) precision || ltb (size * 8) (precision + offset) || precision == 0))
      "nbit: bad precision/offset"
  assert (ltb (nelmts * size) (2 ^ 63))
  u ←
      decode_elements packed nelmts size precision offset
        (record { out = replicate (nelmts * size) 0; place = record { j = 0; bits_to_fill = 8 } })
  ok u.out

unfoldable pub nbit_decompress : List ℕ → List ℕ → Result (List ℕ)
nbit_decompress cdata packed = do
  ensure (leb 3 (length cdata)) "nbit: missing parameters"
  verbatim ← index cdata 1
  if not (verbatim == 0) then ok packed else decode_atomic cdata packed
