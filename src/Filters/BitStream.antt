-- ===== src/Filters/BitStream.antt =====
-- `unpack_bits`: a few bits from a stream that is packed from the highest bit of each byte on.
pub mod Laws
use hdf5_rs.Prelude.{
  ℕ, ◌+◌, ◌-◌, ◌%◌, ◌^◌, bit_and, bit_or, List, length, leb, ltb, ◌==◌, if◌then◌else◌, Result, ok,
  err, ◌>>=◌, ◌>>◌, ensure, not,
}
use hdf5_rs.Prelude.Bits.{◌<<<◌, ◌>>>◌}
use hdf5_rs.Prelude.Bytes.{index}

-- `!(usize::MAX << k)`
abbrev pub low_ones : ℕ → ℕ
low_ones k = 2 ^ k - 1

-- `j`, the byte of the stream that is read, and how many of its bits are left.
pub record Place : Type 0 where
  pub j : ℕ
  pub bits_to_fill : ℕ

-- The bits that the next byte gives, after the rest of the byte before it.
unfoldable pub second_part : List ℕ → ℕ → ℕ → ℕ → ℕ → Result (ℕ × Place)
second_part packed j first bits_to_copy dat_offset = do
  ensure (ltb j (length packed)) "bit-packed stream too short"
  val ← index packed j
  let bits = bit_and (val >>> (8 - bits_to_copy)) (low_ones bits_to_copy) <<< dat_offset
  ok (bit_or first (bits % 256), record { j = j; bits_to_fill = 8 - bits_to_copy })

-- The new `*out_byte`, with the new place.
unfoldable pub unpack_bits : List ℕ → Place → ℕ → ℕ → Result (ℕ × Place)
unfolding second_part
unpack_bits packed p bits_to_copy dat_offset = do
  ensure (ltb p.j (length packed)) "bit-packed stream too short"
  val ← index packed p.j
  let fill = p.bits_to_fill
  let part = (bit_and val (low_ones fill) <<< (bits_to_copy - fill)) <<< dat_offset % 256
  if ltb bits_to_copy fill
      then ok (
        (bit_and (val >>> (fill - bits_to_copy)) (low_ones bits_to_copy) <<< dat_offset) % 256,
        record { j = p.j; bits_to_fill = fill - bits_to_copy },
      )
      else if bits_to_copy - fill == 0
      then ok (part, record { j = p.j + 1; bits_to_fill = 8 })
      else second_part packed (p.j + 1) part (bits_to_copy - fill) dat_offset
