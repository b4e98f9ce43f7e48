-- ===== src/Filters/ScaleOffset/Encode.antt =====
-- `scaleoffset_compress`. The integers of a chunk are kept as their distance from the smallest one.
use hdf5_rs.Prelude.{
  ℕ, zero, suc, ◌+◌, ◌-◌, ◌*◌, ◌/◌, ◌%◌, ◌^◌, min, max, bit_and, bit_or, List, [], ◌∷◌, ◌++◌, map,
  length, replicate, leb, ltb, ◌==◌, if◌then◌else◌, Result, ok, ◌>>=◌, ◌>>◌, ensure, ◌&&◌, ◌||◌,
  assert, Bool, Option, none, some,
}
use hdf5_rs.Prelude.Bits.{◌<<<◌, ◌>>>◌}
use hdf5_rs.Prelude.Loops.{for_each}
use hdf5_rs.Prelude.Bytes.{index, slice, to_le, from_le}
use hdf5_rs.Prelude.Int.{ℤ, pos, le_int, eq_int, distance, as_u64, signed}
use hdf5_rs.Filters.ScaleOffset.{Floats, fill_bytes, Params, read_params, offset_bits}

-- `64 - leading_zeros(n)`, by halving.
unfoldable pub bit_length : ℕ → ℕ → ℕ
bit_length zero n = 0
bit_length (suc fuel) n = let rest = bit_length fuel (n / 2) in if n == 0 then 0 else suc rest

unfoldable pub so_log2 : ℕ → ℕ
so_log2 num = if leb num 1 then 0 else bit_length 64 (num - 1)

-- `as_key`
unfoldable pub as_key : Bool → ℕ → ℕ → ℤ
as_key is_signed size raw = if is_signed then signed (size * 8) raw else pos raw

-- The least and the greatest key, of those that are not the fill value.
unfoldable pub key_range : (ℤ → Bool) → List ℤ → Option (ℤ × ℤ)
key_range is_fill [] = none
key_range is_fill (k ∷ ks) =
    let rest = key_range is_fill ks in
    if is_fill k then rest else elim rest [
      | none ↦ some (k, k)
      | some (lo, hi) ↦ some ((if le_int k lo then k else lo), (if le_int k hi then hi else k))
    ]

-- All keys the fill value, or no key: both ends are 0.
abbrev pub or_zero : Option (ℤ × ℤ) → ℤ × ℤ
or_zero none = (pos 0, pos 0)
or_zero (some r) = r

-- `minbits`, `minval` and the offsets. `span` and `span + 1` wrap around at 64 bits.
unfoldable pub integer_plan : Params → Bool → ℕ → List ℕ → ℕ × ℕ × List ℕ
integer_plan p is_signed filval cells =
    let key = as_key is_signed p.size in
    let is_fill = λ (k : ℤ). p.filavail && eq_int k (key filval) in
    let (lo, hi) = or_zero (key_range is_fill (map key cells)) in
    let span = (distance lo hi + 1) % 2 ^ 64 in
    let mb = if p.filavail then so_log2 ((span + 1) % 2 ^ 64) else so_log2 span in
    let minbits = min mb (p.size * 8) in
    (
      minbits,
      as_u64 lo,
      map
          (λ raw.
            if minbits == p.size * 8
            then raw
            else if is_fill (key raw)
            then 2 ^ minbits - 1
            else distance lo (key raw))
          cells,
    )

-- The byte that is being filled.
pub record Packing : Type 0 where
  pub out : List ℕ
  pub cur : ℕ
  pub bits_free : ℕ

-- The push at the end of each round, if the byte is full.
unfoldable pub flush : Packing → Packing
flush s =
    if s.bits_free == 0 then record { out = s.out ++ (s.cur ∷ []); cur = 0; bits_free = 8 } else s

-- `while n > 0`, with `n` as fuel: a round takes a bit at least.
unfoldable pub pack_bits : ℕ → ℕ → ℕ → Packing → Packing
unfolding flush
pack_bits zero n chunk s = s
pack_bits (suc fuel) n chunk s =
    let last = flush (record s {
      cur = bit_or s.cur ((chunk <<< (s.bits_free - n)) % 256);
      bits_free = s.bits_free - n;
    }) in
    let n' = n - s.bits_free in
    let more =
      pack_bits fuel n' (bit_and chunk (0xff >>> (8 - n')))
        (flush (record s { cur = bit_or s.cur (chunk >>> (n - s.bits_free)); bits_free = 0 })) in
    if n == 0 then s else if leb n s.bits_free then last else more

-- The bytes of one offset, from the highest that is used down.
unfoldable pub pack_offset : ℕ → ℕ → ℕ → ℕ → Packing → Packing
unfolding pack_bits
pack_offset zero size minbits v s = s
pack_offset (suc k) size minbits v s =
    let bits = offset_bits (size * 8) minbits k in
    let byte = (v >>> (8 * k)) % 256 in
    pack_offset k size minbits v (pack_bits bits bits (bit_and byte (0xff >>> (8 - bits))) s)

unfoldable pub pack_offsets : ℕ → ℕ → List ℕ → Packing → Packing
unfolding pack_offset
pack_offsets size minbits [] s = s
pack_offsets size minbits (v ∷ vs) s =
    pack_offsets size minbits vs
      (pack_offset (size - 1 - (size * 8 - minbits) / 8 + 1) size minbits v s)

-- The header of 21 bytes, the packed bits, and the padding that libhdf5 expects.
unfoldable pub encode_chunk : ℕ → ℕ → ℕ × ℕ × List ℕ → List ℕ
unfolding pack_offsets
encode_chunk nelmts size (minbits, minval, vals) =
    let header = to_le 4 minbits ++ (8 ∷ to_le 8 minval) ++ replicate 8 0 in
    let s = pack_offsets size minbits vals (record { out = header; cur = 0; bits_free = 8 }) in
    let packed =
      if ltb 0 minbits
      then (if ltb s.bits_free 8 then s.out ++ (s.cur ∷ []) else s.out)
      else header in
    let expect = 21 + nelmts * size * minbits / (size * 8) + 1 in
    packed ++ replicate (max expect (length packed) - length packed) 0

unfoldable pub read_cells : ℕ → ℕ → List ℕ → Result (List ℕ)
read_cells nelmts size bytes =
    for_each nelmts 0
      (λ i cells. do
        cell ← slice bytes (i * size) ((i + 1) * size)
        ok (cells ++ (from_le cell ∷ [])))
      []

-- An element size above 8 makes the code panic in the fill value's buffer of eight bytes, and a size
-- of 0 in the division for the padding.
unfoldable pub scaleoffset_compress : Floats → List ℕ → List ℕ → Result (List ℕ)
scaleoffset_compress floats cdata bytes = do
  p ← read_params cdata
  sign ← index cdata 5
  ensure (leb (p.nelmts * p.size) (length bytes)) "scaleoffset: short input"
  assert (leb p.size 8)
  cells ← read_cells p.nelmts p.size bytes
  let filval = from_le (fill_bytes p.size 0 cdata)
  ensure (p.class == 0 || p.class == 1 && p.scale_type == 0) "scaleoffset: unsupported scale type"
  chosen ←
      if p.class == 0 then ok (integer_plan p (sign == 1) filval cells) else floats.plan cdata cells
  assert (leb 1 p.size)
  ok (encode_chunk p.nelmts p.size chosen)
