-- ===== src/Filters/ScaleOffset.antt =====
-- The scale-offset filter: its decoder and, in a child, its encoder. Arithmetic on `f32` and `f64` is
-- the parameter `Floats`.
pub mod Encode
pub mod Safety
use hdf5_rs.Prelude.{
  ℕ, zero, suc, ◌+◌, ◌-◌, ◌*◌, ◌/◌, ◌%◌, ◌^◌, min, List, [], ◌∷◌, length, drop, replicate, get_or,
  leb, ltb, ◌==◌, if◌then◌else◌, Result, ok, err, ◌>>=◌, ◌>>◌, ensure, not, ◌&&◌, ◌||◌, Bool,
}
use hdf5_rs.Prelude.Bits.{◌>>>◌}
use hdf5_rs.Prelude.Loops.{for_each, for_down}
use hdf5_rs.Prelude.Bytes.{index, slice, write_at, to_le, from_le}
use hdf5_rs.Filters.BitStream.{Place}
use hdf5_rs.Filters.NBit.{Unpacking, unpack_into}

-- What the code asks of floating-point numbers, on their bit patterns: `raw / 10 ^ D + min` in the
-- width of the element, and the choice of minbits, minval and offsets for a chunk of floats.
pub record Floats : Type 0 where
  pub rescale : (size scale_factor raw minval : ℕ) → ℕ
  pub plan : (cdata cells : List ℕ) → Result (ℕ × ℕ × List ℕ)

-- The fill value, from the words behind the eight parameters.
unfoldable pub fill_bytes : ℕ → ℕ → List ℕ → List ℕ
fill_bytes zero i cdata = []
fill_bytes (suc n) i cdata =
    ((get_or cdata (8 + i / 4) 0 >>> (i % 4 * 8)) % 256) ∷ fill_bytes n (i + 1) cdata

-- The parameters that the decoder reads.
pub record Params : Type 0 where
  pub scale_type : ℕ
  pub scale_factor : ℕ
  pub nelmts : ℕ
  pub class : ℕ
  pub size : ℕ
  pub order : ℕ
  pub filavail : Bool

unfoldable pub read_params : List ℕ → Result Params
read_params cdata = do
  ensure (leb 8 (length cdata)) "scaleoffset: missing parameters"
  scale_type ← index cdata 0
  scale_factor ← index cdata 1
  nelmts ← index cdata 2
  class ← index cdata 3
  size ← index cdata 4
  order ← index cdata 6
  fill ← index cdata 7
  ok (record {
    scale_type = scale_type;
    scale_factor = scale_factor;
    nelmts = nelmts;
    class = class;
    size = size;
    order = order;
    filavail = fill == 1;
  })

-- The number of bits that byte `k` of an offset takes.
unfoldable pub offset_bits : ℕ → ℕ → ℕ → ℕ
offset_bits dtype_len minbits k =
    let begin_i = dtype_len / 8 - 1 - (dtype_len - minbits) / 8 in
    if k == begin_i then 8 - (dtype_len - minbits) % 8 else 8

unfoldable pub unpack_offsets : List ℕ → ℕ → ℕ → ℕ → Unpacking → Result Unpacking
unpack_offsets packed nelmts size minbits u =
    let begin_i = size - 1 - (size * 8 - minbits) / 8 in
    for_each nelmts 0
      (λ e.
        for_down (begin_i + 1) 0
          λ k. unpack_into packed (e * size + k) (offset_bits (size * 8) minbits k, 0))
      u

abbrev pub all_ones : ℕ → ℕ
all_ones minbits = if leb 64 minbits then 2 ^ 64 - 1 else 2 ^ minbits - 1

-- The value of a cell. `raw + minval` wraps around at 64 bits.
unfoldable pub restore : Floats → List ℕ → Params → ℕ → ℕ → ℕ → ℕ
restore floats cdata p minbits minval raw =
    if p.filavail && raw == all_ones minbits
    then from_le (fill_bytes p.size 0 cdata)
    else if p.class == 0
    then (raw + minval) % 2 ^ 64
    else floats.rescale p.size p.scale_factor raw minval

-- The loop over the cells, each read and written in place.
unfoldable pub restore_cells : (ℕ → ℕ) → ℕ → ℕ → List ℕ → Result (List ℕ)
restore_cells value nelmts size out =
    for_each nelmts 0
      (λ e out'. do
        cell ← slice out' (e * size) ((e + 1) * size)
        write_at out' (e * size) (to_le size (value (from_le cell))))
      out

-- The classes that the code knows: integers, and floats with the D-scale method.
unfoldable pub post_process : Floats → List ℕ → Params → ℕ → ℕ → List ℕ → Result (List ℕ)
post_process floats cdata p minbits minval out =
    let cells = restore_cells (restore floats cdata p minbits minval) p.nelmts p.size out in
    if p.class == 0
    then cells
    else if p.class == 1 && p.scale_type == 0
    then (if p.size == 4 || p.size == 8 || p.nelmts == 0
        then cells
        else err "scaleoffset: unsupported float size")
    else err "scaleoffset: unsupported scale type"

abbrev pub unpack_start : ℕ → Unpacking
unpack_start n = record { out = replicate n 0; place = record { j = 0; bits_to_fill = 8 } }

unfoldable pub scaleoffset_decompress : Floats → List ℕ → List ℕ → Result (List ℕ)
scaleoffset_decompress floats cdata input = do
  p ← read_params cdata
  ensure (p.order == 0) "scaleoffset: big-endian datasets are not supported"
  ensure (leb 1 p.size && leb p.size 8) "scaleoffset: bad element size"
  ensure (leb 21 (length input)) "scaleoffset: buffer too short"
  minbits_bytes ← slice input 0 4
  let minbits = from_le minbits_bytes
  size_byte ← index input 4
  minval_bytes ← slice input 5 (5 + min size_byte 8)
  let minval = from_le minval_bytes
  ensure (leb minbits (p.size * 8)) "scaleoffset: minbits exceeds type size"
  let zeros = unpack_start (p.nelmts * p.size)
  u ←
      (if minbits == 0
        then ok zeros
        else unpack_offsets (drop 21 input) p.nelmts p.size minbits zeros)
  post_process floats cdata p minbits minval u.out
