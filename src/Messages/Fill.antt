-- ===== src/Messages/Fill.antt =====
-- The message of a fill value: `encode_fill`, and how `handle_message` reads it.
use hdf5_rs.Prelude.{
  ℕ, ◌%◌, ◌^◌, List, [], ◌∷◌, length, ltb, leb, ◌==◌, not, ◌||◌, bit_and, if◌then◌else◌,
}
use hdf5_rs.Buffer.{Buf, raw, u8, u32, take_bytes, read_u8, read_u32}
use hdf5_rs.Buffer.Parser.{Parser, ◌>>=◌, pure}
use hdf5_rs.Buffer.Writing.{◌then◌}
use hdf5_rs.Messages.{new_buf}

pub data FillValue : Type 0 where
  undefined : FillValue
  default_fill : FillValue
  user_defined : List ℕ → FillValue

unfoldable pub write_fill : FillValue → Buf → Buf
write_fill undefined = u8 0
write_fill default_fill = u8 1 then u32 0
write_fill (user_defined v) = u8 1 then u32 (length v % 2 ^ 32) then raw v

unfoldable pub encode_fill : FillValue → List ℕ
unfolding write_fill
encode_fill fill = ((u8 2 then u8 2 then u8 0 then write_fill fill) new_buf).bytes

-- `fill` is the value that the header has so far: where the message names none, it stays.
unfoldable pub parse_fill_old : FillValue → Parser FillValue
unfolding take_bytes read_u32
parse_fill_old fill = do
  size ← read_u32
  if ltb 0 size then (take_bytes size >>= λ v. pure (user_defined v)) else pure fill

unfoldable pub parse_sized : (defined : ℕ) → FillValue → Parser FillValue
unfolding take_bytes read_u32
parse_sized defined fill = do
  size ← read_u32
  if ltb 0 size
      then (take_bytes size >>= λ v. pure (user_defined v))
      else pure (if defined == 0 then fill else default_fill)

unfoldable pub parse_fill_2 : (version : ℕ) → FillValue → Parser FillValue
unfolding read_u8 parse_sized
parse_fill_2 version fill = do
  alloc_time ← read_u8
  fill_time ← read_u8
  defined ← read_u8
  if ltb version 2 || not (defined == 0) then parse_sized defined fill else pure fill

abbrev pub user_or_default : List ℕ → FillValue
user_or_default [] = default_fill
user_or_default (b ∷ bs) = user_defined (b ∷ bs)

unfoldable pub parse_fill_3 : FillValue → Parser FillValue
unfolding read_u8 read_u32 take_bytes
parse_fill_3 fill = do
  flags ← read_u8
  if bit_and flags 0x20 == 0
      then pure fill
      else (read_u32 >>= λ size. take_bytes size >>= λ v. pure (user_or_default v))

unfoldable pub parse_fill : FillValue → Parser FillValue
unfolding read_u8 parse_fill_2 parse_fill_3
parse_fill fill = do
  version ← read_u8
  if leb version 2 then parse_fill_2 version fill else parse_fill_3 fill
