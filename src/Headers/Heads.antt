-- ===== src/Headers/Heads.antt =====
-- What stands before the messages of a header, and before each of them.
use hdf5_rs.Prelude.{ℕ, ◌^◌, [], ◌∷◌, Bool, false, not, ◌==◌, bit_and, if◌then◌else◌}
use hdf5_rs.Arena.{same}
use hdf5_rs.Buffer.{take_bytes, read_u8, read_u16, read_u32, read_uint}
use hdf5_rs.Buffer.Parser.{Parser, ◌>>=◌, pure, fail, pass}

pub record Head : Type 0 where
  pub mtype : ℕ
  pub msize : ℕ
  pub mflags : ℕ

abbrev pub head_of : ℕ → ℕ → ℕ → Head
head_of mtype msize mflags = record { mtype = mtype; msize = msize; mflags = mflags }

unfoldable pub read_head_v1 : Parser Head
unfolding read_u8 read_u16
read_head_v1 = do
  mtype ← read_u16
  msize ← read_u16
  mflags ← read_u8
  _ ← pass 3
  pure (head_of mtype msize mflags)

-- The order of creation
abbrev pub pass_order : Bool → Parser (Unit {0})
pass_order ordered = if ordered then (read_u16 >>= λ order. pure tt) else pure tt

unfoldable pub read_head_v2 : Bool → Parser Head
unfolding read_u8 read_u16
read_head_v2 ordered = do
  mtype ← read_u8
  msize ← read_u16
  mflags ← read_u8
  _ ← pass_order ordered
  pure (head_of mtype msize mflags)

-- What is known before the first message: how many there are in version 1, whether the order of
-- creation is tracked in version 2, and the size of the first block.
pub record Start : Type 0 where
  pub count : ℕ
  pub ordered : Bool
  pub size : ℕ

abbrev pub start_v1 : ℕ → ℕ → Start
start_v1 count size = record { count = count; ordered = false; size = size }

unfoldable pub read_fields_v1 : Parser Start
unfolding read_u8 read_u16 read_u32
read_fields_v1 = do
  rsv ← read_u8
  num_msgs ← read_u16
  refcount ← read_u32
  hdr_size ← read_u32
  _ ← pass 4
  pure (start_v1 num_msgs hdr_size)

unfoldable pub read_start_v1 : Parser Start
unfolding read_u8 read_fields_v1
read_start_v1 = do
  version ← read_u8
  if version == 1 then read_fields_v1 else fail "unsupported object header version"

abbrev pub pass_times : ℕ → Parser (Unit {0})
pass_times bit =
    if bit == 0
    then pure tt
    else (read_u32 >>= λ access.
        read_u32 >>= λ modified. read_u32 >>= λ changed. read_u32 >>= λ birth. pure tt)

abbrev pub pass_phases : ℕ → Parser (Unit {0})
pass_phases bit =
    if bit == 0 then pure tt else (read_u16 >>= λ max_compact. read_u16 >>= λ min_dense. pure tt)

abbrev pub start_v2 : ℕ → ℕ → Start
start_v2 flags size = record { count = 0; ordered = not (bit_and flags 0x04 == 0); size = size }

unfoldable pub read_flags_v2 : ℕ → Parser Start
unfolding read_u16 read_u32 read_uint
read_flags_v2 flags = do
  _ ← pass_times (bit_and flags 0x20)
  _ ← pass_phases (bit_and flags 0x10)
  chunk0_size ← read_uint (2 ^ bit_and flags 0x03)
  pure (start_v2 flags chunk0_size)

unfoldable pub read_version_v2 : ℕ → Parser Start
unfolding read_u8 read_flags_v2
read_version_v2 version =
    if version == 2 then (read_u8 >>= read_flags_v2) else fail "unsupported OHDR version"

unfoldable pub read_start_v2 : Parser Start
unfolding take_bytes read_u8 read_version_v2 same
read_start_v2 = do
  sig ← take_bytes 4
  if same sig (b'O' ∷ b'H' ∷ b'D' ∷ b'R' ∷ [])
      then (read_u8 >>= read_version_v2)
      else fail "bad OHDR signature"
