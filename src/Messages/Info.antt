-- ===== src/Messages/Info.antt =====
-- The small messages that `handle_message` of hdf5/src/format/reader.rs reads in place.
use hdf5_rs.Prelude.{ℕ, ◌+◌, length, ◌==◌, bit_and, if◌then◌else◌}
use hdf5_rs.Buffer.{read_u8, read_u32, read_u64}
use hdf5_rs.Buffer.Parser.{Parser, ◌>>=◌, ◌>>◌, pure, pass}
use hdf5_rs.Datatype.Decode.{Ordered, decode_ordered}

unfoldable pub two_addresses : Parser (ℕ × ℕ)
unfolding read_u64
two_addresses c = (read_u64 >>= λ a. read_u64 >>= λ b. pure (a, b)) c

-- Link Info and Attribute Info: the flags say that a number stands before the addresses.
unfoldable pub info_addresses : Parser ℕ → Parser (ℕ × ℕ)
unfolding read_u8 two_addresses
info_addresses number c =
    (read_u8 >>= λ version. read_u8 >>= λ flags.
    if bit_and flags 0x01 == 0 then two_addresses else (number >> two_addresses))
      c

unfoldable pub parse_mtime : ℕ → Parser ℕ
unfolding read_u8 read_u32
parse_mtime old c =
    (read_u8 >>= λ version. if version == 1 then (pass 3 >> read_u32) else pure old) c

unfoldable pub parse_shmesg : Parser (ℕ × ℕ)
unfolding read_u8 read_u64
parse_shmesg c =
    (read_u8 >>= λ version. read_u64 >>= λ addr. read_u8 >>= λ nindexes. pure (addr, nindexes)) c

-- `decode_ordered`, with enough fuel for the bytes of the body
unfoldable pub parse_dtype : Parser Ordered
unfolding decode_ordered
parse_dtype c = decode_ordered (length c.image + 1) c
