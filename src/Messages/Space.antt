-- ===== src/Messages/Space.antt =====
-- The message of a dataspace: `encode_dataspace` and `parse_dataspace`.
use hdf5_rs.Prelude.{
  ℕ, ◌%◌, ◌^◌, List, map, length, drop, Bool, false, ◌==◌, bit_and, if◌then◌else◌, Option, none,
  some,
}
use hdf5_rs.Buffer.{Buf, u8, u64, zeros, read_u8, read_u64}
use hdf5_rs.Buffer.Parser.{Parser, ◌>>=◌, ◌>>◌, pure, fail, pass}
use hdf5_rs.Buffer.Writing.{◌then◌}
use hdf5_rs.Buffer.Series.{write_each, read_each}
use hdf5_rs.Messages.{undef, new_buf}

-- The dimensions, their limits, `is_scalar` and `is_null`
abbrev pub ParsedDataspace : Type 0
ParsedDataspace = List ℕ × List (Option ℕ) × Bool × Bool

abbrev pub limit_or_undef : Option ℕ → ℕ
limit_or_undef none = undef
limit_or_undef (some m) = m

abbrev pub write_limit : Option ℕ → Buf → Buf
write_limit m = u64 (limit_or_undef m)

-- A space with dimensions
unfoldable pub encode_simple : List ℕ → List (Option ℕ) → Buf → Buf
unfolding write_each
encode_simple dims maxdims =
    u8 1
    then u8 (length dims % 2 ^ 8)
    then u8 1
    then zeros 5
    then write_each u64 dims
    then write_each write_limit maxdims
    then write_each u64 (drop (length maxdims) dims)

unfoldable pub encode_dataspace : List ℕ → List (Option ℕ) → (is_scalar is_null : Bool) → List ℕ
unfolding encode_simple
encode_dataspace dims maxdims is_scalar is_null =
    if is_null
    then ((u8 2 then u8 0 then u8 0 then u8 2) new_buf).bytes
    else (if is_scalar
        then ((u8 1 then u8 0 then u8 0 then zeros 5) new_buf).bytes
        else (encode_simple dims maxdims new_buf).bytes)

abbrev pub limit_of : ℕ → Option ℕ
limit_of v = if v == undef then none else some v

unfoldable pub read_limit : Parser (Option ℕ)
unfolding read_u64
read_limit c = (read_u64 >>= λ v. pure (limit_of v)) c

-- The limits, which are the dimensions where none are given.
unfoldable pub parse_limits : ℕ → List ℕ → Parser (List (Option ℕ))
unfolding read_each read_limit
parse_limits flags dims =
    if bit_and flags 1 == 0
    then pure (map (λ d. some d) dims)
    else read_each read_limit (length dims)

-- From the dimensions on.
unfoldable pub parse_sizes : (rank flags : ℕ) → (is_scalar is_null : Bool) → Parser ParsedDataspace
unfolding read_each read_u64 parse_limits
parse_sizes rank flags is_scalar is_null = do
  dims ← read_each read_u64 rank
  maxdims ← parse_limits flags dims
  pure (dims, maxdims, is_scalar, is_null)

unfoldable pub parse_version : ℕ → Parser ParsedDataspace
unfolding read_u8 parse_sizes
parse_version version =
    if version == 1
    then (read_u8 >>= λ rank.
        read_u8 >>= λ flags. pass 5 >> parse_sizes rank flags (rank == 0) false)
    else (if version == 2
        then (read_u8 >>= λ rank. read_u8 >>= λ flags.
            read_u8 >>= λ space_type. parse_sizes rank flags (space_type == 0) (space_type == 2))
        else fail "unsupported dataspace version")

unfoldable pub parse_dataspace : Parser ParsedDataspace
unfolding read_u8 parse_version
parse_dataspace c = (read_u8 >>= parse_version) c
