-- ===== src/Messages/Pipeline.antt =====
-- The message of the filter pipeline: `encode_filter_pipeline` and `parse_filter_pipeline`.
use hdf5_rs.Prelude.{
  ℕ, ◌+◌, ◌%◌, ◌^◌, List, [], ◌∷◌, length, Bool, ◌&&◌, ◌||◌, not, ltb, leb, ◌==◌, if◌then◌else◌,
}
use hdf5_rs.Arena.{Text}
use hdf5_rs.Buffer.{Buf, u8, u16, u32, align8, take_bytes, read_u8, read_u16, read_u32}
use hdf5_rs.Buffer.Parser.{Parser, ◌>>=◌, ◌>>◌, pure, pass}
use hdf5_rs.Buffer.Writing.{◌then◌}
use hdf5_rs.Buffer.Series.{write_each, read_each}
use hdf5_rs.Datatype.Encode.{encode_name}
use hdf5_rs.Filters.Pipeline.{RawFilter}
use hdf5_rs.Messages.{new_buf, cstr}

-- A filter with the name that the pipeline itself has no use for.
pub record NamedFilter : Type 0 where
  pub filter : RawFilter
  pub name : Text

unfoldable pub name_len : Text → ℕ
unfolding align8
name_len [] = 0
name_len (c ∷ cs) = align8 (length (c ∷ cs) + 1)

-- The name, its zero and zeros up to `name_len`
unfoldable pub write_name : Text → Buf → Buf
unfolding encode_name
write_name [] b = b
write_name (c ∷ cs) b = encode_name (c ∷ cs) b

abbrev pub is_odd : ℕ → Bool
is_odd n = not (n % 2 == 0)

abbrev pub write_gap : ℕ → Buf → Buf
write_gap n b = if is_odd n then u32 0 b else b

unfoldable pub encode_filter : NamedFilter → Buf → Buf
unfolding name_len write_name write_each
encode_filter f =
    u16 f.filter.id
    then u16 (name_len f.name % 2 ^ 16)
    then u16 1
    then u16 (length f.filter.cdata % 2 ^ 16)
    then write_name f.name
    then write_each u32 f.filter.cdata
    then write_gap (length f.filter.cdata)

unfoldable pub encode_filter_pipeline : List NamedFilter → List ℕ
unfolding write_each encode_filter
encode_filter_pipeline filters =
    ((u8 1
        then u8 (length filters % 2 ^ 8)
        then u16 0
        then u32 0
        then write_each encode_filter filters)
      new_buf).bytes

unfoldable pub parse_name_len : (version id : ℕ) → Parser ℕ
unfolding read_u16
parse_name_len version id = if version == 1 || leb 256 id then read_u16 else pure 0

unfoldable pub parse_name : ℕ → Parser Text
unfolding take_bytes cstr
parse_name len = if ltb 0 len then (take_bytes len >>= λ raw. pure (cstr raw)) else pure []

abbrev pub pass_gap : (version n : ℕ) → Parser (Unit {0})
pass_gap version n = if version == 1 && is_odd n then pass 4 else pure tt

abbrev pub named_filter : ℕ → List ℕ → Text → NamedFilter
named_filter id cdata name = record { filter = record { id = id; cdata = cdata }; name = name }

unfoldable pub parse_filter : ℕ → Parser NamedFilter
unfolding read_u16 read_u32 parse_name_len parse_name read_each
parse_filter version = do
  id ← read_u16
  len ← parse_name_len version id
  flags ← read_u16
  nvals ← read_u16
  name ← parse_name len
  cdata ← read_each read_u32 nvals
  _ ← pass_gap version nvals
  pure (named_filter id cdata name)

abbrev pub pass_reserved : ℕ → Parser (Unit {0})
pass_reserved version = if version == 1 then (pass 2 >> pass 4) else pure tt

unfoldable pub parse_filters : (version nfilters : ℕ) → Parser (List NamedFilter)
unfolding parse_filter read_each
parse_filters version nfilters = pass_reserved version >> read_each (parse_filter version) nfilters

unfoldable pub parse_filter_pipeline : Parser (List NamedFilter)
unfolding read_u8 parse_filters
parse_filter_pipeline c =
    (read_u8 >>= λ version. read_u8 >>= λ nfilters. parse_filters version nfilters) c
