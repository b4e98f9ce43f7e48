-- ===== src/Virtual/Parse.antt =====
-- `parse_selection` and `parse_vds_blob`.
use hdf5_rs.Prelude.{
  ℕ, zero, suc, ◌+◌, ◌-◌, ◌^◌, min, List, [], ◌∷◌, ◌++◌, length, get_elem?, Bool, true, false, not,
  ltb, leb, ◌==◌, bit_and, if◌then◌else◌, Option, none, some, Result, ok, err, panic, out_of_fuel,
  String,
}
use hdf5_rs.Arena.{Text}
use hdf5_rs.Buffer.{Cursor, read_u8, read_u32, read_u64, read_uint}
use hdf5_rs.Buffer.Parser.{Parser, ◌>>=◌, ◌>>◌, pure, fail, pass}
use hdf5_rs.Datatype.Names.{lossy}
use hdf5_rs.Datatype.Decode.{read_chars, or_fail}
use hdf5_rs.Virtual.{
  Regular, SerSelection, all_selected, none_selected, regular, blocks, points, VdsMapping,
}

-- So many numbers of the same width.
unfoldable pub read_coords : (width n : ℕ) → Parser (List ℕ)
unfolding read_uint
read_coords width zero = pure []
read_coords width (suc n) = do c ← read_uint width; rest ← read_coords width n; pure (c ∷ rest)

unfoldable pub read_points : (width rank n : ℕ) → Parser (List (List ℕ))
unfolding read_coords
read_points width rank zero = pure []
read_points width rank (suc n) = do
  p ← read_coords width rank
  rest ← read_points width rank n
  pure (p ∷ rest)

unfoldable pub read_blocks : (width rank n : ℕ) → Parser (List (List ℕ × List ℕ))
unfolding read_coords
read_blocks width rank zero = pure []
read_blocks width rank (suc n) = do
  start ← read_coords width rank
  end ← read_coords width rank
  rest ← read_blocks width rank n
  pure ((start, end) ∷ rest)

-- The number that stands for no limit
abbrev pub unlimited_of : ℕ → ℕ
unlimited_of width =
    if width == 2 then 2 ^ 16 - 1 else (if width == 4 then 2 ^ 32 - 1 else 2 ^ 64 - 1)

abbrev pub limited : ℕ → ℕ → Option ℕ
limited unlimited count = if count == unlimited then none else some count

unfoldable pub read_axis : (width unlimited : ℕ) → Parser Regular
unfolding read_uint
read_axis width unlimited = do
  start ← read_uint width
  stride ← read_uint width
  count ← read_uint width
  block ← read_uint width
  pure (record {
    start = start;
    stride = stride;
    count = limited unlimited count;
    block = if block == unlimited then 2 ^ 64 - 1 else block;
  })

unfoldable pub read_axes : (width unlimited n : ℕ) → Parser (List Regular)
unfolding read_axis
read_axes width unlimited zero = pure []
read_axes width unlimited (suc n) = do
  a ← read_axis width unlimited
  rest ← read_axes width unlimited n
  pure (a ∷ rest)

unfoldable pub parse_whole : SerSelection → Parser SerSelection
unfolding read_u32
parse_whole sel = do version ← read_u32; _ ← pass 8; pure sel

-- The width of the numbers of a list of points
unfoldable pub points_width : ℕ → Parser ℕ
unfolding read_u8
points_width version = if leb 2 version then read_u8 else (pass 8 >> pure 4)

unfoldable pub parse_points : Parser SerSelection
unfolding read_u32 points_width read_uint read_points
parse_points = do
  version ← read_u32
  enc_size ← points_width version
  rank ← read_u32
  npoints ← read_uint enc_size
  ps ← read_points enc_size rank npoints
  pure (points ps)

-- The flags and the width of the numbers of a hyperslab
unfoldable pub slab_header : ℕ → Parser (ℕ × ℕ)
unfolding read_u8
slab_header version =
    if version == 1
    then (pass 8 >> pure (0, 4))
    else (if version == 2
        then (read_u8 >>= λ f. pass 4 >> pure (f, 8))
        else (if version == 3
            then (read_u8 >>= λ f. read_u8 >>= λ s. pure (f, s))
            else fail "unsupported hyperslab selection version"))

unfoldable pub parse_slab : Bool → (width rank : ℕ) → Parser SerSelection
unfolding read_axes read_uint read_blocks
parse_slab true width rank = do sel ← read_axes width (unlimited_of width) rank; pure (regular sel)
parse_slab false width rank = do
  nblocks ← read_uint (min width 8)
  bs ← read_blocks width rank nblocks
  pure (blocks bs)

abbrev pub is_regular : ℕ → ℕ → Bool
is_regular version flags = if leb 2 version then not (bit_and flags 0x01 == 0) else false

unfoldable pub parse_slabs : Parser SerSelection
unfolding read_u32 slab_header parse_slab
parse_slabs = do
  version ← read_u32
  header ← slab_header version
  rank ← read_u32
  parse_slab (is_regular version header.0) header.1 rank

-- `match sel_type`
unfoldable pub parse_by_type : ℕ → Parser SerSelection
unfolding parse_whole parse_points parse_slabs
parse_by_type sel_type =
    if sel_type == 0
    then parse_whole none_selected
    else (if sel_type == 3
        then parse_whole all_selected
        else (if sel_type == 1
            then parse_points
            else (if sel_type == 2 then parse_slabs else fail "unsupported selection type")))

unfoldable pub parse_selection : Parser SerSelection
unfolding read_u32 parse_by_type
parse_selection c = (read_u32 >>= λ sel_type. parse_by_type sel_type) c

unfoldable pub read_cstr : Parser Text
unfolding read_chars lossy
read_cstr c = (read_chars (length c.image - c.pos + 1) >>= λ s. pure (lossy s)) c

abbrev pub has : ℕ → ℕ → Bool
has flags bit = not (bit_and flags bit == 0)

-- A name that an earlier entry has
unfoldable pub shared_name : String → (VdsMapping → Text) → List VdsMapping → Parser Text
unfolding read_u64
shared_name words name_of out = do
  origin ← read_u64
  entry ← or_fail words (get_elem? out origin)
  pure (name_of entry)

unfoldable pub parse_file : ℕ → List VdsMapping → Parser Text
unfolding shared_name read_cstr
parse_file flags out =
    if has flags 0x04
    then pure (b'.' ∷ [])
    else (if has flags 0x01
        then shared_name "bad shared source-file index" (λ m. m.source_file) out
        else read_cstr)

unfoldable pub parse_dset : ℕ → List VdsMapping → Parser Text
unfolding shared_name read_cstr
parse_dset flags out =
    if has flags 0x02
    then shared_name "bad shared source-dataset index" (λ m. m.source_dset) out
    else read_cstr

unfoldable pub parse_flags : ℕ → Parser ℕ
unfolding read_u8
parse_flags version = if leb 1 version then read_u8 else pure 0

unfoldable pub parse_entry : ℕ → List VdsMapping → Parser VdsMapping
unfolding parse_flags parse_file parse_dset parse_selection
parse_entry version out = do
  flags ← parse_flags version
  source_file ← parse_file flags out
  source_dset ← parse_dset flags out
  src_sel ← parse_selection
  virt_sel ← parse_selection
  pure (record {
    source_file = source_file;
    source_dset = source_dset;
    src_sel = src_sel;
    virt_sel = virt_sel;
  })

-- `for i in 0..nentries`
unfoldable pub parse_entries : ℕ → ℕ → List VdsMapping → Parser (List VdsMapping)
unfolding parse_entry
parse_entries version zero out = pure out
parse_entries version (suc n) out = do
  m ← parse_entry version out
  parse_entries version n (out ++ (m ∷ []))

unfoldable pub parse_all : ℕ → Parser (List VdsMapping)
unfolding read_u64 parse_entries
parse_all version =
    if ltb 1 version
    then fail "unsupported VDS heap encoding version"
    else (read_u64 >>= λ n. parse_entries version n [])

-- The cursor is dropped at the end.
abbrev pub value_of : {A : Type 0} → Result (A × Cursor) → Result A
value_of panic = panic
value_of out_of_fuel = out_of_fuel
value_of (err words) = err words
value_of (ok r) = ok r.0

unfoldable pub parse_vds_blob : List ℕ → Result (List VdsMapping)
unfolding read_u8 parse_all
parse_vds_blob blob = value_of ((read_u8 >>= parse_all) (record { image = blob; pos = 0 }))
