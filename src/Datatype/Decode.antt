-- ===== src/Datatype/Decode.antt =====
-- hdf5/src/format/datatype.rs: `decode_ordered`, which reads a descriptor and reports what is
-- stored with the high byte first. Its callers pass an order that is `None`; here it is a result.
-- The fuel bounds the nesting of types, which the source does not.
use hdf5_rs.Prelude.{
  ℕ, zero, suc, ◌+◌, ◌*◌, ◌-◌, List, [], ◌∷◌, ◌++◌, length, replicate, Bool, true, false, ◌&&◌, not,
  ltb, leb, ◌==◌, bit_and, if◌then◌else◌, Option, none, some, ok, out_of_fuel, String,
}
use hdf5_rs.Prelude.Bits.{◌>>>◌}
use hdf5_rs.Prelude.Bytes.{from_le}
use hdf5_rs.Arena.{Text}
use hdf5_rs.Buffer.{align8, take_bytes, read_u8, read_u16, read_u32, read_uint}
use hdf5_rs.Buffer.Parser.{Parser, ◌>>=◌, ◌>>◌, pure, fail, pass, lift}
use hdf5_rs.Datatype.{
  u1, int_bytes, int_from, float_from, EnumMember, EnumType, TypeDescriptor, Fields, integer,
  unsigned, float, boolean, enumeration, compound, fixed_array, fixed_ascii, fixed_unicode,
  var_len_array, var_len_ascii, var_len_unicode, no_fields, field, checked, checked_size,
  is_bool_enum,
}
use hdf5_rs.Datatype.Names.{lossy}
use hdf5_rs.Datatype.Widths.{bytes_for}
use hdf5_rs.Datatype.Encode.{
  class_int, class_float, class_string, class_bitfield, class_opaque, class_compound,
  class_reference, class_enum, class_vlen, class_array,
}

mutual
  pub data OrderTree : Type 0 where
    no_swap : OrderTree
    swap_leaf : ℕ → OrderTree
    swap_fields : Parts → OrderTree
    swap_array : (n stride : ℕ) → OrderTree → OrderTree
    swap_var_len : (base_stride : ℕ) → OrderTree → OrderTree

  pub data Parts : Type 0 where
    no_parts : Parts
    part : ℕ → OrderTree → Parts → Parts

abbrev pub order_is_none : OrderTree → Bool
order_is_none no_swap = true
order_is_none (swap_leaf n) = false
order_is_none (swap_fields ps) = false
order_is_none (swap_array n stride t) = false
order_is_none (swap_var_len stride t) = false

abbrev pub all_none : Parts → Bool
all_none no_parts = true
all_none (part offset t ps) = order_is_none t && all_none ps

-- `from_parts`
abbrev pub order_from_parts : Parts → OrderTree
order_from_parts ps = if all_none ps then no_swap else swap_fields ps

-- A descriptor and what is swapped in its values.
abbrev pub Ordered : Type 0
Ordered = TypeDescriptor × OrderTree

-- `loop { let byte = c.u8()?; if byte == 0 { break } name.push(byte) }`
unfoldable pub read_chars : ℕ → Parser Text
unfolding read_u8
read_chars zero c = out_of_fuel
read_chars (suc n) c =
    (read_u8 >>= λ byte.
    if byte == 0 then pure [] else (read_chars n >>= λ more. pure (byte ∷ more)))
      c

-- `if version < 3 { skip }`, from the start of the name
abbrev pub pass_padding : ℕ → ℕ → Parser (Unit {0})
pass_padding version start c =
    let consumed = c.pos - start in
    if ltb version 3 then pass (align8 consumed - consumed) c else ok (tt, c)

unfoldable pub read_name : ℕ → Parser Text
unfolding read_chars lossy
read_name version c =
    (read_chars (length c.image - c.pos + 1) >>= λ name.
    pass_padding version c.pos >> pure (lossy name))
      c

unfoldable pub read_names : ℕ → ℕ → Parser (List Text)
unfolding read_name
read_names version zero = pure []
read_names version (suc n) = do
  name ← read_name version
  names ← read_names version n
  pure (name ∷ names)

abbrev pub reverse_onto : List ℕ → List ℕ → List ℕ
reverse_onto [] out = out
reverse_onto (x ∷ xs) out = reverse_onto xs (x ∷ out)

-- Eight bytes, of which the first are those of the value with its low byte first.
abbrev pub value_bytes : Bool → ℕ → List ℕ → List ℕ
value_bytes swapped base_size bytes =
    (if swapped then reverse_onto bytes [] else bytes) ++ replicate (8 - base_size) 0

unfoldable pub read_members : Bool → ℕ → List Text → Parser (List EnumMember)
unfolding take_bytes
read_members swapped base_size [] = pure []
read_members swapped base_size (name ∷ names) = do
  bytes ← take_bytes base_size
  members ← read_members swapped base_size names
  pure (record { name = name; value = from_le (value_bytes swapped base_size bytes) } ∷ members)

-- `ok_or`
abbrev pub or_fail : {A : Type 0} → String → Option A → Parser A
or_fail words none = fail words
or_fail words (some a) = pure a

abbrev pub leaf_order : ℕ → ℕ → OrderTree
leaf_order flags size = if bit_and flags 0x01 == 0 then no_swap else swap_leaf size

unfoldable pub decode_int : ℕ → ℕ → Parser Ordered
unfolding read_u16
decode_int flags size = do
  bit_offset ← read_u16
  precision ← read_u16
  isize ← or_fail "invalid integer size" (int_from size)
  pure (if bit_and flags 0x08 == 0 then unsigned isize else integer isize, leaf_order flags size)

unfoldable pub decode_float : ℕ → ℕ → Parser Ordered
unfolding read_u8 read_u16 read_u32
decode_float flags size = do
  bit_offset ← read_u16
  precision ← read_u16
  exp_loc ← read_u8
  exp_size ← read_u8
  mant_loc ← read_u8
  mant_size ← read_u8
  bias ← read_u32
  fsize ← or_fail "unsupported float size" (float_from size)
  pure (float fsize, leaf_order flags size)

abbrev pub decode_string : ℕ → ℕ → Parser Ordered
decode_string flags size =
    let charset = bit_and (flags >>> 4) 0x0f in
    pure (if charset == 1 then fixed_unicode size else fixed_ascii size, no_swap)

-- The size and the sign of the base of an enumeration.
abbrev pub enum_base : TypeDescriptor → Option (ℕ × Bool)
enum_base (integer s) = some (int_bytes s, true)
enum_base (unsigned s) = some (int_bytes s, false)
enum_base (float s) = none
enum_base boolean = none
enum_base (enumeration e) = none
enum_base (compound fs size) = none
enum_base (fixed_array ty n) = none
enum_base (fixed_ascii n) = none
enum_base (fixed_unicode n) = none
enum_base (var_len_array ty) = none
enum_base var_len_ascii = none
enum_base var_len_unicode = none

unfoldable pub finish_enum : EnumType → TypeDescriptor
unfolding is_bool_enum
finish_enum e = if is_bool_enum e then boolean else enumeration e

unfoldable pub decode_enum : Parser Ordered → ℕ → ℕ → Parser Ordered
unfolding read_names read_members finish_enum
decode_enum decode_base version nmembers = do
  base ← decode_base
  shape ← or_fail "enum base must be integer" (enum_base base.0)
  names ← read_names version nmembers
  members ← read_members (not (order_is_none base.1)) shape.0 names
  isize ← or_fail "invalid enum base size" (int_from shape.0)
  pure (finish_enum (record { size = isize; signed = shape.1; members = members }), base.1)

-- The offset of a member: of as many bytes as the size of the whole needs, from version 3 on.
unfoldable pub read_offset : ℕ → ℕ → Parser ℕ
unfolding bytes_for read_uint read_u32
read_offset version size =
    if leb 3 version then (lift (bytes_for size) >>= λ n. read_uint n) else read_u32

unfoldable pub pass_baggage : ℕ → Parser (Unit {0})
pass_baggage version = if version == 1 then pass 28 else pure tt

abbrev pub Members : Type 0
Members = Fields × Parts

-- `for index in 0..nfields`
unfoldable pub decode_fields : Parser Ordered → (version size : ℕ) → (n index : ℕ) → Parser Members
unfolding read_name read_offset pass_baggage
decode_fields decode_type version size zero index = pure (no_fields, no_parts)
decode_fields decode_type version size (suc n) index = do
  name ← read_name version
  offset ← read_offset version size
  _ ← pass_baggage version
  ty ← decode_type
  rest ← decode_fields decode_type version size n (suc index)
  pure (field name ty.0 offset index rest.0, part offset ty.1 rest.1)

unfoldable pub decode_compound : Parser Ordered → (version nfields size : ℕ) → Parser Ordered
unfolding decode_fields
decode_compound decode_type version nfields size = do
  members ← decode_fields decode_type version size nfields 0
  pure (compound members.0 size, order_from_parts members.1)

-- The dimensions and `total`, which `total *= d` multiplies them into
unfoldable pub read_dims : (n total : ℕ) → Parser (List ℕ × ℕ)
unfolding read_u32
read_dims zero total = pure ([], total)
read_dims (suc n) total = do
  d ← read_u32
  next ← lift (checked (total * d))
  rest ← read_dims n next
  pure (d ∷ rest.0, rest.1)

-- The last dimension is the innermost array.
abbrev pub wrap_dims : List ℕ → TypeDescriptor → TypeDescriptor
wrap_dims [] desc = desc
wrap_dims (d ∷ ds) desc = fixed_array (wrap_dims ds desc) d

abbrev pub order_of_array : ℕ → ℕ → OrderTree → OrderTree
order_of_array total stride t = if order_is_none t then no_swap else swap_array total stride t

unfoldable pub pass_if_second : ℕ → ℕ → Parser (Unit {0})
pass_if_second version n = if version == 2 then pass n else pure tt

unfoldable pub decode_array : Parser Ordered → ℕ → Parser Ordered
unfolding read_u8 read_dims pass_if_second checked_size
decode_array decode_base version = do
  ndim ← read_u8
  _ ← pass_if_second version 3
  dims ← read_dims ndim 1
  _ ← pass_if_second version (4 * ndim)
  base ← decode_base
  stride ← lift (checked_size base.0)
  pure (wrap_dims dims.0 base.0, order_of_array dims.1 stride base.1)

unfoldable pub vlen_type_of : ℕ → ℕ → Ordered → Parser Ordered
unfolding checked_size
vlen_type_of vlen_type charset (base, t) =
    if vlen_type == 1
    then pure (if charset == 1 then var_len_unicode else var_len_ascii, no_swap)
    else (if order_is_none t
        then pure (var_len_array base, no_swap)
        else (lift (checked_size base) >>= λ stride.
            pure (var_len_array base, swap_var_len stride t)))

unfoldable pub decode_vlen : Parser Ordered → ℕ → ℕ → Parser Ordered
unfolding vlen_type_of
decode_vlen decode_base first second = do
  base ← decode_base
  vlen_type_of (bit_and first 0x0f) (bit_and second 0x0f) base

unfoldable pub decode_bitfield : ℕ → ℕ → Parser Ordered
unfolding read_u16
decode_bitfield flags size = do
  bit_offset ← read_u16
  precision ← read_u16
  isize ← or_fail "invalid bitfield size" (int_from size)
  pure (unsigned isize, leaf_order flags size)

abbrev pub byte_array : ℕ → Ordered
byte_array size = (fixed_array (unsigned u1) size, no_swap)

-- `match class`, on the class, the version, the three bytes of the bit field and the size
unfoldable pub decode_class : Parser Ordered → (class version b0 b1 b2 size : ℕ) → Parser Ordered
unfolding decode_int decode_float decode_enum decode_compound decode_array decode_vlen
    decode_bitfield
decode_class decode_type class version b0 b1 b2 size =
    if class == class_int
    then decode_int b0 size
    else (if class == class_float
        then decode_float b0 size
        else (if class == class_string
            then decode_string b0 size
            else (if class == class_enum
                then decode_enum decode_type version (from_le (b0 ∷ (b1 ∷ [])))
                else (if class == class_compound
                    then decode_compound decode_type version (from_le (b0 ∷ (b1 ∷ []))) size
                    else (if class == class_array
                        then decode_array decode_type version
                        else (if class == class_vlen
                            then decode_vlen decode_type b0 b1
                            else (if class == class_bitfield
                                then decode_bitfield b0 size
                                else (if class == class_opaque
                                    then (pass b0 >> pure (byte_array size))
                                    else (if class == class_reference
                                        then pure (byte_array size)
                                        else fail "unsupported datatype class")))))))))

unfoldable pub decode_ordered : ℕ → Parser Ordered
unfolding read_u8 read_u32 decode_class
decode_ordered zero c = out_of_fuel
decode_ordered (suc fuel) c =
    (read_u8 >>= λ vc. read_u8 >>= λ b0. read_u8 >>= λ b1. read_u8 >>= λ b2. read_u32 >>= λ size.
    decode_class (decode_ordered fuel) (bit_and vc 0x0f) (vc >>> 4) b0 b1 b2 size)
      c

-- A type that is nested in another stands at least eight bytes behind its start.
unfoldable pub decode : Parser TypeDescriptor
unfolding decode_ordered
decode c = (decode_ordered (length c.image + 1) >>= λ r. pure r.0) c
