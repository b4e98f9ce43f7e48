-- ===== src/Datatype/Encode.antt =====
-- hdf5/src/format/datatype.rs: `encode` and its helpers, which append to a `Buf`.
use hdf5_rs.Prelude.{
  ℕ, suc, ◌*◌, ◌-◌, List, [], ◌∷◌, length, take, Bool, true, false, leb, bit_or, if◌then◌else◌,
}
use hdf5_rs.Prelude.Bits.{◌<<<◌}
use hdf5_rs.Prelude.Bytes.{to_le}
use hdf5_rs.Arena.{Text}
use hdf5_rs.Buffer.{Buf, raw, u8, u16, u32, zeros, align8}
use hdf5_rs.Buffer.Writing.{◌then◌}
use hdf5_rs.Datatype.{
  u1, int_bytes, FloatSize, single, double, float_bytes, EnumMember, EnumType, TypeDescriptor,
  Fields, integer, unsigned, float, boolean, enumeration, compound, fixed_array, fixed_ascii,
  fixed_unicode, var_len_array, var_len_ascii, var_len_unicode, no_fields, field, disk_size,
  text_false, text_true,
}

abbrev pub class_int : ℕ
class_int = 0

abbrev pub class_float : ℕ
class_float = 1

abbrev pub class_string : ℕ
class_string = 3

abbrev pub class_bitfield : ℕ
class_bitfield = 4

abbrev pub class_opaque : ℕ
class_opaque = 5

abbrev pub class_compound : ℕ
class_compound = 6

abbrev pub class_reference : ℕ
class_reference = 7

abbrev pub class_enum : ℕ
class_enum = 8

abbrev pub class_vlen : ℕ
class_vlen = 9

abbrev pub class_array : ℕ
class_array = 10

abbrev pub class_version_byte : ℕ → ℕ → ℕ
class_version_byte version class = bit_or (version <<< 4) class

unfoldable pub encode_int : ℕ → Bool → Buf → Buf
encode_int size signed =
    u8 (class_version_byte 1 class_int)
    then u8 (if signed then 0x08 else 0x00)
    then u8 0
    then u8 0
    then u32 size
    then u16 0
    then u16 (size * 8)

abbrev pub float_fields : FloatSize → ℕ × ℕ × ℕ × ℕ × ℕ × ℕ × ℕ
float_fields single = (32, 23, 8, 0, 23, 127, 31)
float_fields double = (64, 52, 11, 0, 52, 1023, 63)

unfoldable pub encode_float : FloatSize → Buf → Buf
encode_float size =
    let (precision, exp_loc, exp_size, mant_loc, mant_size, bias, sign_loc) = float_fields size in
    u8 (class_version_byte 1 class_float)
    then u8 0x20
    then u8 sign_loc
    then u8 0
    then u32 (float_bytes size)
    then u16 0
    then u16 precision
    then u8 exp_loc
    then u8 exp_size
    then u8 mant_loc
    then u8 mant_size
    then u32 bias

unfoldable pub encode_string : ℕ → Bool → Buf → Buf
encode_string n unicode =
    u8 (class_version_byte 1 class_string)
    then u8 (bit_or ((if unicode then 1 else 0) <<< 4) 0x01)
    then u8 0
    then u8 0
    then u32 n

-- A name with the byte that ends it, padded with zeros to a multiple of eight bytes.
abbrev pub padded_to : ℕ → Buf → Buf
padded_to start b = zeros (align8 (length b.bytes - start) - (length b.bytes - start)) b

unfoldable pub encode_name : Text → Buf → Buf
encode_name name b = padded_to (length b.bytes) (u8 0 (raw name b))

unfoldable pub encode_names : List EnumMember → Buf → Buf
unfolding encode_name
encode_names [] b = b
encode_names (m ∷ ms) b = encode_names ms (encode_name m.name b)

unfoldable pub encode_values : ℕ → List EnumMember → Buf → Buf
encode_values base_size [] b = b
encode_values base_size (m ∷ ms) b =
    encode_values base_size ms (raw (take base_size (to_le 8 m.value)) b)

unfoldable pub encode_enum : EnumType → Buf → Buf
unfolding encode_int encode_names encode_values
encode_enum e =
    u8 (class_version_byte 1 class_enum)
    then u16 (length e.members)
    then u8 0
    then u32 (int_bytes e.size)
    then encode_int (int_bytes e.size) e.signed
    then encode_names e.members
    then encode_values (int_bytes e.size) e.members

abbrev pub bool_enum : EnumType
bool_enum = record {
  size = u1;
  signed = true;
  members = record { name = text_false; value = 0 } ∷ (record { name = text_true; value = 1 } ∷ []);
}

unfoldable pub encode_bool : Buf → Buf
unfolding encode_enum
encode_bool = encode_enum bool_enum

abbrev pub count_fields : Fields → ℕ
count_fields no_fields = 0
count_fields (field name ty offset index rest) = suc (count_fields rest)

-- The member of a compound type, with the call that writes its type.
unfoldable pub encode_member : Text → ℕ → (Buf → Buf) → Buf → Buf
unfolding encode_name
encode_member name offset write_type =
    encode_name name then u32 offset then zeros 28 then write_type

-- `sort_by_key(|f| f.index)`, which is stable, on the writers of the members.
abbrev pub insert_by : ℕ × (Buf → Buf) → List (ℕ × (Buf → Buf)) → List (ℕ × (Buf → Buf))
insert_by w [] = w ∷ []
insert_by w (v ∷ vs) = if leb w.0 v.0 then w ∷ (v ∷ vs) else v ∷ insert_by w vs

unfoldable pub sort_by_index : List (ℕ × (Buf → Buf)) → List (ℕ × (Buf → Buf))
sort_by_index [] = []
sort_by_index (w ∷ ws) = insert_by w (sort_by_index ws)

abbrev pub run_all : List (ℕ × (Buf → Buf)) → Buf → Buf
run_all [] b = b
run_all (w ∷ ws) b = run_all ws (w.1 b)

unfoldable pub encode_vlen_string : Bool → Buf → Buf
unfolding encode_int
encode_vlen_string unicode =
    u8 (class_version_byte 1 class_vlen)
    then u8 0x01
    then u8 (if unicode then 0x01 else 0x00)
    then u8 0
    then u32 16
    then encode_int 1 false

-- What comes before the base type of an array.
unfoldable pub array_head : ℕ → ℕ → Buf → Buf
array_head size n =
    u8 (class_version_byte 2 class_array)
    then u8 0
    then u8 0
    then u8 0
    then u32 size
    then u8 1
    then u8 0
    then u8 0
    then u8 0
    then u32 n
    then u32 0

unfoldable pub vlen_head : Buf → Buf
vlen_head = u8 (class_version_byte 1 class_vlen) then u8 0x00 then u8 0 then u8 0 then u32 16

unfoldable pub compound_head : ℕ → ℕ → Buf → Buf
compound_head count size =
    u8 (class_version_byte 1 class_compound) then u16 count then u8 0 then u32 size

-- `encode_into`, with `encode_compound`, `encode_array` and `encode_vlen_seq`, and the writers of
-- the members of a compound type with their indices.
unfoldable mutual
  unfolding disk_size encode_int encode_float encode_bool encode_enum encode_string
      encode_vlen_string encode_member sort_by_index array_head vlen_head compound_head

  pub encode_into : TypeDescriptor → Buf → Buf
  encode_into (integer s) = encode_int (int_bytes s) true
  encode_into (unsigned s) = encode_int (int_bytes s) false
  encode_into (float s) = encode_float s
  encode_into boolean = encode_bool
  encode_into (enumeration e) = encode_enum e
  encode_into (compound fs size) =
      compound_head (count_fields fs) size then run_all (sort_by_index (member_writers fs))
  encode_into (fixed_array base n) = array_head (disk_size base * n) n then encode_into base
  encode_into (fixed_ascii n) = encode_string n false
  encode_into (fixed_unicode n) = encode_string n true
  encode_into var_len_ascii = encode_vlen_string false
  encode_into var_len_unicode = encode_vlen_string true
  encode_into (var_len_array base) = vlen_head then encode_into base

  pub member_writers : Fields → List (ℕ × (Buf → Buf))
  member_writers no_fields = []
  member_writers (field name ty offset index rest) =
      (index, encode_member name offset (encode_into ty)) ∷ member_writers rest

unfoldable pub encode : TypeDescriptor → List ℕ
unfolding encode_into
encode desc = (encode_into desc (record { bytes = [] })).bytes
