-- ===== src/Datatype.antt =====
-- hdf5-types/src/h5type.rs: the descriptors of types, without the half-precision float that only
-- the feature f16 has, and hdf5/src/format/convert.rs: their sizes on disk. A pointer has 8 bytes.
pub mod Names
pub mod Widths
pub mod Encode
pub mod Decode
pub mod RoundTrip
pub mod Safety
mod Runs
use hdf5_rs.Prelude.{
  ℕ, ◌*◌, ◌^◌, List, [], ◌∷◌, Bool, true, false, ◌||◌, ◌&&◌, ◌==◌, Option, none, some,
  if◌then◌else◌, ltb, Result, ok, ◌>>=◌, assert,
}
use hdf5_rs.Arena.{Text, same}

pub data IntSize : Type 0 where
  u1 : IntSize
  u2 : IntSize
  u4 : IntSize
  u8 : IntSize

abbrev pub int_bytes : IntSize → ℕ
int_bytes u1 = 1
int_bytes u2 = 2
int_bytes u4 = 4
int_bytes u8 = 8

-- `IntSize::from_int`
abbrev pub int_from : ℕ → Option IntSize
int_from size =
    if size == 1
    then some u1
    else (if size == 2
        then some u2
        else (if size == 4 then some u4 else (if size == 8 then some u8 else none)))

pub data FloatSize : Type 0 where
  single : FloatSize
  double : FloatSize

abbrev pub float_bytes : FloatSize → ℕ
float_bytes single = 4
float_bytes double = 8

-- `FloatSize::from_int`
abbrev pub float_from : ℕ → Option FloatSize
float_from size = if size == 4 then some single else (if size == 8 then some double else none)

pub record EnumMember : Type 0 where
  pub name : Text
  pub value : ℕ

pub record EnumType : Type 0 where
  pub size : IntSize
  pub signed : Bool
  pub members : List EnumMember

-- A compound type is its fields, each with a name, a type, an offset and an index, and its size.
mutual
  pub data TypeDescriptor : Type 0 where
    integer : IntSize → TypeDescriptor
    unsigned : IntSize → TypeDescriptor
    float : FloatSize → TypeDescriptor
    boolean : TypeDescriptor
    enumeration : EnumType → TypeDescriptor
    compound : Fields → ℕ → TypeDescriptor
    fixed_array : TypeDescriptor → ℕ → TypeDescriptor
    fixed_ascii : ℕ → TypeDescriptor
    fixed_unicode : ℕ → TypeDescriptor
    var_len_array : TypeDescriptor → TypeDescriptor
    var_len_ascii : TypeDescriptor
    var_len_unicode : TypeDescriptor

  pub data Fields : Type 0 where
    no_fields : Fields
    field : (name : Text) (ty : TypeDescriptor) (offset index : ℕ) (rest : Fields) → Fields

-- `TypeDescriptor::size`, in memory
unfoldable pub size_of : TypeDescriptor → ℕ
size_of (integer s) = int_bytes s
size_of (unsigned s) = int_bytes s
size_of (float s) = float_bytes s
size_of boolean = 1
size_of (enumeration e) = int_bytes e.size
size_of (compound fs size) = size
size_of (fixed_array ty n) = size_of ty * n
size_of (fixed_ascii n) = n
size_of (fixed_unicode n) = n
size_of (var_len_array ty) = 16
size_of var_len_ascii = 8
size_of var_len_unicode = 8

-- `disk_size`, where its products fit.
unfoldable pub disk_size : TypeDescriptor → ℕ
unfolding size_of
disk_size var_len_ascii = 16
disk_size var_len_unicode = 16
disk_size (var_len_array ty) = 16
disk_size (compound fs size) = size
disk_size (fixed_array ty n) = disk_size ty * n
disk_size (integer s) = size_of (integer s)
disk_size (unsigned s) = size_of (unsigned s)
disk_size (float s) = size_of (float s)
disk_size boolean = size_of boolean
disk_size (enumeration e) = size_of (enumeration e)
disk_size (fixed_ascii n) = size_of (fixed_ascii n)
disk_size (fixed_unicode n) = size_of (fixed_unicode n)

-- A product of `usize`, which panics when it does not fit.
abbrev pub checked : ℕ → Result ℕ
checked n = assert (ltb n (2 ^ 64)) >>= λ _. ok n

-- `disk_size` of a type that a file describes, whose products may not fit.
unfoldable pub checked_size : TypeDescriptor → Result ℕ
unfolding disk_size
checked_size (fixed_array ty n) = checked_size ty >>= λ size. checked (size * n)
checked_size var_len_ascii = ok (disk_size var_len_ascii)
checked_size var_len_unicode = ok (disk_size var_len_unicode)
checked_size (var_len_array ty) = ok (disk_size (var_len_array ty))
checked_size (compound fs size) = ok (disk_size (compound fs size))
checked_size (integer s) = ok (disk_size (integer s))
checked_size (unsigned s) = ok (disk_size (unsigned s))
checked_size (float s) = ok (disk_size (float s))
checked_size boolean = ok (disk_size boolean)
checked_size (enumeration e) = ok (disk_size (enumeration e))
checked_size (fixed_ascii n) = ok (disk_size (fixed_ascii n))
checked_size (fixed_unicode n) = ok (disk_size (fixed_unicode n))

abbrev pub text_false : Text
text_false = b'F' ∷ b'A' ∷ b'L' ∷ b'S' ∷ b'E' ∷ []

abbrev pub text_true : Text
text_true = b'T' ∷ b'R' ∷ b'U' ∷ b'E' ∷ []

abbrev pub is_member : Text → ℕ → EnumMember → Bool
is_member name value m = same m.name name && m.value == value

-- `e.members.len() == 2` and one of the two is FALSE, one TRUE.
abbrev pub two_bools : List EnumMember → Bool
two_bools [] = false
two_bools (m ∷ []) = false
two_bools (m ∷ (k ∷ [])) =
    (is_member text_false 0 m || is_member text_false 0 k)
    && (is_member text_true 1 m || is_member text_true 1 k)
two_bools (m ∷ (k ∷ (j ∷ js))) = false

abbrev pub is_u1 : IntSize → Bool
is_u1 u1 = true
is_u1 u2 = false
is_u1 u4 = false
is_u1 u8 = false

unfoldable pub is_bool_enum : EnumType → Bool
unfolding same
is_bool_enum e = is_u1 e.size && two_bools e.members
