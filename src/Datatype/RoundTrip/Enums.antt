-- ===== src/Datatype/RoundTrip/Enums.antt =====
-- Enumerations: what is written is read back.
use hdf5_rs.Prelude.{
  ℕ, zero, suc, ◌+◌, ◌-◌, ◌*◌, ◌/◌, ◌%◌, ◌^◌, ◌<◌, ◌≡◌, refl, sym, ap, subst, ◌∙◌, arith, List, [],
  ◌∷◌, ◌++◌, length, take, replicate, append-nil, All, Bool, true, false, if◌then◌else◌, some,
}
use native.Mathlib.Nat.{mod-eq_of_lt}
use hdf5_rs.Prelude.Bytes.{to_le, from_le, from_le-to_le, length-to_le}
use hdf5_rs.Arena.{Text}
use hdf5_rs.Buffer.{u8, u16, u32, take_bytes}
use hdf5_rs.Buffer.Parser.{Reads, >>=-Reads, pure-Reads, Reads-from, take-Reads}
use hdf5_rs.Buffer.Writing.{◌then◌, Writes, raw-Writes, then-Writes, skip-Writes}
use hdf5_rs.Datatype.{IntSize, u1, u2, u4, u8 as u8_size, int_bytes, int_from, EnumMember, EnumType}
use hdf5_rs.Datatype.Names.{IsText}
use hdf5_rs.Datatype.Encode.{encode_names, encode_values, encode_enum}
use hdf5_rs.Datatype.Decode.{
  no_swap, read_names, read_members, value_bytes, decode_enum, decode_class, decode_ordered,
  finish_enum, enum_base,
}
use hdf5_rs.Datatype.RoundTrip.Leaves.{
  head-Reads, or_fail-Reads, int_from-int_bytes, int_bytes-le, int_code, int_type,
  encode_int-Writes, decode-int_code,
}
use hdf5_rs.Datatype.RoundTrip.Names.{name_code, encode_name-Writes, read_name-Reads}

abbrev pub names_code : List EnumMember → List ℕ
names_code [] = []
names_code (m ∷ ms) = name_code m.name ++ names_code ms

pub encode_names-Writes : (ms : List EnumMember) → Writes (encode_names ms) (names_code ms)
unfolding encode_names
encode_names-Writes [] = skip-Writes
encode_names-Writes (m ∷ ms) = record {
  run = (then-Writes (encode_name-Writes m.name) (encode_names-Writes ms)).run;
}

abbrev pub names_of : List EnumMember → List Text
names_of [] = []
names_of (m ∷ ms) = m.name ∷ names_of ms

-- A name that is read as it is written, and a value of the width of the enumeration.
abbrev pub IsMember : ℕ → EnumMember → Type 0
IsMember size m = IsText m.name × (m.value < 256 ^ size)

pub read_names-Reads :
    (size : ℕ) (ms : List EnumMember)
    → All (IsMember size) ms
    → Reads (read_names 1 (length ms)) (names_code ms) (names_of ms)
unfolding read_names
read_names-Reads size [] h = pure-Reads []
read_names-Reads size (m ∷ ms) ((h, v), hs) = >>=-Reads _ (read_name-Reads m.name h) (
    Reads-from (append-nil (names_code ms))
      (>>=-Reads _ (read_names-Reads size ms hs) (pure-Reads (m.name ∷ names_of ms))))

abbrev pub values_code : ℕ → List EnumMember → List ℕ
values_code size [] = []
values_code size (m ∷ ms) = to_le size m.value ++ values_code size ms

from_le-zeros : (bs : List ℕ) (n : ℕ) → from_le (bs ++ replicate n 0) ≡ from_le bs
from_le-zeros [] zero = refl
from_le-zeros [] (suc n) = omega (arith, from_le-zeros [] n)
from_le-zeros (b ∷ bs) n = ap (λ t. b + 256 * t) (from_le-zeros bs n)

from_le-value_bytes :
    (size v : ℕ) → v < 256 ^ size → from_le (value_bytes false size (to_le size v)) ≡ v
from_le-value_bytes size v h =
    from_le-zeros (to_le size v) (8 - size) ∙ from_le-to_le size v ∙ mod-eq_of_lt h

-- The first bytes of the eight that a value has.
take-to_le : (s : IntSize) (v : ℕ) → take (int_bytes s) (to_le 8 v) ≡ to_le (int_bytes s) v
take-to_le u1 v = refl
take-to_le u2 v = refl
take-to_le u4 v = refl
take-to_le u8_size v = refl

pub encode_values-Writes :
    (s : IntSize) (ms : List EnumMember)
    → Writes (encode_values (int_bytes s) ms) (values_code (int_bytes s) ms)
unfolding encode_values
encode_values-Writes s [] = skip-Writes
encode_values-Writes s (m ∷ ms) = record {
  run =
      rw (take-to_le s m.value)
        (then-Writes (raw-Writes (to_le (int_bytes s) m.value)) (encode_values-Writes s ms)).run;
}

take_size : (size v : ℕ) → Reads (take_bytes size) (to_le size v) (to_le size v)
take_size size v =
    subst (λ n. Reads (take_bytes n) (to_le size v) (to_le size v)) (length-to_le size v)
      (take-Reads (to_le size v))

pub read_members-Reads :
    (size : ℕ) (ms : List EnumMember)
    → All (IsMember size) ms
    → Reads (read_members false size (names_of ms)) (values_code size ms) ms
unfolding read_members
read_members-Reads size [] h = pure-Reads []
read_members-Reads size (m ∷ ms) ((h, v), hs) = >>=-Reads _ (take_size size m.value) (
    Reads-from (append-nil (values_code size ms)) (
      >>=-Reads _ (read_members-Reads size ms hs)
        (rw (from_le-value_bytes size m.value v) (pure-Reads (m ∷ ms)))))

abbrev pub members_code : EnumType → List ℕ
members_code e =
    int_code (int_bytes e.size) e.signed
    ++ (names_code e.members ++ values_code (int_bytes e.size) e.members)

abbrev pub enum_code : EnumType → List ℕ
enum_code e =
    0x18
    ∷ (length e.members % 256
        ∷ (length e.members / 256 % 256 ∷ (0 ∷ (to_le 4 (int_bytes e.size) ++ members_code e))))

pub counted_head :
    (vc n size : ℕ)
    → Writes
        (u8 vc then u16 n then u8 0 then u32 size)
        (vc ∷ (n % 256 ∷ (n / 256 % 256 ∷ (0 ∷ to_le 4 size))))
counted_head vc n size =
    then-Writes (then-Writes (then-Writes (raw-Writes _) (raw-Writes _)) (raw-Writes _))
      (raw-Writes _)

pub encode_enum-Writes : (e : EnumType) → Writes (encode_enum e) (enum_code e)
unfolding encode_enum
encode_enum-Writes e =
    then-Writes
      (then-Writes
        (then-Writes (counted_head 0x18 (length e.members) (int_bytes e.size))
          (encode_int-Writes (int_bytes e.size) e.signed))
        (encode_names-Writes e.members))
      (encode_values-Writes e.size e.members)

-- An enumeration that can be written: at most so many members, each with a name and a value.
pub record IsEnum (e : EnumType) : Type 0 where
  pub few : length e.members < 2 ^ 16
  pub members : All (IsMember (int_bytes e.size)) e.members

enum_base-int_type :
    (s : IntSize) (signed : Bool) → enum_base (int_type signed s) ≡ some (int_bytes s, signed)
enum_base-int_type s true = refl
enum_base-int_type s false = refl

decode_enum-Reads :
    (fuel : ℕ) (e : EnumType)
    → IsEnum e
    → Reads
        (decode_enum (decode_ordered (suc fuel)) 1 (length e.members))
        (members_code e)
        (finish_enum e, no_swap)
unfolding decode_enum
decode_enum-Reads fuel e h = >>=-Reads _ (decode-int_code fuel e.size e.signed) (
    >>=-Reads _
      (or_fail-Reads "enum base must be integer" (enum_base (int_type e.signed e.size)) _
        (enum_base-int_type e.size e.signed))
      (>>=-Reads _ (read_names-Reads (int_bytes e.size) e.members h.members) (
        Reads-from (append-nil (values_code (int_bytes e.size) e.members)) (
          >>=-Reads _ (read_members-Reads (int_bytes e.size) e.members h.members) (
            >>=-Reads _
              (or_fail-Reads "invalid enum base size" (int_from (int_bytes e.size)) e.size
                (int_from-int_bytes e.size))
              (pure-Reads (finish_enum e, no_swap)))))))

pub decode-enum_code :
    (fuel : ℕ) (e : EnumType)
    → IsEnum e
    → Reads (decode_ordered (suc (suc fuel))) (enum_code e) (finish_enum e, no_swap)
unfolding decode_class
decode-enum_code fuel e h =
    let small = int_bytes-le e.size in
    let count : from_le (to_le 2 (length e.members)) ≡ length e.members =
      from_le-to_le 2 (length e.members) ∙ mod-eq_of_lt h.few in
    head-Reads (suc fuel) 0x18 (length e.members % 256) (length e.members / 256 % 256) 0
      (int_bytes e.size) _ _ (omega arith)
      (subst
        (λ n.
          Reads (decode_enum (decode_ordered (suc fuel)) 1 n) (members_code e)
            (finish_enum e, no_swap))
        (sym count) (decode_enum-Reads fuel e h))
