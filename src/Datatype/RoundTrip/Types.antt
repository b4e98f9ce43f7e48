-- ===== src/Datatype/RoundTrip/Types.antt =====
-- Whole descriptors: `decode` reads back what `encode` writes.
use hdf5_rs.Prelude.{
  ℕ, suc, ◌+◌, ◌≤◌, ◌≡◌, refl, sym, ap, subst, arith, List, [], ◌++◌, length, length-append, true,
  false, ok,
}
use hdf5_rs.Buffer.{Buf}
use hdf5_rs.Buffer.Fields.{at}
use hdf5_rs.Buffer.Parser.{◌>>=◌, Reads}
use hdf5_rs.Datatype.{
  FloatSize, single, double, int_bytes, EnumType, TypeDescriptor, Fields, integer, unsigned, float,
  boolean, enumeration, compound, fixed_array, fixed_ascii, fixed_unicode, var_len_array,
  var_len_ascii, var_len_unicode, no_fields, field, is_bool_enum, text_false, text_true,
}
use hdf5_rs.Datatype.Names.{IsText-ascii}
use hdf5_rs.Datatype.Encode.{encode_into, encode, encode_bool, bool_enum}
use hdf5_rs.Datatype.Decode.{no_swap, decode_ordered, decode, finish_enum}
use hdf5_rs.Datatype.RoundTrip.Leaves.{
  int_code, encode_int-Writes, decode-int_code, float_code, encode_float-Writes, decode-float_code,
  string_code, encode_string-Writes, decode-string_code, text_code, encode_vlen_string-Writes,
  decode-text_code,
}
use hdf5_rs.Datatype.RoundTrip.Enums.{IsEnum, enum_code, encode_enum-Writes, decode-enum_code}
use hdf5_rs.Datatype.RoundTrip.Encodable.{Encodable, checked_size-Encodable, EncodableFields}
use hdf5_rs.Datatype.RoundTrip.Parts.{
  Coded, CodedFields, leaf, coded_array, coded_vlen, coded_field, coded_compound, coded_none,
}

bool_enum-IsEnum : IsEnum bool_enum
bool_enum-IsEnum = record {
  few = omega arith;
  members = (
    (
      IsText-ascii text_false
          (omega arith, (omega arith, (omega arith, (omega arith, (omega arith, tt)))))
          (omega arith, (omega arith, (omega arith, (omega arith, (omega arith, tt))))),
      omega arith,
    ),
    (
      (
        IsText-ascii text_true (omega arith, (omega arith, (omega arith, (omega arith, tt))))
            (omega arith, (omega arith, (omega arith, (omega arith, tt)))),
        omega arith,
      ),
      tt,
    ),
  );
}

float_long : (s : FloatSize) → 2 ≤ length (float_code s)
float_long single = omega arith
float_long double = omega arith

finish_plain : (e : EnumType) → is_bool_enum e ≡ false → finish_enum e ≡ enumeration e
unfolding finish_enum
finish_plain e plain = rw plain refl

mutual
  unfolding encode_into encode_bool finish_enum is_bool_enum Encodable

  coded : (desc : TypeDescriptor) → Encodable desc → Coded desc
  coded (integer s) h =
      leaf (integer s) (int_code (int_bytes s) true) (omega arith)
        (record { run = (encode_int-Writes (int_bytes s) true).run })
        λ fuel. decode-int_code (suc fuel) s true
  coded (unsigned s) h =
      leaf (unsigned s) (int_code (int_bytes s) false) (omega arith)
        (record { run = (encode_int-Writes (int_bytes s) false).run })
        λ fuel. decode-int_code (suc fuel) s false
  coded (float s) h =
      leaf (float s) (float_code s) (float_long s) (record { run = (encode_float-Writes s).run })
        λ fuel. decode-float_code (suc fuel) s
  coded boolean h =
      leaf boolean (enum_code bool_enum) (omega arith)
        (record { run = (encode_enum-Writes bool_enum).run })
        λ fuel. decode-enum_code fuel bool_enum bool_enum-IsEnum
  coded (enumeration e) (h, plain) =
      leaf (enumeration e) (enum_code e) (omega arith) (record { run = (encode_enum-Writes e).run })
        λ fuel.
          subst (λ t. Reads (decode_ordered (suc (suc fuel))) (enum_code e) (t, no_swap))
            (finish_plain e plain) (decode-enum_code fuel e h)
  coded (compound fs size) (h, few, good) =
      coded_compound fs size h few good (coded_fields size 0 fs good)
  coded (fixed_array base n) (h, k, good) =
      coded_array base n h k (checked_size-Encodable base good) (coded base good)
  coded (fixed_ascii n) h =
      leaf (fixed_ascii n) (string_code n false) (omega arith)
        (record { run = (encode_string-Writes n false).run })
        λ fuel. decode-string_code (suc fuel) n false h
  coded (fixed_unicode n) h =
      leaf (fixed_unicode n) (string_code n true) (omega arith)
        (record { run = (encode_string-Writes n true).run })
        λ fuel. decode-string_code (suc fuel) n true h
  coded (var_len_array base) h = coded_vlen base (coded base h)
  coded var_len_ascii h =
      leaf var_len_ascii (text_code false) (omega arith)
        (record { run = (encode_vlen_string-Writes false).run }) λ fuel. decode-text_code fuel false
  coded var_len_unicode h =
      leaf var_len_unicode (text_code true) (omega arith)
        (record { run = (encode_vlen_string-Writes true).run }) λ fuel. decode-text_code fuel true

  coded_fields : (size i : ℕ) (fs : Fields) → EncodableFields i fs → CodedFields size i fs
  coded_fields size i no_fields h = coded_none size i
  coded_fields size i (field name ty offset index rest) (t, o, e, h, hs) =
      subst (λ k. CodedFields size k (field name ty offset index rest)) e
        (coded_field name ty offset index size rest t o (coded ty h)
          (subst (λ k. CodedFields size (suc k) rest) (sym e) (coded_fields size (suc i) rest hs)))

-- What `encode` writes of a descriptor that a message can hold is read back by `decode` wherever it
-- stands in a file, and the reader then stands behind it.
pub decode-encode :
    (desc : TypeDescriptor) (pre post : List ℕ)
    → Encodable desc
    → decode (at (pre ++ (encode desc ++ post)) (length pre))
      ≡ ok (desc, at (pre ++ (encode desc ++ post)) (length (pre ++ encode desc)))
unfolding decode encode
decode-encode desc pre post h =
    let c = coded desc h in
    let empty : Buf = record { bytes = [] } in
    let bytes : c.bytes ≡ encode desc = sym (ap (λ (b : Buf). b.bytes) (c.written.run empty)) in
    let image : List ℕ = pre ++ (encode desc ++ post) in
    let whole = length-append pre (encode desc ++ post) in
    let inner = length-append (encode desc) post in
    let read : Reads (decode_ordered (length image + 1)) (encode desc) (desc, no_swap) =
      subst (λ s. Reads (decode_ordered (length image + 1)) s (desc, no_swap)) bytes
        (c.read (length image + 1) (omega (arith, ap length bytes))) in
    rw (◌>>=◌, read.run pre post) refl
