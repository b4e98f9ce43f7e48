-- ===== src/Datatype/RoundTrip/Leaves.antt =====
-- The types without parts: what is written of them is read back.
use hdf5_rs.Prelude.{
  ℕ, suc, ◌*◌, ◌^◌, ◌<◌, ◌≤◌, ◌≡◌, refl, arith, List, [], ◌∷◌, ◌++◌, append-nil, bit_and, ◌==◌,
  Bool, true, false, if◌then◌else◌, Option, some, String,
}
use hdf5_rs.Prelude.Bits.{◌>>>◌}
use hdf5_rs.Prelude.Bytes.{to_le}
use hdf5_rs.Buffer.{u8, u16, u32}
use hdf5_rs.Buffer.Parser.{Reads, >>=-Reads, pure-Reads, Reads-from, u8-Reads, u16-Reads, u32-Reads}
use hdf5_rs.Buffer.Writing.{◌then◌, Writes, raw-Writes, then-Writes}
use hdf5_rs.Datatype.{
  IntSize, u1, u2, u4, u8 as u8_size, int_bytes, int_from, FloatSize, single, double, float_from,
  TypeDescriptor, integer, unsigned, float, fixed_ascii, fixed_unicode, var_len_ascii,
  var_len_unicode,
}
use hdf5_rs.Datatype.Encode.{encode_int, encode_float, encode_string, encode_vlen_string}
use hdf5_rs.Datatype.Decode.{
  Ordered, decode_int, decode_float, decode_class, decode_ordered, decode_vlen, vlen_type_of,
  no_swap, or_fail, leaf_order,
}

-- The eight bytes that every type starts with, and what follows them.
pub head-Reads :
    (fuel vc b0 b1 b2 size : ℕ) (s : List ℕ) (r : Ordered)
    → size < 2 ^ 32
    → Reads (decode_class (decode_ordered fuel) (bit_and vc 0x0f) (vc >>> 4) b0 b1 b2 size) s r
    → Reads (decode_ordered (suc fuel)) (vc ∷ (b0 ∷ (b1 ∷ (b2 ∷ (to_le 4 size ++ s))))) r
unfolding decode_ordered
head-Reads fuel vc b0 b1 b2 size s r h k = record {
  run =
      (>>=-Reads _ (u8-Reads vc) (
        >>=-Reads _ (u8-Reads b0) (
          >>=-Reads _ (u8-Reads b1)
            (>>=-Reads _ (u8-Reads b2) (>>=-Reads _ (u32-Reads size h) k))))).run;
}

pub or_fail-Reads :
    {A : Type 0} (words : String) (o : Option A) (a : A) → o ≡ some a → Reads (or_fail words o) [] a
or_fail-Reads words o a e = rw e (pure-Reads a)

pub int_from-int_bytes : (s : IntSize) → int_from (int_bytes s) ≡ some s
int_from-int_bytes u1 = refl
int_from-int_bytes u2 = refl
int_from-int_bytes u4 = refl
int_from-int_bytes u8_size = refl

pub int_bytes-le : (s : IntSize) → int_bytes s ≤ 8
int_bytes-le u1 = omega arith
int_bytes-le u2 = omega arith
int_bytes-le u4 = omega arith
int_bytes-le u8_size = omega arith

abbrev pub sign_flag : Bool → ℕ
sign_flag signed = if signed then 0x08 else 0x00

abbrev pub int_type : Bool → IntSize → TypeDescriptor
int_type signed s = if signed then integer s else unsigned s

abbrev pub int_code : ℕ → Bool → List ℕ
int_code size signed =
    0x10 ∷ (sign_flag signed ∷ (0 ∷ (0 ∷ (to_le 4 size ++ (0 ∷ (0 ∷ to_le 2 (size * 8)))))))

pub head-Writes :
    (vc b0 b1 b2 size : ℕ)
    → Writes
        (u8 vc then u8 b0 then u8 b1 then u8 b2 then u32 size)
        (vc ∷ (b0 ∷ (b1 ∷ (b2 ∷ to_le 4 size))))
head-Writes vc b0 b1 b2 size =
    then-Writes
      (then-Writes (then-Writes (then-Writes (raw-Writes _) (raw-Writes _)) (raw-Writes _))
        (raw-Writes _))
      (raw-Writes _)

pub encode_int-Writes :
    (size : ℕ) (signed : Bool) → Writes (encode_int size signed) (int_code size signed)
unfolding encode_int
encode_int-Writes size signed =
    then-Writes (then-Writes (head-Writes 0x10 (sign_flag signed) 0 0 size) (raw-Writes _))
      (raw-Writes _)

decode_int-Reads :
    (flags size p : ℕ) (s : IntSize)
    → int_from size ≡ some s
    → p < 2 ^ 16
    → Reads
        (decode_int flags size)
        (0 ∷ (0 ∷ to_le 2 p))
        (if bit_and flags 0x08 == 0 then unsigned s else integer s, leaf_order flags size)
unfolding decode_int
decode_int-Reads flags size p s e h = >>=-Reads _ (u16-Reads 0 (omega arith)) (
    >>=-Reads _ (u16-Reads p h)
      (>>=-Reads _ (or_fail-Reads "invalid integer size" (int_from size) s e) (pure-Reads _)))

pub decode-int_code :
    (fuel : ℕ) (s : IntSize) (signed : Bool)
    → Reads (decode_ordered (suc fuel)) (int_code (int_bytes s) signed) (int_type signed s, no_swap)
unfolding decode_class
decode-int_code fuel s true =
    let small = int_bytes-le s in
    head-Reads fuel 0x10 0x08 0 0 (int_bytes s) _ _ (omega arith)
      (decode_int-Reads 0x08 (int_bytes s) (int_bytes s * 8) s (int_from-int_bytes s) (omega arith))
decode-int_code fuel s false =
    let small = int_bytes-le s in
    head-Reads fuel 0x10 0x00 0 0 (int_bytes s) _ _ (omega arith)
      (decode_int-Reads 0x00 (int_bytes s) (int_bytes s * 8) s (int_from-int_bytes s) (omega arith))

abbrev pub float_code : FloatSize → List ℕ
float_code single =
    0x11
    ∷ (0x20
        ∷ (31
            ∷ (0
                ∷ (to_le 4 4
                    ++ (to_le 2 0 ++ (to_le 2 32 ++ (23 ∷ (8 ∷ (0 ∷ (23 ∷ to_le 4 127))))))))))
float_code double =
    0x11
    ∷ (0x20
        ∷ (63
            ∷ (0
                ∷ (to_le 4 8
                    ++ (to_le 2 0 ++ (to_le 2 64 ++ (52 ∷ (11 ∷ (0 ∷ (52 ∷ to_le 4 1023))))))))))

float-Writes :
    (sign size precision a b c d bias : ℕ)
    → Writes
        (u8 0x11
          then u8 0x20
          then u8 sign
          then u8 0
          then u32 size
          then u16 0
          then u16 precision
          then u8 a
          then u8 b
          then u8 c
          then u8 d
          then u32 bias)
        (0x11
          ∷ (0x20
              ∷ (sign
                  ∷ (0
                      ∷ (to_le 4 size
                          ++ (0
                              ∷ (0
                                  ∷ (to_le 2 precision
                                      ++ (a ∷ (b ∷ (c ∷ (d ∷ to_le 4 bias))))))))))))
float-Writes sign size precision a b c d bias =
    then-Writes
      (then-Writes
        (then-Writes
          (then-Writes
            (then-Writes
              (then-Writes (then-Writes (head-Writes 0x11 0x20 sign 0 size) (raw-Writes _))
                (raw-Writes _))
              (raw-Writes _))
            (raw-Writes _))
          (raw-Writes _))
        (raw-Writes _))
      (raw-Writes _)

pub encode_float-Writes : (size : FloatSize) → Writes (encode_float size) (float_code size)
unfolding encode_float
encode_float-Writes single = float-Writes 31 4 32 23 8 0 23 127
encode_float-Writes double = float-Writes 63 8 64 52 11 0 52 1023

decode_float-Reads :
    (flags size p a b c d bias : ℕ) (s : FloatSize)
    → float_from size ≡ some s
    → p < 2 ^ 16
    → bias < 2 ^ 32
    → Reads
        (decode_float flags size)
        (0 ∷ (0 ∷ (to_le 2 p ++ (a ∷ (b ∷ (c ∷ (d ∷ to_le 4 bias)))))))
        (float s, leaf_order flags size)
unfolding decode_float
decode_float-Reads flags size p a b c d bias s e h k = >>=-Reads _ (u16-Reads 0 (omega arith)) (
    >>=-Reads _ (u16-Reads p h) (
      >>=-Reads _ (u8-Reads a) (
        >>=-Reads _ (u8-Reads b) (
          >>=-Reads _ (u8-Reads c) (
            >>=-Reads _ (u8-Reads d) (
              >>=-Reads _ (u32-Reads bias k) (
                >>=-Reads _ (or_fail-Reads "unsupported float size" (float_from size) s e)
                  (pure-Reads _))))))))

pub decode-float_code :
    (fuel : ℕ) (s : FloatSize) → Reads (decode_ordered (suc fuel)) (float_code s) (float s, no_swap)
unfolding decode_class
decode-float_code fuel single =
    head-Reads fuel 0x11 0x20 31 0 4 _ _ (omega arith)
      (decode_float-Reads 0x20 4 32 23 8 0 23 127 single refl (omega arith) (omega arith))
decode-float_code fuel double =
    head-Reads fuel 0x11 0x20 63 0 8 _ _ (omega arith)
      (decode_float-Reads 0x20 8 64 52 11 0 52 1023 double refl (omega arith) (omega arith))

abbrev pub string_flag : Bool → ℕ
string_flag unicode = if unicode then 0x11 else 0x01

abbrev pub string_type : Bool → ℕ → TypeDescriptor
string_type unicode n = if unicode then fixed_unicode n else fixed_ascii n

abbrev pub string_code : ℕ → Bool → List ℕ
string_code n unicode = 0x13 ∷ (string_flag unicode ∷ (0 ∷ (0 ∷ (to_le 4 n ++ []))))

pub encode_string-Writes :
    (n : ℕ) (unicode : Bool) → Writes (encode_string n unicode) (string_code n unicode)
unfolding encode_string
encode_string-Writes n true = head-Writes 0x13 0x11 0 0 n
encode_string-Writes n false = head-Writes 0x13 0x01 0 0 n

pub decode-string_code :
    (fuel n : ℕ) (unicode : Bool)
    → n < 2 ^ 32
    → Reads (decode_ordered (suc fuel)) (string_code n unicode) (string_type unicode n, no_swap)
unfolding decode_class
decode-string_code fuel n true h = head-Reads fuel 0x13 0x11 0 0 n [] _ h (pure-Reads _)
decode-string_code fuel n false h = head-Reads fuel 0x13 0x01 0 0 n [] _ h (pure-Reads _)

abbrev pub text_type : Bool → TypeDescriptor
text_type unicode = if unicode then var_len_unicode else var_len_ascii

abbrev pub text_code : Bool → List ℕ
text_code unicode =
    0x19 ∷ (0x01 ∷ ((if unicode then 1 else 0) ∷ (0 ∷ (to_le 4 16 ++ int_code 1 false))))

pub encode_vlen_string-Writes :
    (unicode : Bool) → Writes (encode_vlen_string unicode) (text_code unicode)
unfolding encode_vlen_string
encode_vlen_string-Writes unicode =
    then-Writes (head-Writes 0x19 0x01 (if unicode then 1 else 0) 0 16) (encode_int-Writes 1 false)

pub decode-text_code :
    (fuel : ℕ) (unicode : Bool)
    → Reads (decode_ordered (suc (suc fuel))) (text_code unicode) (text_type unicode, no_swap)
unfolding decode_class decode_vlen vlen_type_of
decode-text_code fuel true = head-Reads (suc fuel) 0x19 0x01 1 0 16 _ _ (omega arith) (
    Reads-from (append-nil (int_code 1 false))
      (>>=-Reads _ (decode-int_code fuel u1 false) (pure-Reads _)))
decode-text_code fuel false = head-Reads (suc fuel) 0x19 0x01 0 0 16 _ _ (omega arith) (
    Reads-from (append-nil (int_code 1 false))
      (>>=-Reads _ (decode-int_code fuel u1 false) (pure-Reads _)))
