-- ===== src/Datatype/Runs.antt =====
-- Runs of the datatype messages.
use hdf5_rs.Prelude.{
  ℕ, ◌≡◌, refl, arith, List, [], ◌∷◌, ◌++◌, length, false, ok, err, panic, ◌^◌, Ends,
}
use hdf5_rs.Arena.{Text}
use hdf5_rs.Buffer.Fields.{at}
use hdf5_rs.Datatype.{
  u2, u4, EnumType, TypeDescriptor, integer, float, single, boolean, enumeration, compound,
  fixed_array, var_len_array, no_fields, field, disk_size, checked_size, is_bool_enum,
}
use hdf5_rs.Datatype.Names.{IsText-ascii, lossy}
use hdf5_rs.Datatype.Encode.{encode}
use hdf5_rs.Datatype.Decode.{decode}
use hdf5_rs.Datatype.Safety.{decode-Ends}
use hdf5_rs.Datatype.RoundTrip.Encodable.{Encodable}
use hdf5_rs.Datatype.RoundTrip.Types.{decode-encode}

abbrev name_x : Text
name_x = b'x' ∷ []

abbrev name_on : Text
name_on = b'o' ∷ b'n' ∷ []

abbrev switch : EnumType
switch = record { size = u2; signed = false; members = record { name = name_on; value = 513 } ∷ [] }

abbrev pixel : TypeDescriptor
pixel =
    compound
      (field name_x (fixed_array (integer u4) 3) 0 0 (
        field name_on (enumeration switch) 12 1 (
          field name_on boolean 14 2 (field name_x (var_len_array (float single)) 16 3 no_fields))))
      32

pixel-Encodable : Encodable pixel
unfolding Encodable is_bool_enum disk_size
pixel-Encodable =
    let x = IsText-ascii name_x (omega arith, tt) (omega arith, tt) in
    let on =
      IsText-ascii name_on (omega arith, (omega arith, tt)) (omega arith, (omega arith, tt)) in
    (
      omega arith,
      omega arith,
      (
        x,
        omega arith,
        refl,
        (omega arith, omega arith, tt),
        (
          on,
          omega arith,
          refl,
          (record { few = omega arith; members = ((on, omega arith), tt) }, refl),
          (on, omega arith, refl, tt, (x, omega arith, refl, tt, tt)),
        ),
      ),
    )

decode-encode_example :
    decode (at ((7 ∷ []) ++ (encode pixel ++ (9 ∷ []))) 1)
    ≡ ok (pixel, at ((7 ∷ []) ++ (encode pixel ++ (9 ∷ []))) (length ((7 ∷ []) ++ encode pixel)))
decode-encode_example = decode-encode pixel (7 ∷ []) (9 ∷ []) pixel-Encodable

-- Two nested arrays, whose sizes on disk do not fit together.
abbrev vast : TypeDescriptor
vast = fixed_array (fixed_array (integer u4) (2 ^ 31)) (2 ^ 31)

vast_panics : checked_size vast ≡ panic
unfolding checked_size disk_size
vast_panics = refl

-- A message of the class of integers that ends too early.
abbrev cut_short : List ℕ
cut_short = 0x10 ∷ 8 ∷ 0 ∷ 0 ∷ 4 ∷ 0 ∷ 0 ∷ 0 ∷ 0 ∷ []

decode-cut_short : decode (at cut_short 0) ≡ err "unexpected end of file"
unfolding decode
decode-cut_short = refl

decode-Ends_example : Ends (λ _. Unit {0}) (decode (at cut_short 0))
decode-Ends_example = decode-Ends cut_short 0 (
  omega arith,
  (
    omega arith,
    (
      omega arith,
      (omega arith, (omega arith, (omega arith, (omega arith, (omega arith, (omega arith, tt)))))),
    ),
  ),
)

-- A byte that is no UTF-8 is replaced, and one longest prefix of a character at once.
lossy_broken :
    lossy (b'a' ∷ 0xe2 ∷ 0x82 ∷ b'b' ∷ 0xff ∷ [])
    ≡ b'a' ∷ 0xef ∷ 0xbf ∷ 0xbd ∷ b'b' ∷ 0xef ∷ 0xbf ∷ 0xbd ∷ []
unfolding lossy
lossy_broken = refl

lossy_euro : lossy (0xe2 ∷ 0x82 ∷ 0xac ∷ []) ≡ 0xe2 ∷ 0x82 ∷ 0xac ∷ []
unfolding lossy
lossy_euro = refl
