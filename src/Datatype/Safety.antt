-- ===== src/Datatype/Safety.antt =====
-- hdf5/src/format/datatype.rs: the recursion of `decode_ordered` over nested types ends.
use hdf5_rs.Prelude.{
  ℕ, zero, suc, ◌+◌, ◌-◌, ◌*◌, ◌^◌, ◌<◌, ◌≤◌, refl, arith, List, [], ◌∷◌, length, All, bit_and, ltb,
  leb, ◌==◌, Bool, true, false, if◌then◌else◌, Option, none, some, ok, Ends, Ends-mono, Ends-Safe,
  >>=-Ends, Bool-cases, inl, inr, String,
}
use hdf5_rs.Prelude.Bits.{◌>>>◌}
use hdf5_rs.Prelude.Bytes.{IsByte, from_le}
use hdf5_rs.Arena.{Text}
use hdf5_rs.Buffer.{align8, read_u8, read_u16, read_u32}
use hdf5_rs.Buffer.Fields.{at}
use hdf5_rs.Buffer.Parser.{Parser, ◌>>=◌, pure, fail, pass, lift}
use hdf5_rs.Buffer.Reading.{
  Onward, Works, >>=-Works, pure-Works, pass-Works, lift-Works, if-Works, u8-Works, u16-Works,
  u32-Works, uint-Works, take-Works, u8-then, run-then, if-then,
}
use hdf5_rs.Datatype.{
  int_from, float_from, TypeDescriptor, integer, unsigned, float, boolean, enumeration, compound,
  fixed_array, fixed_ascii, fixed_unicode, var_len_array, var_len_ascii, var_len_unicode, checked,
  checked_size,
}
use hdf5_rs.Datatype.Widths.{bytes_for, bytes_for-Safe}
use hdf5_rs.Datatype.Encode.{
  class_int, class_float, class_string, class_bitfield, class_opaque, class_compound,
  class_reference, class_enum, class_vlen, class_array,
}
use hdf5_rs.Datatype.Decode.{
  Ordered, read_chars, pass_padding, read_name, read_names, read_members, or_fail, decode_int,
  decode_float, decode_enum, decode_bitfield, read_offset, pass_baggage, decode_fields,
  decode_compound, read_dims, decode_array, pass_if_second, decode_vlen, vlen_type_of,
  order_is_none, decode_class, decode_ordered, decode, enum_base, byte_array,
}

checked-Ends : (n : ℕ) → Ends (λ _. Unit {0}) (checked n)
checked-Ends n = elim (Bool-cases (ltb n (2 ^ 64))) [ inl b ↦ rw b tt | inr b ↦ rw b tt ]

-- A size on disk is a number, or a product that does not fit.
checked_size-Ends : (t : TypeDescriptor) → Ends (λ _. Unit {0}) (checked_size t)
unfolding checked_size
checked_size-Ends (fixed_array ty n) =
    >>=-Ends (λ _. Unit {0}) (λ _. Unit {0}) (checked_size ty) _ (checked_size-Ends ty)
      (λ size _. checked-Ends (size * n))
checked_size-Ends (integer s) = tt
checked_size-Ends (unsigned s) = tt
checked_size-Ends (float s) = tt
checked_size-Ends boolean = tt
checked_size-Ends (enumeration e) = tt
checked_size-Ends (compound fs size) = tt
checked_size-Ends (fixed_ascii n) = tt
checked_size-Ends (fixed_unicode n) = tt
checked_size-Ends (var_len_array base) = tt
checked_size-Ends var_len_ascii = tt
checked_size-Ends var_len_unicode = tt

abbrev Whatever : {A : Type 0} → A → Type 0
Whatever a = Unit {0}

module _ (image : List ℕ) (bytes : All IsByte image) where
  abbrev Reader : {A : Type 0} → ℕ → Parser A → Type 0
  Reader from m = Works image Whatever from m

  -- A step whose value does not matter.
  bind :
      {A B : Type 0} (from : ℕ) (m : Parser A) (next : A → Parser B)
      → Reader from m
      → ((a : A) → Reader from (next a))
      → Reader from (m >>= next)
  bind from m next h k = >>=-Works image Whatever Whatever from m next h (λ a _. k a)

  done : {A : Type 0} (from : ℕ) (a : A) → Reader from (pure a)
  done from a = pure-Works image Whatever from a tt

  or_fail-Reader :
      {A : Type 0} (from : ℕ) (words : String) (o : Option A) → Reader from (or_fail words o)
  or_fail-Reader from words none = record { run = λ pos on. tt }
  or_fail-Reader from words (some a) = done from a

  forget :
      {A : Type 0} {P : A → Type 0} (from : ℕ) (m : Parser A) → Works image P from m → Reader from m
  forget {P} from m h = record {
    run = λ pos on.
        Ends-mono (Onward image P pos) (Onward image Whatever pos) (m (at image pos))
          (λ r q. (q.0, q.1, tt)) (h.run pos on);
  }

  half : (from : ℕ) → Reader from read_u16
  half from = forget from read_u16 (u16-Works image from bytes)

  word : (from : ℕ) → Reader from read_u32
  word from = forget from read_u32 (u32-Works image from bytes)

  -- A name ends at the latest with the file.
  read_chars-Ends :
      (n pos : ℕ)
      → 1 ≤ n
      → length image + 1 ≤ pos + n
      → Ends (Onward image Whatever pos) (read_chars n (at image pos))
  unfolding read_chars read_u8
  read_chars-Ends zero pos h k = absurd (omega arith)
  read_chars-Ends (suc n) pos h k = u8-then image Whatever _ pos λ b lt.
      if-then image Whatever (pos + 1) (b == 0) (pure []) _ (refl, omega arith, tt)
        (run-then image Whatever Whatever (pos + 1) (read_chars n) _
          (read_chars-Ends n (pos + 1) (omega arith) (omega arith)) λ more _. done (pos + 1) _)

  if-padded :
      (b : Bool) (pos n : ℕ)
      → Ends
          (Onward image Whatever pos)
          (if b then pass n (at image pos) else ok (tt, at image pos))
  if-padded true pos n = (refl, omega arith, tt)
  if-padded false pos n = (refl, omega arith, tt)

  pass_padding-Reader : (from version start : ℕ) → Reader from (pass_padding version start)
  pass_padding-Reader from version start = record {
    run = λ pos on. if-padded (ltb version 3) pos (align8 (pos - start) - (pos - start));
  }

  read_name-Reader : (from version : ℕ) → Reader from (read_name version)
  unfolding read_name
  read_name-Reader from version = record {
    run = λ pos on.
        run-then image Whatever Whatever pos (read_chars (length image - pos + 1)) _
          (read_chars-Ends (length image - pos + 1) pos (omega arith) (omega arith))
          λ name _. bind pos _ _ (pass_padding-Reader pos version pos) λ u. done pos _;
  }

  read_names-Reader : (from version n : ℕ) → Reader from (read_names version n)
  unfolding read_names
  read_names-Reader from version zero = done from _
  read_names-Reader from version (suc n) =
      bind from _ _ (read_name-Reader from version)
        λ name. bind from _ _ (read_names-Reader from version n) λ names. done from _

  read_members-Reader :
      (from : ℕ) (swapped : Bool) (n : ℕ) (names : List Text)
      → Reader from (read_members swapped n names)
  unfolding read_members
  read_members-Reader from swapped n [] = done from _
  read_members-Reader from swapped n (name ∷ names) =
      bind from _ _ (forget from _ (take-Works image n from bytes))
        λ s. bind from _ _ (read_members-Reader from swapped n names) λ members. done from _

  decode_int-Reader : (from flags size : ℕ) → Reader from (decode_int flags size)
  unfolding decode_int
  decode_int-Reader from flags size = bind from _ _ (half from) λ a.
      bind from _ _ (half from)
        λ b. bind from _ _ (or_fail-Reader from _ (int_from size)) λ s. done from _

  decode_float-Reader : (from flags size : ℕ) → Reader from (decode_float flags size)
  unfolding decode_float
  decode_float-Reader from flags size = bind from _ _ (half from) λ a.
      bind from _ _ (half from) λ b. bind from _ _ (u8-Works image from) λ c.
        bind from _ _ (u8-Works image from) λ d. bind from _ _ (u8-Works image from) λ e.
          bind from _ _ (u8-Works image from) λ f.
            bind from _ _ (word from)
              λ g. bind from _ _ (or_fail-Reader from _ (float_from size)) λ s. done from _

  module _ (from : ℕ) (decode_type : Parser Ordered) (inner : Reader from decode_type) where
    decode_enum-Reader : (version n : ℕ) → Reader from (decode_enum decode_type version n)
    unfolding decode_enum
    decode_enum-Reader version n = bind from _ _ inner λ base.
        bind from _ _ (or_fail-Reader from _ (enum_base base.0)) λ shape.
          bind from _ _ (read_names-Reader from version n) λ names.
            bind from _ _ (read_members-Reader from _ shape.0 names) λ members.
              bind from _ _ (or_fail-Reader from _ (int_from shape.0)) λ isize. done from _

    read_offset-Reader : (version size : ℕ) → size < 2 ^ 32 → Reader from (read_offset version size)
    unfolding read_offset
    read_offset-Reader version size h =
        if-Works image Whatever from (leb 3 version) _ _
          (>>=-Works image (λ width. width ≤ 8) Whatever from (lift (bytes_for size)) _
            (lift-Works image (λ width. width ≤ 8) from (bytes_for size)
              (Ends-Safe (λ width. width ≤ 8) (bytes_for size) (bytes_for-Safe size h)))
            λ n q. uint-Works image n from q bytes)
          (word from)

    pass_baggage-Reader : (version : ℕ) → Reader from (pass_baggage version)
    unfolding pass_baggage
    pass_baggage-Reader version =
        if-Works image Whatever from (version == 1) _ _ (pass-Works image from 28) (done from tt)

    decode_fields-Reader :
        (version size n index : ℕ)
        → size < 2 ^ 32
        → Reader from (decode_fields decode_type version size n index)
    unfolding decode_fields
    decode_fields-Reader version size zero index h = done from _
    decode_fields-Reader version size (suc n) index h =
        bind from _ _ (read_name-Reader from version) λ name.
          bind from _ _ (read_offset-Reader version size h) λ offset.
            bind from _ _ (pass_baggage-Reader version) λ u. bind from _ _ inner λ ty.
              bind from _ _ (decode_fields-Reader version size n (suc index) h) λ rest. done from _

    decode_compound-Reader :
        (version n size : ℕ)
        → size < 2 ^ 32
        → Reader from (decode_compound decode_type version n size)
    unfolding decode_compound
    decode_compound-Reader version n size h =
        bind from _ _ (decode_fields-Reader version size n 0 h) λ members. done from _

    checked-Reader : (n : ℕ) → Reader from (lift (checked n))
    checked-Reader n = lift-Works image Whatever from (checked n) (checked-Ends n)

    size-Reader : (t : TypeDescriptor) → Reader from (lift (checked_size t))
    size-Reader t = lift-Works image Whatever from (checked_size t) (checked_size-Ends t)

    read_dims-Reader : (n total : ℕ) → Reader from (read_dims n total)
    unfolding read_dims
    read_dims-Reader zero total = done from _
    read_dims-Reader (suc n) total = bind from _ _ (word from) λ d.
        bind from _ _ (checked-Reader (total * d))
          λ next. bind from _ _ (read_dims-Reader n next) λ rest. done from _

    pass_if_second-Reader : (version n : ℕ) → Reader from (pass_if_second version n)
    unfolding pass_if_second
    pass_if_second-Reader version n =
        if-Works image Whatever from (version == 2) _ _ (pass-Works image from n) (done from tt)

    decode_array-Reader : (version : ℕ) → Reader from (decode_array decode_type version)
    unfolding decode_array
    decode_array-Reader version = bind from _ _ (u8-Works image from) λ ndim.
        bind from _ _ (pass_if_second-Reader version 3) λ u.
          bind from _ _ (read_dims-Reader ndim 1) λ dims.
            bind from _ _ (pass_if_second-Reader version (4 * ndim)) λ v.
              bind from _ _ inner λ base. bind from _ _ (size-Reader base.0) λ stride. done from _

    vlen_type-Reader :
        (vlen_type charset : ℕ) (base : Ordered) → Reader from (vlen_type_of vlen_type charset base)
    unfolding vlen_type_of
    vlen_type-Reader vlen_type charset (base, t) =
        if-Works image Whatever from (vlen_type == 1) _ _ (done from _) (
          if-Works image Whatever from (order_is_none t) _ _ (done from _)
            (bind from _ _ (size-Reader base) λ stride. done from _))

    decode_vlen-Reader : (first second : ℕ) → Reader from (decode_vlen decode_type first second)
    unfolding decode_vlen
    decode_vlen-Reader first second =
        bind from _ _ inner λ base. vlen_type-Reader (bit_and first 0x0f) (bit_and second 0x0f) base

    decode_bitfield-Reader : (flags size : ℕ) → Reader from (decode_bitfield flags size)
    unfolding decode_bitfield
    decode_bitfield-Reader flags size = bind from _ _ (half from) λ a.
        bind from _ _ (half from)
          λ b. bind from _ _ (or_fail-Reader from _ (int_from size)) λ s. done from _

    decode_class-Reader :
        (class version b0 b1 b2 size : ℕ)
        → size < 2 ^ 32
        → Reader from (decode_class decode_type class version b0 b1 b2 size)
    unfolding decode_class
    decode_class-Reader class version b0 b1 b2 size h =
        if-Works image Whatever from (class == class_int) _ _ (decode_int-Reader from b0 size) (
          if-Works image Whatever from (class == class_float) _ _ (decode_float-Reader from b0 size)
            (if-Works image Whatever from (class == class_string) _ _ (done from _) (
              if-Works image Whatever from (class == class_enum) _ _
                (decode_enum-Reader version (from_le (b0 ∷ (b1 ∷ []))))
                (if-Works image Whatever from (class == class_compound) _ _
                  (decode_compound-Reader version (from_le (b0 ∷ (b1 ∷ []))) size h)
                  (if-Works image Whatever from (class == class_array) _ _
                    (decode_array-Reader version)
                    (if-Works image Whatever from (class == class_vlen) _ _
                      (decode_vlen-Reader b0 b1)
                      (if-Works image Whatever from (class == class_bitfield) _ _
                        (decode_bitfield-Reader b0 size)
                        (if-Works image Whatever from (class == class_opaque) _ _
                          (bind from _ _ (pass-Works image from b0)
                            λ u. done from (byte_array size))
                          (if-Works image Whatever from (class == class_reference) _
                            (fail "unsupported datatype class") (done from (byte_array size))
                            (record { run = λ pos on. tt }))))))))))

  -- The fuel covers what is left of the file.
  decode_ordered-Ends :
      (fuel pos : ℕ)
      → 1 ≤ fuel
      → length image + 1 ≤ pos + fuel
      → Ends (Onward image Whatever pos) (decode_ordered fuel (at image pos))
  unfolding decode_ordered
  decode_ordered-Ends zero pos h k = absurd (omega arith)
  decode_ordered-Ends (suc fuel) pos h k = u8-then image Whatever _ pos λ vc lt.
      (let from = pos + 1 in
          bind from _ _ (u8-Works image from) λ b0. bind from _ _ (u8-Works image from) λ b1.
            bind from _ _ (u8-Works image from) λ b2.
              >>=-Works image (λ v. v < 2 ^ 32) Whatever from read_u32 _
                (u32-Works image from bytes)
                λ size q.
                  decode_class-Reader from (decode_ordered fuel)
                    (record {
                      run =
                          λ at_pos on. decode_ordered-Ends fuel at_pos (omega arith) (omega arith);
                    })
                    (bit_and vc 0x0f) (vc >>> 4) b0 b1 b2 size q).run
        (pos + 1) (omega arith)

-- Whatever bytes stand at the position, the recursion of `decode` over nested types ends: with a
-- descriptor, an error message or a panic. The fuel, one unit for each byte of the file and one more, does not run out.
pub decode-Ends :
    (image : List ℕ) (pos : ℕ) → All IsByte image → Ends Whatever (decode (at image pos))
unfolding decode
decode-Ends image pos bytes =
    Ends-mono (Onward image Whatever pos) Whatever (decode (at image pos)) (λ r q. tt)
      (run-then image Whatever Whatever pos (decode_ordered (length image + 1)) _
        (decode_ordered-Ends image bytes (length image + 1) pos (omega arith) (omega arith))
        λ r _. pure-Works image Whatever pos _ tt)
