-- ===== src/Datatype/RoundTrip/Encodable.antt =====
-- The descriptors that a datatype message can hold.
use hdf5_rs.Prelude.{ℕ, suc, ◌*◌, ◌^◌, ◌<◌, ◌≡◌, refl, arith, false, ok, lt→ltb}
use hdf5_rs.Datatype.{
  TypeDescriptor, Fields, integer, unsigned, float, boolean, enumeration, compound, fixed_array,
  fixed_ascii, fixed_unicode, var_len_array, var_len_ascii, var_len_unicode, no_fields, field,
  disk_size, checked_size, is_bool_enum,
}
use hdf5_rs.Datatype.Names.{IsText}
use hdf5_rs.Datatype.Encode.{count_fields}
use hdf5_rs.Datatype.RoundTrip.Enums.{IsEnum}

-- What a datatype message can hold: numbers in the range of their fields, names that are read as
-- they are written, members in the order of their indices, and no enumeration that is read as a
-- Boolean.
unfoldable mutual
  pub Encodable : TypeDescriptor → Type 0
  Encodable (integer s) = Unit {0}
  Encodable (unsigned s) = Unit {0}
  Encodable (float s) = Unit {0}
  Encodable boolean = Unit {0}
  Encodable (enumeration e) = IsEnum e × (is_bool_enum e ≡ false)
  Encodable (compound fs size) = (size < 2 ^ 32) × (count_fields fs < 2 ^ 16) × EncodableFields 0 fs
  Encodable (fixed_array base n) = (n < 2 ^ 32) × (disk_size base * n < 2 ^ 32) × Encodable base
  Encodable (fixed_ascii n) = n < 2 ^ 32
  Encodable (fixed_unicode n) = n < 2 ^ 32
  Encodable (var_len_array base) = Encodable base
  Encodable var_len_ascii = Unit {0}
  Encodable var_len_unicode = Unit {0}

  pub EncodableFields : ℕ → Fields → Type 0
  EncodableFields i no_fields = Unit {0}
  EncodableFields i (field name ty offset index rest) =
      IsText name × (offset < 2 ^ 32) × (index ≡ i) × Encodable ty × EncodableFields (suc i) rest

-- Where the products fit, so do those of the size on disk.
pub checked_size-Encodable : (t : TypeDescriptor) → Encodable t → checked_size t ≡ ok (disk_size t)
unfolding Encodable checked_size disk_size
checked_size-Encodable (fixed_array base n) (h, k, good) =
    let fits = lt→ltb (disk_size base * n) (2 ^ 64) (omega (arith, k)) in
    rw (checked_size-Encodable base good, fits) refl
checked_size-Encodable (integer s) h = refl
checked_size-Encodable (unsigned s) h = refl
checked_size-Encodable (float s) h = refl
checked_size-Encodable boolean h = refl
checked_size-Encodable (enumeration e) h = refl
checked_size-Encodable (compound fs size) h = refl
checked_size-Encodable (fixed_ascii n) h = refl
checked_size-Encodable (fixed_unicode n) h = refl
checked_size-Encodable (var_len_array base) h = refl
checked_size-Encodable var_len_ascii h = refl
checked_size-Encodable var_len_unicode h = refl
