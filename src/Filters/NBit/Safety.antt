-- ===== src/Filters/NBit/Safety.antt =====
-- `nbit_decompress` on any data and any parameters whose output can be allocated.
use hdf5_rs.Prelude.{
  ℕ, ◌+◌, ◌-◌, ◌*◌, ◌/◌, ◌<◌, ◌≤◌, ◌≡◌, ◌∙◌, List, length, replicate, leb, ltb, ◌==◌, Result, ◌>>=◌,
  ensure-Safe, arith, not, ◌||◌, true, Safe, >>=-Safe, Answers, Bool-cases, inl, inr, leb→le,
  length-replicate, get_or, ◌^◌, ◌>>◌, assert, Bool, false, lt→ltb,
}
use hdf5_rs.Prelude.Arith.{index-lt}
use hdf5_rs.Prelude.Loops.{for_each-Safe, for_down-Safe}
use hdf5_rs.Prelude.Bytes.{index, index-Safe, index-eq-get_or, put, put-Safe}
use hdf5_rs.Filters.BitStream.{Place, unpack_bits}
use hdf5_rs.Filters.BitStream.Laws.{IsPlace, unpack_bits-Safe}
use hdf5_rs.Filters.NBit.{
  byte_bits, Unpacking, unpack_into, begin_index, decode_elements, decode_atomic, nbit_decompress,
}

-- The output has its length and the place is one.
pub record Going (n : ℕ) (u : Unpacking) : Type 0 where
  pub size : length u.out ≡ n
  pub place : IsPlace u.place

pub unpack_into-Safe :
    (packed : List ℕ) (at n : ℕ) (bits : ℕ × ℕ) (u : Unpacking)
    → at < n
    → (1 ≤ bits.0) × (bits.0 ≤ 8)
    → Going n u
    → Safe (Going n) (unpack_into packed at bits u)
unfolding unpack_into
unpack_into-Safe packed at n (bits, off) u inside few g =
    >>=-Safe (λ (r : ℕ × Place). IsPlace r.1) (Going n) (unpack_bits packed u.place bits off) _
      (unpack_bits-Safe packed u.place bits off g.place few.0 few.1)
      (λ r place.
        >>=-Safe (λ (o : List ℕ). length o ≡ length u.out) (Going n) (put u.out at r.0) _
          (put-Safe u.out at r.0 (omega (arith, g.size)))
          (λ o same. record { size = same ∙ g.size; place = place }))

-- The header's checks on the widths.
record IsLayout (size precision offset : ℕ) : Type 0 where
  some_bits : 1 ≤ precision
  fits : precision + offset ≤ size * 8

begin_index-lt :
    (size precision offset : ℕ)
    → IsLayout size precision offset
    → (begin_index precision offset < size) × (offset / 8 ≤ begin_index precision offset)
unfolding begin_index
begin_index-lt size precision offset l = ground arith

byte_bits_range :
    (size precision offset k : ℕ)
    → IsLayout size precision offset
    → (1 ≤ (byte_bits (size * 8) precision offset (begin_index precision offset) (offset / 8) k).0)
      × ((byte_bits (size * 8) precision offset (begin_index precision offset) (offset / 8) k).0
          ≤ 8)
unfolding byte_bits begin_index
byte_bits_range size precision offset k l = ground arith

decode_elements-Safe :
    (packed : List ℕ) (nelmts size precision offset : ℕ) (u : Unpacking)
    → IsLayout size precision offset
    → Going (nelmts * size) u
    → Safe (Going (nelmts * size)) (decode_elements packed nelmts size precision offset u)
unfolding decode_elements
decode_elements-Safe packed nelmts size precision offset u l g =
    let (top, order) = begin_index-lt size precision offset l in
    for_each-Safe (Going (nelmts * size)) _ nelmts 0 nelmts u
      (λ e t he ht.
        for_down-Safe (Going (nelmts * size)) _ (begin_index precision offset + 1 - offset / 8)
          (offset / 8) t
          (λ k w lo hi hw.
            unpack_into-Safe packed (e * size + k) (nelmts * size) _ w
              (index-lt e k size nelmts he (omega arith))
              (byte_bits_range size precision offset k l) hw)
          ht)
      (omega arith) g

-- Reading one of the eight parameters.
pub parameter-Safe {ℓ} :
    {B : Type ℓ} (Q : B → Type 0) (cdata : List ℕ) (i : ℕ) (f : ℕ → Result B)
    → i < length cdata
    → ((v : ℕ) → Safe Q (f v))
    → Safe Q (index cdata i >>= f)
parameter-Safe Q cdata i f h k =
    >>=-Safe (λ _. Unit {0}) Q (index cdata i) f (index-Safe cdata i h) (λ v _. k v)

IsLayout-of_checks :
    (size precision offset : ℕ)
    → not (ltb (size * 8) precision || ltb (size * 8) (precision + offset) || precision == 0) ≡ true
    → IsLayout size precision offset
IsLayout-of_checks size precision offset h = ground arith

abbrev Fits : List ℕ → Type 0
Fits out = Unit {0}

-- Reading a parameter that is there.
known-Safe {ℓ} :
    {B : Type ℓ} (Q : B → Type 0) (cdata : List ℕ) (i : ℕ) (f : ℕ → Result B)
    → i < length cdata
    → Safe Q (f (get_or cdata i 0))
    → Safe Q (index cdata i >>= f)
known-Safe Q cdata i f h k = rw (index-eq-get_or cdata i 0 h) k

assert-Safe {ℓ} :
    {B : Type ℓ} (Q : B → Type 0) (b : Bool) (m : Result B)
    → b ≡ true
    → Safe Q m
    → Safe Q (assert b >> m)
assert-Safe Q true m e k = k
assert-Safe Q false m e k = cc

-- The output of so many elements of such a size can be allocated.
abbrev pub IsAllocated : List ℕ → Type 0
IsAllocated cdata = get_or cdata 2 0 * get_or cdata 4 0 < 2 ^ 63

decode_atomic-Safe :
    (cdata packed : List ℕ) → IsAllocated cdata → Answers (decode_atomic cdata packed)
unfolding decode_atomic
decode_atomic-Safe cdata packed room =
    let nelmts = get_or cdata 2 0 in
    let size = get_or cdata 4 0 in
    ensure-Safe Fits (leb 8 (length cdata)) "nbit: missing parameters" _ λ h.
      let eight = leb→le 8 (length cdata) h in
      known-Safe Fits cdata 2 _ (omega arith) (
        parameter-Safe Fits cdata 3 _ (omega arith) λ class.
          ensure-Safe Fits (class == 1) "nbit: only atomic datatypes are supported" _ λ _.
            known-Safe Fits cdata 4 _ (omega arith) (
              parameter-Safe Fits cdata 5 _ (omega arith) λ order.
                parameter-Safe Fits cdata 6 _ (omega arith) λ precision.
                  parameter-Safe Fits cdata 7 _ (omega arith) λ offset.
                    ensure-Safe Fits (order == 0) "nbit: big-endian datasets are not supported" _
                      λ _. ensure-Safe Fits _ "nbit: bad precision/offset" _ λ checks.
                        assert-Safe Fits (ltb (nelmts * size) (2 ^ 63)) _
                          (lt→ltb (nelmts * size) (2 ^ 63) room)
                          (>>=-Safe (Going (nelmts * size)) Fits
                            (decode_elements packed nelmts size precision offset (record {
                              out = replicate (nelmts * size) 0;
                              place = record { j = 0; bits_to_fill = 8 };
                            }))
                            _
                            (decode_elements-Safe packed nelmts size precision offset _
                              (IsLayout-of_checks size precision offset checks)
                              (record {
                                size = length-replicate (nelmts * size) 0;
                                place = record { some_left = omega arith; a_byte = omega arith };
                              }))
                            (λ u g. tt))))

-- For every list of parameters whose product of the number of elements and their size is below 2^63,
-- the length that can be allocated, and every data `nbit_decompress` returns bytes or one of its
-- error messages: no index is out of range.
pub nbit_decompress-Answers :
    (cdata packed : List ℕ) → IsAllocated cdata → Answers (nbit_decompress cdata packed)
unfolding nbit_decompress
nbit_decompress-Answers cdata packed room =
    ensure-Safe Fits (leb 3 (length cdata)) "nbit: missing parameters" _ λ h.
      parameter-Safe Fits cdata 1 _ (omega (arith, leb→le 3 (length cdata) h)) λ verbatim.
        elim (Bool-cases (not (verbatim == 0))) [
          | inl copy ↦ rw copy tt
          | inr decode ↦ rw decode (decode_atomic-Safe cdata packed room)
        ]
