-- ===== src/Filters/ScaleOffset/Safety.antt =====
-- `scaleoffset_decompress` on any parameters and any data.
use hdf5_rs.Prelude.{
  ℕ, ◌+◌, ◌-◌, ◌*◌, ◌/◌, ◌<◌, ◌≤◌, ◌≡◌, ◌∙◌, List, length, drop, leb, ◌==◌, min, if◌then◌else◌, ok,
  ensure-Safe, arith, ◌&&◌, ◌||◌, true, Safe, >>=-Safe, Safe-mono, Answers, Bool-cases, inl, inr,
  leb→le, length-replicate,
}
use hdf5_rs.Prelude.Arith.{index-lt}
use hdf5_rs.Prelude.Loops.{for_each-Safe, for_down-Safe}
use hdf5_rs.Prelude.Bytes.{slice, slice-Safe, write_at-Safe, to_le, from_le, length-to_le}
use hdf5_rs.Filters.NBit.{Unpacking}
use hdf5_rs.Filters.NBit.Safety.{Going, unpack_into-Safe, parameter-Safe}
use hdf5_rs.Filters.ScaleOffset.{
  Floats, Params, read_params, offset_bits, unpack_offsets, restore, restore_cells, post_process,
  unpack_start, scaleoffset_decompress,
}

abbrev Whole : ℕ → List ℕ → Type 0
Whole n out = length out ≡ n

offset_bits_range :
    (size minbits k : ℕ)
    → (1 ≤ offset_bits (size * 8) minbits k) × (offset_bits (size * 8) minbits k ≤ 8)
unfolding offset_bits
offset_bits_range size minbits k = ground arith

unpack_offsets-Safe :
    (packed : List ℕ) (nelmts size minbits : ℕ) (u : Unpacking)
    → 1 ≤ size
    → Going (nelmts * size) u
    → Safe (Going (nelmts * size)) (unpack_offsets packed nelmts size minbits u)
unfolding unpack_offsets
unpack_offsets-Safe packed nelmts size minbits u some_size g =
    for_each-Safe (Going (nelmts * size)) _ nelmts 0 nelmts u
      (λ e t he ht.
        for_down-Safe (Going (nelmts * size)) _ (size - 1 - (size * 8 - minbits) / 8 + 1) 0 t
          (λ k w _ hi hw.
            unpack_into-Safe packed (e * size + k) (nelmts * size) _ w
              (index-lt e k size nelmts he (omega arith)) (offset_bits_range size minbits k) hw)
          ht)
      (omega arith) g

cell_fits : (e size nelmts : ℕ) → e < nelmts → (e + 1) * size ≤ nelmts * size
cell_fits e size nelmts h = grind arith

cell_size : (e size : ℕ) → e * size + size ≡ (e + 1) * size
cell_size e size = omega arith

restore_cells-Safe :
    (value : ℕ → ℕ) (nelmts size : ℕ) (out : List ℕ)
    → Whole (nelmts * size) out
    → Safe (Whole (nelmts * size)) (restore_cells value nelmts size out)
unfolding restore_cells
restore_cells-Safe value nelmts size out h =
    for_each-Safe (Whole (nelmts * size)) _ nelmts 0 nelmts out
      (λ e t he ht.
        let fits = cell_fits e size nelmts he in
        >>=-Safe (λ (c : List ℕ). length c ≡ (e + 1) * size - e * size) (Whole (nelmts * size))
          (slice t (e * size) ((e + 1) * size)) _
          (slice-Safe t (e * size) ((e + 1) * size) (omega (arith, cell_size e size)) (omega arith))
          (λ cell _.
            Safe-mono (λ (o : List ℕ). length o ≡ length t) (Whole (nelmts * size)) _
              (λ o same. same ∙ ht)
              (write_at-Safe t (e * size) (to_le size (value (from_le cell)))
                (omega (arith, length-to_le size (value (from_le cell)), cell_size e size)))))
      (omega arith) h

abbrev Any : List ℕ → Type 0
Any out = Unit {0}

post_process-Safe :
    (floats : Floats) (cdata : List ℕ) (p : Params) (minbits minval : ℕ) (out : List ℕ)
    → Whole (p.nelmts * p.size) out
    → Answers (post_process floats cdata p minbits minval out)
unfolding post_process
post_process-Safe floats cdata p minbits minval out h =
    let cells =
      Safe-mono (Whole (p.nelmts * p.size)) Any _ (λ _ _. tt)
        (restore_cells-Safe (restore floats cdata p minbits minval) p.nelmts p.size out h) in
    elim (Bool-cases (p.class == 0)) [
      | inl int ↦ rw int cells
      | inr other ↦ elim (Bool-cases (p.class == 1 && p.scale_type == 0)) [
        | inl float ↦ elim (Bool-cases (p.size == 4 || p.size == 8 || p.nelmts == 0)) [
          | inl known ↦ rw (other, float, known) cells
          | inr unknown ↦ rw (other, float, unknown) tt
        ]
        | inr unsupported ↦ rw (other, unsupported) tt
      ]
    ]

read_params-Answers : (cdata : List ℕ) → Answers (read_params cdata)
unfolding read_params
read_params-Answers cdata =
    ensure-Safe (λ _. Unit {0}) (leb 8 (length cdata)) "scaleoffset: missing parameters" _
      λ h.
        let eight = leb→le 8 (length cdata) h in
        parameter-Safe (λ _. Unit {0}) cdata 0 _ (omega arith)
          λ scale_type.
            parameter-Safe (λ _. Unit {0}) cdata 1 _ (omega arith)
              λ scale_factor.
                parameter-Safe (λ _. Unit {0}) cdata 2 _ (omega arith)
                  λ nelmts.
                    parameter-Safe (λ _. Unit {0}) cdata 3 _ (omega arith)
                      λ class.
                        parameter-Safe (λ _. Unit {0}) cdata 4 _ (omega arith)
                          λ size.
                            parameter-Safe (λ _. Unit {0}) cdata 6 _ (omega arith)
                              λ order.
                                parameter-Safe (λ _. Unit {0}) cdata 7 _ (omega arith) λ fill. tt

unpack_start-Going : (n : ℕ) → Going n (unpack_start n)
unpack_start-Going n = record {
  size = length-replicate {A = ℕ} n 0;
  place = record { some_left = omega arith; a_byte = omega arith };
}

maybe_unpack-Safe :
    (input : List ℕ) (p : Params) (minbits : ℕ)
    → 1 ≤ p.size
    → Safe (Going (p.nelmts * p.size)) (
        if minbits == 0
        then ok (unpack_start (p.nelmts * p.size))
        else unpack_offsets
            (drop 21 input)
            p.nelmts
            p.size
            minbits
            (unpack_start (p.nelmts * p.size)))
maybe_unpack-Safe input p minbits some_size = elim (Bool-cases (minbits == 0)) [
  | inl none_packed ↦ rw none_packed (unpack_start-Going (p.nelmts * p.size))
  | inr some_packed ↦ rw some_packed (
      unpack_offsets-Safe (drop 21 input) p.nelmts p.size minbits _ some_size
        (unpack_start-Going (p.nelmts * p.size)))
]

size_check : (p : Params) → (leb 1 p.size && leb p.size 8) ≡ true → 1 ≤ p.size
size_check p h = ground arith

-- For every list of parameters and every data `scaleoffset_decompress` returns bytes or one of its
-- error messages: no index and no slice is out of range, whatever the file says.
pub scaleoffset_decompress-Answers :
    (floats : Floats) (cdata input : List ℕ) → Answers (scaleoffset_decompress floats cdata input)
unfolding scaleoffset_decompress
scaleoffset_decompress-Answers floats cdata input =
    >>=-Safe (λ _. Unit {0}) Any (read_params cdata) _ (read_params-Answers cdata)
      λ p _.
        ensure-Safe Any (p.order == 0) "scaleoffset: big-endian datasets are not supported" _ λ _.
          ensure-Safe Any (leb 1 p.size && leb p.size 8) "scaleoffset: bad element size" _ λ sizes.
            ensure-Safe Any (leb 21 (length input)) "scaleoffset: buffer too short" _ λ h.
              let enough = leb→le 21 (length input) h in
              >>=-Safe (λ (b : List ℕ). length b ≡ 4 - 0) Any (slice input 0 4) _
                (slice-Safe input 0 4 (omega arith) (omega arith))
                λ minbits_bytes _. parameter-Safe Any input 4 _ (omega arith) λ size_byte.
                  >>=-Safe (λ (b : List ℕ). length b ≡ 5 + min size_byte 8 - 5) Any
                    (slice input 5 (5 + min size_byte 8)) _
                    (slice-Safe input 5 (5 + min size_byte 8) (omega arith) (omega arith))
                    λ minval_bytes _.
                      ensure-Safe Any _ "scaleoffset: minbits exceeds type size" _ λ _.
                        >>=-Safe (Going (p.nelmts * p.size)) Any _ _
                          (maybe_unpack-Safe input p (from_le minbits_bytes) (size_check p sizes))
                          λ u g.
                            post_process-Safe floats cdata p (from_le minbits_bytes)
                              (from_le minval_bytes) u.out g.size
