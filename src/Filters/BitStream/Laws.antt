-- ===== src/Filters/BitStream/Laws.antt =====
-- What `unpack_bits` reads, by the number of bits before a place.
use hdf5_rs.Prelude.{
  ℕ, ◌+◌, ◌-◌, ◌*◌, ◌<◌, ◌≤◌, ◌≡◌, refl, List, length, ◌==◌, ok, err, arith, true, false, Safe,
  dec_lt, ℕ_discrete,
}
use hdf5_rs.Prelude.{lt→ltb, le→not_ltb}
use hdf5_rs.Prelude.Bytes.{index-eq-get_or}
use hdf5_rs.Filters.BitStream.{Place, unpack_bits}

-- How many bits of the stream lie before the place.
abbrev pub position : Place → ℕ
position p = 8 * p.j + (8 - p.bits_to_fill)

pub record IsPlace (p : Place) : Type 0 where
  pub some_left : 1 ≤ p.bits_to_fill
  pub a_byte : p.bits_to_fill ≤ 8

-- The place is `n` bits further on.
pub record Moved (p : Place) (n : ℕ) (r : ℕ × Place) : Type 0 where
  pub place : IsPlace r.1
  pub by : position r.1 ≡ position p + n

module _ (packed : List ℕ) (p : Place) (n dat_offset : ℕ) where
  stops :
      length packed ≤ p.j → unpack_bits packed p n dat_offset ≡ err "bit-packed stream too short"
  unfolding unpack_bits
  stops h = rw (le→not_ltb p.j (length packed) h)

  within_byte :
      p.j < length packed
      → n < p.bits_to_fill
      → (b : ℕ) × (unpack_bits packed p n dat_offset
          ≡ ok (b, record { j = p.j; bits_to_fill = p.bits_to_fill - n }))
  unfolding unpack_bits
  within_byte h k =
      rw (lt→ltb p.j (length packed) h, index-eq-get_or packed p.j 0 h, lt→ltb n p.bits_to_fill k)
        (_, refl)

  to_end :
      p.j < length packed
      → n ≡ p.bits_to_fill
      → (b : ℕ) × (unpack_bits packed p n dat_offset
          ≡ ok (b, record { j = p.j + 1; bits_to_fill = 8 }))
  unfolding unpack_bits
  to_end h k =
      let none_left : (n - p.bits_to_fill == 0) ≡ true = ground arith in
      rw
        (
          lt→ltb p.j (length packed) h,
          index-eq-get_or packed p.j 0 h,
          le→not_ltb n p.bits_to_fill (omega arith),
          none_left,
        )
        (_, refl)

  module _ (h : p.j < length packed) (k : p.bits_to_fill < n) where
    some_more : (n - p.bits_to_fill == 0) ≡ false
    some_more = ground arith

    into_next :
        p.j + 1 < length packed
        → (b : ℕ) × (unpack_bits packed p n dat_offset
            ≡ ok (b, record { j = p.j + 1; bits_to_fill = 8 - (n - p.bits_to_fill) }))
    unfolding unpack_bits
    into_next next =
        rw
          (
            lt→ltb p.j (length packed) h,
            index-eq-get_or packed p.j 0 h,
            le→not_ltb n p.bits_to_fill (omega arith),
            some_more,
            lt→ltb (p.j + 1) (length packed) next,
            index-eq-get_or packed (p.j + 1) 0 next,
          )
          (_, refl)

    stops_between :
        length packed ≤ p.j + 1
        → unpack_bits packed p n dat_offset ≡ err "bit-packed stream too short"
    unfolding unpack_bits
    stops_between next = rw (
      lt→ltb p.j (length packed) h,
      index-eq-get_or packed p.j 0 h,
      le→not_ltb n p.bits_to_fill (omega arith),
      some_more,
      le→not_ltb (p.j + 1) (length packed) next,
    )

-- The two answers, by the number of bits that the stream has.
data Answer (packed : List ℕ) (p : Place) (n dat_offset : ℕ) : Type 0 where
  short :
      8 * length packed < position p + n
      → unpack_bits packed p n dat_offset ≡ err "bit-packed stream too short"
      → Answer packed p n dat_offset
  enough :
      (r : ℕ × Place)
      → position p + n ≤ 8 * length packed
      → unpack_bits packed p n dat_offset ≡ ok r
      → Moved p n r
      → Answer packed p n dat_offset

answer :
    (packed : List ℕ) (p : Place) (n dat_offset : ℕ)
    → IsPlace p
    → 1 ≤ n
    → n ≤ 8
    → Answer packed p n dat_offset
answer packed p n d v lo hi = elim (dec_lt p.j (length packed)) [
  | no out ↦ short (omega (arith, v)) (stops packed p n d (omega arith))
  | yes here ↦ elim (dec_lt n p.bits_to_fill) [
    | yes few ↦
        let (b, e) = within_byte packed p n d here few in
        enough _ (omega (arith, v)) e record {
          place = record { some_left = omega arith; a_byte = omega (arith, v) };
          by = omega (arith, v);
        }
    | no many ↦ elim (ℕ_discrete n p.bits_to_fill) [
      | yes same ↦
          let (b, e) = to_end packed p n d here same in
          enough _ (omega (arith, v)) e record {
            place = record { some_left = omega arith; a_byte = omega arith };
            by = omega (arith, v);
          }
      | no other ↦ elim (dec_lt (p.j + 1) (length packed)) [
        | yes next ↦
            let (b, e) = into_next packed p n d here (omega arith) next in
            enough _ (omega (arith, v)) e record {
              place = record { some_left = omega (arith, v); a_byte = omega arith };
              by = omega (arith, v);
            }
        | no none_next ↦
            short (omega (arith, v)) (stops_between packed p n d here (omega arith) (omega arith))
      ]
    ]
  ]
]

-- With `n` bits to read, from one to eight, `unpack_bits` succeeds exactly when the stream has them
-- after the place, and moves the place by `n`; otherwise it reports that the stream is too short.
pub unpack_bits_moves :
    (packed : List ℕ) (p : Place) (n dat_offset : ℕ)
    → IsPlace p
    → 1 ≤ n
    → n ≤ 8
    → (position p + n ≤ 8 * length packed
        → (r : ℕ × Place) × (unpack_bits packed p n dat_offset ≡ ok r) × Moved p n r)
      × (8 * length packed < position p + n
          → unpack_bits packed p n dat_offset ≡ err "bit-packed stream too short")
unpack_bits_moves packed p n dat_offset v lo hi = elim (answer packed p n dat_offset v lo hi) [
  | short less e ↦ (λ h. absurd (omega arith), λ _. e)
  | enough r fits e m ↦ ((λ _. (r, e, m)), λ h. absurd (omega arith))
]

pub unpack_bits-Safe :
    (packed : List ℕ) (p : Place) (n dat_offset : ℕ)
    → IsPlace p
    → 1 ≤ n
    → n ≤ 8
    → Safe (λ (r : ℕ × Place). IsPlace r.1) (unpack_bits packed p n dat_offset)
unpack_bits-Safe packed p n dat_offset v lo hi = elim (answer packed p n dat_offset v lo hi) [
  | short less e ↦ rw e tt
  | enough r fits e m ↦ rw e m.place
]
