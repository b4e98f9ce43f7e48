-- ===== src/Messages/RoundTrip/LinkFlags.antt =====
-- The flags of a link and the fields that they announce.
use hdf5_rs.Prelude.{
  ℕ, suc, ◌^◌, ◌<◌, ◌≡◌, refl, arith, List, [], ◌∷◌, length-append, Bool, true, false, Bool-cases,
  inl, inr, ◌==◌, ==_iff, ltb, ltb→lt, bit_and, if◌then◌else◌,
}
use hdf5_rs.Prelude.Bytes.{to_le}
use native.Mathlib.Nat.{mod-eq_of_lt}
use hdf5_rs.Buffer.{read_u8, read_uint}
use hdf5_rs.Buffer.Fields.{number-middle}
use hdf5_rs.Buffer.Parser.{Reads, pure-Reads, u8-Reads}
use hdf5_rs.Buffer.Writing.{Writes, raw-Writes, skip-Writes}
use hdf5_rs.Messages.LinkMessage.{len_class, link_flags, write_if, write_len, read_if}

abbrev pub bytes_if : Bool → ℕ → List ℕ
bytes_if true v = v ∷ []
bytes_if false v = []

abbrev pub len_code : ℕ → ℕ → List ℕ
len_code class n = to_le (2 ^ class) n

pub data IsClass (n : ℕ) : ℕ → Type 0 where
  one_byte : n < 2 ^ 8 → IsClass n 0
  two_bytes : n < 2 ^ 16 → IsClass n 1
  four_bytes : n < 2 ^ 32 → IsClass n 2

pub len_class-IsClass : (n : ℕ) → n < 2 ^ 32 → IsClass n (len_class n)
len_class-IsClass n h = elim (Bool-cases (ltb n 0x100)) [
  | inl e ↦ rw e (one_byte (ltb→lt n 0x100 e))
  | inr e ↦ rw e (elim (Bool-cases (ltb n 0x10000)) [
    | inl e' ↦ rw e' (two_bytes (ltb→lt n 0x10000 e'))
    | inr e' ↦ rw e' (four_bytes h)
  ])
]

pub len-Writes : {n class : ℕ} → IsClass n class → Writes (write_len class n) (len_code class n)
unfolding write_len
len-Writes {n} (one_byte h) = raw-Writes (to_le 1 n)
len-Writes {n} (two_bytes h) = rw (mod-eq_of_lt h) (raw-Writes (to_le 2 n))
len-Writes {n} (four_bytes h) = rw (mod-eq_of_lt h) (raw-Writes (to_le 4 n))

pub len-Reads : {n class : ℕ} → IsClass n class → Reads (read_uint (2 ^ class)) (len_code class n) n
unfolding read_uint
len-Reads {n} (one_byte h) = record {
  run =
      λ pre post. rw (length-append pre (to_le 1 n)) (number-middle 1 n pre post (mod-eq_of_lt h));
}
len-Reads {n} (two_bytes h) = record {
  run =
      λ pre post. rw (length-append pre (to_le 2 n)) (number-middle 2 n pre post (mod-eq_of_lt h));
}
len-Reads {n} (four_bytes h) = record {
  run =
      λ pre post. rw (length-append pre (to_le 4 n)) (number-middle 4 n pre post (mod-eq_of_lt h));
}

-- What the flags say: that a type stands in the message, no order, a charset, and the class.
abbrev pub Flags : ℕ → Bool → Bool → ℕ → Type 0
Flags class typed utf8 flags =
    (bit_and flags 0x08 ≡ (if typed then 8 else 0))
    × (bit_and flags 0x04 ≡ 0)
    × (bit_and flags 0x10 ≡ (if utf8 then 16 else 0))
    × (bit_and flags 0x03 ≡ class)

pub link_flags-Flags :
    {n class : ℕ}
    → IsClass n class
    → (typed utf8 : Bool) → Flags class typed utf8 (link_flags class typed utf8)
unfolding link_flags
link_flags-Flags (one_byte h) true true = (refl, refl, refl, refl)
link_flags-Flags (one_byte h) true false = (refl, refl, refl, refl)
link_flags-Flags (one_byte h) false true = (refl, refl, refl, refl)
link_flags-Flags (one_byte h) false false = (refl, refl, refl, refl)
link_flags-Flags (two_bytes h) true true = (refl, refl, refl, refl)
link_flags-Flags (two_bytes h) true false = (refl, refl, refl, refl)
link_flags-Flags (two_bytes h) false true = (refl, refl, refl, refl)
link_flags-Flags (two_bytes h) false false = (refl, refl, refl, refl)
link_flags-Flags (four_bytes h) true true = (refl, refl, refl, refl)
link_flags-Flags (four_bytes h) true false = (refl, refl, refl, refl)
link_flags-Flags (four_bytes h) false true = (refl, refl, refl, refl)
link_flags-Flags (four_bytes h) false false = (refl, refl, refl, refl)

pub optional-Reads :
    (on : Bool) (k v : ℕ)
    → Reads (read_if (if on then suc k else 0) read_u8) (bytes_if on v) (if on then v else 0)
optional-Reads true k v =
    let ne : (suc k == 0) ≡ false = grind (arith, ==_iff) in rw ne (u8-Reads v)
optional-Reads false k v = pure-Reads 0

pub optional-Writes : (on : Bool) (v : ℕ) → Writes (write_if on v) (bytes_if on v)
optional-Writes true v = raw-Writes (v ∷ [])
optional-Writes false v = skip-Writes
