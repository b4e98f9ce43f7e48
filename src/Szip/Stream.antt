-- ===== src/Szip/Stream.antt =====
-- Reading from a stream of bits: the place moves on, and ends inside the stream or in an error.
use hdf5_rs.Prelude.{
  ℕ, zero, suc, ◌+◌, ◌-◌, ◌*◌, ◌/◌, ◌≤◌, ◌≡◌, refl, arith, List, length, Bool, true, false, ltb,
  leb, ◌==◌, not_leb→lt, if◌then◌else◌, Result, ◌>>=◌, Safe, Safe-mono, >>=-Safe,
}
use hdf5_rs.Prelude.Bits.{◌<<<◌}
use hdf5_rs.Szip.BitIo.{bits, bits_from, fs, fs_from, bit_at}
use hdf5_rs.Szip.Decode.{read_bits, read_fs}

module _ (source : List ℕ) where
  abbrev pub end : ℕ
  end = 8 * length source

  -- The place moves on and stays inside the stream.
  abbrev pub Onward : {A : Type 0} → ℕ → A × ℕ → Type 0
  Onward place r = (place ≤ r.1) × (r.1 ≤ end)

  pub if-Safe :
      {A : Type 0} (P : A → Type 0) (b : Bool) (m n : Result A)
      → (b ≡ true → Safe P m)
      → (b ≡ false → Safe P n)
      → Safe P (if b then m else n)
  if-Safe P true m n h k = h refl
  if-Safe P false m n h k = k refl

  bits_from-Safe :
      (n v place : ℕ)
      → place ≤ end
      → Safe (λ r. (r.1 ≡ place + n) × (r.1 ≤ end)) (bits_from source n v place)
  unfolding bits_from
  bits_from-Safe zero v place h = (omega arith, h)
  bits_from-Safe (suc n) v place h =
      if-Safe (λ r. (r.1 ≡ place + suc n) × (r.1 ≤ end)) (leb (length source) (place / 8)) _ _
        (λ b. tt)
        λ b.
          let inside = not_leb→lt (length source) (place / 8) b in
          Safe-mono (λ r. (r.1 ≡ place + 1 + n) × (r.1 ≤ end))
            (λ r. (r.1 ≡ place + suc n) × (r.1 ≤ end)) _ (λ r q. (omega (arith, q.0), q.1))
            (bits_from-Safe n _ (place + 1) (omega arith))

  fs_from-Safe :
      (fuel n place : ℕ)
      → place ≤ end
      → end + 1 ≤ place + fuel
      → Safe (Onward place) (fs_from fuel source n place)
  unfolding fs_from
  fs_from-Safe zero n place h k = absurd (omega arith)
  fs_from-Safe (suc fuel) n place h k =
      if-Safe (Onward place) (leb (length source) (place / 8)) _ _ (λ b. tt)
        λ b.
          let inside = not_leb→lt (length source) (place / 8) b in
          if-Safe (Onward place) (bit_at source place == 1) _ _ (λ c. (omega arith, omega arith))
            λ c.
              if-Safe (Onward place) (ltb (1 <<< 28) (n + 1)) _ _ (λ d. tt)
                λ d.
                  Safe-mono (Onward (place + 1)) (Onward place) _ (λ r q. (omega (arith, q.0), q.1))
                    (fs_from-Safe fuel (n + 1) (place + 1) (omega arith) (omega arith))

  pub bits-Safe :
      (n place : ℕ)
      → place ≤ end
      → Safe (λ r. (r.1 ≡ place + n) × (r.1 ≤ end)) (bits source n place)
  unfolding bits
  bits-Safe n place h = bits_from-Safe n 0 place h

  pub bits-Onward : (n place : ℕ) → place ≤ end → Safe (Onward place) (bits source n place)
  bits-Onward n place h =
      Safe-mono (λ r. (r.1 ≡ place + n) × (r.1 ≤ end)) (Onward place) _
        (λ r q. (omega (arith, q.0), q.1)) (bits-Safe n place h)

  pub fs-Safe : (place : ℕ) → place ≤ end → Safe (Onward place) (fs source place)
  unfolding fs
  fs-Safe place h = fs_from-Safe (end - place + 1) 0 place h (omega arith)

  -- One step behind another.
  pub behind :
      {A B : Type 0} (place : ℕ) (m : Result (A × ℕ)) (f : A × ℕ → Result (B × ℕ))
      → Safe (Onward place) m
      → ((r : A × ℕ) → place ≤ r.1 → r.1 ≤ end → Safe (Onward r.1) (f r))
      → Safe (Onward place) (m >>= f)
  behind place m f h k = >>=-Safe (Onward place) (Onward place) m f h λ r q.
      Safe-mono (Onward r.1) (Onward place) (f r) (λ t u. (omega (arith, u.0, q.0), u.1))
        (k r q.0 q.1)

  pub read_bits-Safe :
      (width n place : ℕ) → place ≤ end → Safe (Onward place) (read_bits source width n place)
  unfolding read_bits
  read_bits-Safe width zero place h = (omega arith, h)
  read_bits-Safe width (suc n) place h =
      behind place _ _ (bits-Onward width place h)
        λ r _ q. behind r.1 _ _ (read_bits-Safe width n r.1 q) λ t _ u. (omega arith, u)

  pub read_fs-Safe : (k n place : ℕ) → place ≤ end → Safe (Onward place) (read_fs source k n place)
  unfolding read_fs
  read_fs-Safe k zero place h = (omega arith, h)
  read_fs-Safe k (suc n) place h =
      behind place _ _ (fs-Safe place h)
        λ r _ q. behind r.1 _ _ (read_fs-Safe k n r.1 q) λ t _ u. (omega arith, u)
