-- ===== src/Szip/Safety.antt =====
-- hdf5/src/format/szip.rs: the loops of the decoder end, whatever the stream holds.
use hdf5_rs.Prelude.{
  ℕ, zero, suc, ◌+◌, ◌-◌, ◌*◌, ◌%◌, ◌^◌, ◌≤◌, ◌≡◌, refl, arith, List, [], ◌∷◌, ◌++◌, length,
  get_elem?, Bool, Bool-cases, true, false, inl, inr, ltb, ◌==◌, ==_iff, not_ltb→le, ltb→lt, ◌&&◌,
  if◌then◌else◌, Option, none, some, ok, err, get_or, bit_and, not, ◌||◌, ensure-Safe, dec_le, Safe,
  Safe-mono, >>=-Safe, panic, out_of_fuel, ◌>>=◌, Result, assert, ◌>>◌,
}
use native.Mathlib.Nat.{div-lt_iff_lt-mul}
use hdf5_rs.Prelude.Arith.{div_ceil}
use hdf5_rs.Szip.{SzParams, params, given_params, are_valid, sz_raw_option_mask}
use hdf5_rs.Szip.Decode.{
  read_bits, read_pairs, entry_of, se_table, pair_of, read_low, read_split, low_block, split_block,
  block_of, read_block, end_block, decode_blocks, flush_rest, unmap_rsi, aec_decode, sz_decompress,
  id_len_for, xmax_of, flag,
}
use hdf5_rs.Szip.Stream.{
  end, Onward, if-Safe, bits-Safe, bits-Onward, fs-Safe, behind, read_bits-Safe, read_fs-Safe,
}

abbrev Whatever : {A : Type 0} → A → Type 0
Whatever a = Unit {0}

-- A value with the property or an error; a panic only where assertions are checked; never a lack of
-- fuel.
abbrev pub Calm : {A : Type 0} → (debug : Bool) → (A → Type 0) → Result A → Type 0
Calm debug P (ok a) = P a
Calm debug P (err e) = Unit {0}
Calm debug P panic = debug ≡ true
Calm debug P out_of_fuel = ⊥

>>=-Calm :
    {A B : Type 0} (debug : Bool) (P : A → Type 0) (Q : B → Type 0) (m : Result A)
    (f : A → Result B)
    → Calm debug P m
    → ((a : A) → P a → Calm debug Q (f a))
    → Calm debug Q (m >>= f)
>>=-Calm debug P Q (ok a) f h k = k a h
>>=-Calm debug P Q (err e) f h k = tt
>>=-Calm debug P Q panic f h k = h
>>=-Calm debug P Q out_of_fuel f h k = h

Calm-Safe : {A : Type 0} (debug : Bool) (P : A → Type 0) (m : Result A) → Safe P m → Calm debug P m
Calm-Safe debug P (ok a) h = h
Calm-Safe debug P (err e) h = tt
Calm-Safe debug P panic h = absurd h
Calm-Safe debug P out_of_fuel h = h

assert-Calm :
    {A : Type 0} (debug b : Bool) (P : A → Type 0) (m : Result A)
    → Calm debug P m
    → Calm debug P (assert (not debug || b) >> m)
assert-Calm false b P m h = h
assert-Calm true true P m h = h
assert-Calm true false P m h = refl

module _ (source : List ℕ) where
  -- A pair is not empty.
  pair-longer : (count m : ℕ) (e : ℕ × ℕ) → 1 ≤ length (pair_of count m e)
  pair-longer count m (i, start) = elim (Bool-cases (count % 2 == 0)) [
    | inl b ↦ rw b (omega arith)
    | inr b ↦ rw b (omega arith)
  ]

  entry_of-Safe : (gamma : ℕ) → Safe (λ _. Unit {0}) (entry_of gamma)
  unfolding entry_of
  entry_of-Safe gamma = looked_up (get_elem? se_table gamma)
    where
      looked_up :
          (o : Option (ℕ × ℕ))
          → Safe
              (λ _. Unit {0})
              (elim o [ none ↦ err "szip: bad second-extension gamma" | some e ↦ ok e ])
      looked_up none = tt
      looked_up (some e) = tt

  read_pairs-Safe :
      (fuel block_size count place : ℕ)
      → block_size ≤ count + fuel
      → place ≤ end source
      → Safe (Onward source place) (read_pairs fuel source block_size count place)
  unfolding read_pairs
  read_pairs-Safe zero block_size count place k h =
      if-Safe source (Onward source place) (ltb count block_size) _ _
        (λ b. absurd (omega (arith, ltb→lt count block_size b))) λ b. (omega arith, h)
  read_pairs-Safe (suc fuel) block_size count place k h =
      if-Safe source (Onward source place) (ltb count block_size) _ _
        (λ b. behind source place _ _ (fs-Safe source place h) λ r _ q.
          >>=-Safe (λ _. Unit {0}) (Onward source r.1) (entry_of r.0) _ (entry_of-Safe r.0)
            λ e _.
              behind source r.1 _ _
                (read_pairs-Safe fuel block_size (count + length (pair_of count r.0 e)) r.1
                  (omega (arith, pair-longer count r.0 e)) q)
                λ t _ u. (omega arith, u))
        λ b. (omega arith, h)

  read_low-Safe :
      (rsi block_size in_rsi : ℕ) (refflag : Bool) (id2 place : ℕ)
      → place ≤ end source
      → Safe (Onward source place) (read_low source rsi block_size in_rsi refflag id2 place)
  unfolding read_low
  read_low-Safe rsi block_size in_rsi refflag id2 place h =
      if-Safe source (Onward source place) (id2 == 1) _ _
        (λ b. read_pairs-Safe block_size block_size (flag refflag) place (omega arith) h)
        λ b. behind source place _ _ (fs-Safe source place h) λ r _ q. (omega arith, q)

  read_split-Safe :
      (k n place : ℕ)
      → place ≤ end source
      → Safe (Onward source place) (read_split source k n place)
  unfolding read_split
  read_split-Safe k n place h = behind source place _ _ (read_fs-Safe source k n place h) λ r _ q.
      behind source r.1 (if ltb 0 k then read_bits source k n r.1 else ok ([], r.1)) _
        (if-Safe source (Onward source r.1) (ltb 0 k) _ _ (λ b. read_bits-Safe source k n r.1 q)
          (λ b. (omega arith, q)))
        λ t _ u. (omega arith, u)

  low_block-Safe :
      (bps block_size rsi : ℕ) (refflag : Bool) (in_rsi place : ℕ)
      → place ≤ end source
      → Safe (Onward source place) (low_block source bps block_size rsi refflag in_rsi place)
  unfolding low_block
  low_block-Safe bps block_size rsi refflag in_rsi place h =
      behind source place _ _ (bits-Onward source 1 place h) λ id2 _ p.
        behind source id2.1 _ _ (read_bits-Safe source bps (flag refflag) id2.1 p) λ first _ q.
          behind source first.1 _ _ (read_low-Safe rsi block_size in_rsi refflag id2.0 first.1 q)
            λ rest _ u. (omega arith, u)

  split_block-Safe :
      (k bps block_size : ℕ) (refflag : Bool) (place : ℕ)
      → place ≤ end source
      → Safe (Onward source place) (split_block source k bps block_size refflag place)
  unfolding split_block
  split_block-Safe k bps block_size refflag place h =
      behind source place _ _ (read_bits-Safe source bps (flag refflag) place h) λ first _ q.
        behind source first.1 _ _ (read_split-Safe k (block_size - flag refflag) first.1 q)
          λ rest _ u. (omega arith, u)

  block_of-Safe :
      (id bps block_size rsi : ℕ) (refflag : Bool) (in_rsi place : ℕ)
      → place ≤ end source
      → Safe (Onward source place) (block_of source id bps block_size rsi refflag in_rsi place)
  unfolding block_of
  block_of-Safe id bps block_size rsi refflag in_rsi place h =
      if-Safe source (Onward source place) (id == 0) _ _
        (λ b. low_block-Safe bps block_size rsi refflag in_rsi place h)
        λ b.
          if-Safe source (Onward source place) (id == 2 ^ id_len_for bps - 1) _ _
            (λ c. read_bits-Safe source bps block_size place h)
            λ c. split_block-Safe (id - 1) bps block_size refflag place h

  id_len-pos : (bps : ℕ) → 1 ≤ id_len_for bps
  id_len-pos bps = ground arith

  -- Every block takes a bit at least.
  abbrev Further : {A : Type 0} → ℕ → A × ℕ → Type 0
  Further place r = (place + 1 ≤ r.1) × (r.1 ≤ end source)

  read_block-Safe :
      (bps block_size rsi : ℕ) (refflag : Bool) (in_rsi place : ℕ)
      → place ≤ end source
      → Safe (Further place) (read_block source bps block_size rsi refflag in_rsi place)
  unfolding read_block
  read_block-Safe bps block_size rsi refflag in_rsi place h =
      >>=-Safe (λ r. (r.1 ≡ place + id_len_for bps) × (r.1 ≤ end source)) (Further place) _ _
        (bits-Safe source (id_len_for bps) place h)
        λ id q.
          Safe-mono (Onward source id.1) (Further place) _
            (λ t u. (omega (arith, u.0, q.0, id_len-pos bps), u.1))
            (block_of-Safe id.0 bps block_size rsi refflag in_rsi id.1 q.1)

  unmap_rsi-Safe :
      (pp : Bool) (xmax : ℕ) (raw : List ℕ)
      → 1 ≤ length raw
      → Safe (λ _. Unit {0}) (unmap_rsi pp xmax raw)
  unfolding unmap_rsi
  unmap_rsi-Safe false xmax raw h = tt
  unmap_rsi-Safe true xmax [] h = absurd (omega arith)
  unmap_rsi-Safe true xmax (x ∷ xs) h = tt

module _ (debug : Bool) (source : List ℕ) where
  if-Calm :
      {A : Type 0} (P : A → Type 0) (b : Bool) (m n : Result A)
      → (b ≡ true → Calm debug P m)
      → (b ≡ false → Calm debug P n)
      → Calm debug P (if b then m else n)
  if-Calm P true m n h k = h refl
  if-Calm P false m n h k = k refl

  end_block-Calm :
      (pp : Bool) (xmax rsi_samples : ℕ) (raw out : List ℕ)
      → 1 ≤ rsi_samples
      → Calm debug Whatever (end_block debug pp xmax rsi_samples raw out)
  unfolding end_block
  end_block-Calm pp xmax rsi_samples raw out h =
      if-Calm Whatever (ltb (length raw) rsi_samples) _ _ (λ b. tt)
        λ b. assert-Calm debug (length raw == rsi_samples) Whatever _ (
          Calm-Safe debug Whatever _ (
            >>=-Safe Whatever Whatever (unmap_rsi pp xmax raw) _
              (unmap_rsi-Safe source pp xmax raw
                (omega (arith, not_ltb→le (length raw) rsi_samples b)))
              λ done _. tt))

  -- The fuel covers the bits that are left.
  decode_blocks-Calm :
      (fuel bps block_size rsi : ℕ) (pp : Bool) (n_samples : ℕ) (raw out : List ℕ) (place : ℕ)
      → 1 ≤ rsi * block_size
      → place ≤ end source
      → end source + 1 ≤ place + fuel
      → Calm debug Whatever
          (decode_blocks debug fuel source bps block_size rsi pp n_samples raw out place)
  unfolding decode_blocks
  decode_blocks-Calm zero bps block_size rsi pp n_samples raw out place r h k = absurd (omega arith)
  decode_blocks-Calm (suc fuel) bps block_size rsi pp n_samples raw out place r h k =
      if-Calm Whatever (ltb (length out) n_samples) _ _
        (λ b.
          >>=-Calm debug (Further source place) Whatever
            (read_block source bps block_size rsi (pp && length raw == 0) (length raw) place) _
            (Calm-Safe debug (Further source place) _ (
              read_block-Safe source bps block_size rsi (pp && length raw == 0) (length raw) place
                h))
            λ block q.
              >>=-Calm debug Whatever Whatever _ _
                (end_block-Calm pp (xmax_of bps) (rsi * block_size) (raw ++ block.0) out r)
                λ state _.
                  decode_blocks-Calm fuel bps block_size rsi pp n_samples state.0 state.1 block.1 r
                    q.1 (omega (arith, q.0)))
        λ b. tt

  flush_rest-Safe :
      (pp : Bool) (xmax : ℕ) (raw : List ℕ) → Safe (λ _. Unit {0}) (flush_rest pp xmax raw)
  unfolding flush_rest
  flush_rest-Safe pp xmax raw =
      if-Safe source (λ _. Unit {0}) (length raw == 0) _ _ (λ b. tt)
        λ b. unmap_rsi-Safe source pp xmax raw (grind (arith, ==_iff))

  aec_decode-Calm :
      (bps block_size rsi : ℕ) (pp : Bool) (n_samples : ℕ)
      → 1 ≤ rsi * block_size
      → Calm debug Whatever (aec_decode debug source bps block_size rsi pp n_samples)
  unfolding aec_decode
  aec_decode-Calm bps block_size rsi pp n_samples r =
      >>=-Calm debug Whatever Whatever _ _
        (decode_blocks-Calm (8 * length source + 1) bps block_size rsi pp n_samples [] [] 0 r
          (omega arith) (omega arith))
        λ state _.
          Calm-Safe debug Whatever _
            (>>=-Safe Whatever Whatever _ _ (flush_rest-Safe pp (xmax_of bps) state.0) λ rest _. tt)

neither : (a b : Bool) → not (a || b) ≡ true → (not a ≡ true) × (b ≡ false)
neither true b h = cc
neither false true h = cc
neither false false h = (refl, refl)

nonzero : (n : ℕ) → (n == 0) ≡ false → 1 ≤ n
nonzero n h = grind (arith, ==_iff)

not-not : (a : Bool) → not a ≡ true → a ≡ false
not-not true h = cc
not-not false h = refl

abbrev Sized : SzParams → Type 0
Sized p = (1 ≤ p.pps) × (1 ≤ p.ppb)

-- Parameters that are accepted have a line and a block of at least one pixel.
are_valid-Sized : (p : SzParams) → are_valid p ≡ true → Sized p
are_valid-Sized p h =
    let e = neither _ _ h in
    let d = neither _ _ e.0 in
    let c = neither _ _ d.0 in
    let b = neither _ _ c.0 in
    let a = neither _ _ b.0 in (nonzero p.pps (not-not (p.pps == 0) a.0), nonzero p.ppb b.1)

params-Sized : (cdata : List ℕ) → Safe Sized (params cdata)
unfolding params
params-Sized cdata =
    ensure-Safe Sized (not (ltb (length cdata) 4)) "szip: missing filter parameters" _ λ a.
      ensure-Safe Sized (are_valid (given_params cdata)) "szip: invalid parameters" _ λ b.
        ensure-Safe Sized (bit_and (get_or cdata 0 0) sz_raw_option_mask == 0)
          "szip: raw option not supported" (ok (given_params cdata))
          λ c. are_valid-Sized (given_params cdata) b

div_ceil-pos : (a b : ℕ) → 1 ≤ a → 1 ≤ b → 1 ≤ div_ceil a b
div_ceil-pos a b h k = elim (dec_le 1 (div_ceil a b)) [
  | yes q ↦ q
  | no q ↦
      let below =
        (div-lt_iff_lt-mul {k = b} {x = a + b - 1} {y = 1} (omega arith)).0 (omega arith) in
      absurd (omega arith)
]

-- Whatever parameters and bytes a file holds, the loops of `sz_decompress` end: with bytes, an error
-- message or, only in a build that checks assertions, a panic. The fuel of the loop over blocks, one
-- unit for each bit of the stream and one more, does not run out. Memory has no bound.
pub sz_decompress-Calm :
    (debug : Bool) (cdata source : List ℕ) (out_len : ℕ)
    → Calm debug Whatever (sz_decompress debug cdata source out_len)
unfolding sz_decompress
sz_decompress-Calm debug cdata source out_len =
    >>=-Calm debug Sized Whatever (params cdata) _
      (Calm-Safe debug Sized (params cdata) (params-Sized cdata))
      λ p (lines, blocks).
        >>=-Calm debug Whatever Whatever _ _
          (aec_decode-Calm debug source _ p.ppb (div_ceil p.pps p.ppb) _ _
            (grind (arith, div_ceil-pos p.pps p.ppb lines blocks)))
          λ samples _. tt
