-- ===== src/Filters/Pipeline/Masked.antt =====
-- The whole pipeline and its reverse, with the mask of the filters that were left out.
use hdf5_rs.Prelude.{
  ℕ, suc, ◌+◌, ◌≤◌, ◌<◌, ◌≡◌, refl, sym, ap, ◌∙◌, List, [], ◌∷◌, length, All, ◌==◌, if◌then◌else◌,
  ok, ◌>>=◌, >>=-eq-ok, not, Bool, true, false, Bool-cases, inl, inr, arith, bit_and, lt→ltb,
}
use hdf5_rs.Prelude.Bits.{◌<<<◌, zero-bit_and}
use hdf5_rs.Filters.Pipeline.{
  Codecs, RawFilter, apply_one, apply, reverse_one, is_skipped, reverse_from, reverse_masked,
  reverse,
}
use hdf5_rs.Filters.Pipeline.Invert.{CodecLaws, Lossless, reverse_one-apply_one}

abbrev pub bit_is_set : ℕ → ℕ → Bool
bit_is_set mask i = not (bit_and mask (1 <<< i) == 0)

-- The filters of the pipeline, from position `i` on, whose bit is clear in the mask.
abbrev pub kept : ℕ → ℕ → List RawFilter → List RawFilter
kept mask i [] = []
kept mask i (f ∷ fs) = if bit_is_set mask i then kept mask (suc i) fs else f ∷ kept mask (suc i) fs

is_skipped_lem : (mask i : ℕ) → i < 32 → is_skipped mask i ≡ ok (bit_is_set mask i)
unfolding is_skipped
is_skipped_lem mask i h = rw (lt→ltb i 32 h)

apply-cons :
    (c : Codecs) (f : RawFilter) (fs : List RawFilter) (es : ℕ) (bytes : List ℕ)
    → apply c (f ∷ fs) es bytes ≡ (apply_one c f es bytes >>= apply c fs es)
unfolding apply
apply-cons c f fs es bytes = refl

module _ (c : Codecs) (laws : CodecLaws c) (es mask : ℕ) where
  reverse_from_skip :
      (i : ℕ) (f : RawFilter) (fs : List RawFilter) (out buf : List ℕ)
      → i < 32
      → bit_is_set mask i ≡ true
      → reverse_from c (suc i) fs es out mask ≡ ok buf
      → reverse_from c i (f ∷ fs) es out mask ≡ ok buf
  unfolding reverse_from
  reverse_from_skip i f fs out buf h set e = rw (e, is_skipped_lem mask i h, set)

  reverse_from_step :
      (i : ℕ) (f : RawFilter) (fs : List RawFilter) (out buf : List ℕ)
      → i < 32
      → bit_is_set mask i ≡ false
      → reverse_from c (suc i) fs es out mask ≡ ok buf
      → reverse_from c i (f ∷ fs) es out mask ≡ reverse_one c f es buf
  unfolding reverse_from
  reverse_from_step i f fs out buf h clear e = rw (e, is_skipped_lem mask i h, clear)

  reverse_from-apply :
      (i : ℕ) (fs : List RawFilter) (bytes out : List ℕ)
      → i + length fs ≤ 32
      → All Lossless fs
      → apply c (kept mask i fs) es bytes ≡ ok out
      → reverse_from c i fs es out mask ≡ ok bytes
  reverse_from-apply i [] bytes out h l e = unfold apply reverse_from in sym e
  reverse_from-apply i (f ∷ fs) bytes out h (lf, ls) e = elim (Bool-cases (bit_is_set mask i)) [
    | inl set ↦
        reverse_from_skip i f fs out bytes (omega arith) set
          (reverse_from-apply (suc i) fs bytes out (omega arith) ls (rw set at e))
    | inr clear ↦
        let e' : apply c (f ∷ kept mask (suc i) fs) es bytes ≡ ok out = rw clear at e in
        let (buf, one, rest) =
          >>=-eq-ok (apply_one c f es bytes) (apply c (kept mask (suc i) fs) es)
            (sym (apply-cons c f (kept mask (suc i) fs) es bytes) ∙ e') in
        reverse_from_step i f fs out buf (omega arith) clear
          (reverse_from-apply (suc i) fs buf out (omega arith) ls rest)
        ∙ reverse_one-apply_one c f es bytes buf laws lf one
  ]

-- For every pipeline of at most 32 filters among zlib, shuffle, Fletcher's checksum, LZF and N-bit
-- that stores the chunk as it is, and every mask: what the filters with a clear bit made of the data
-- in order, `reverse_masked` with that mask turns back into the data, if zlib decodes what it
-- encodes.
pub reverse_masked-apply :
    (c : Codecs) (fs : List RawFilter) (es mask : ℕ) (bytes out : List ℕ)
    → CodecLaws c
    → length fs ≤ 32
    → All Lossless fs
    → apply c (kept mask 0 fs) es bytes ≡ ok out
    → reverse_masked c fs es out mask ≡ ok bytes
unfolding reverse_masked
reverse_masked-apply c fs es mask bytes out laws h l e =
    reverse_from-apply c laws es mask 0 fs bytes out (omega arith) l e

bit_of_zero : (i : ℕ) → bit_is_set 0 i ≡ false
bit_of_zero i = rw (zero-bit_and (1 <<< i))

kept_all : (i : ℕ) (fs : List RawFilter) → kept 0 i fs ≡ fs
kept_all i [] = refl
kept_all i (f ∷ fs) = rw (bit_of_zero i) (ap (◌∷◌ f) (kept_all (suc i) fs))

-- For every pipeline of at most 32 lossless filters, `reverse` undoes `apply`.
pub reverse-apply :
    (c : Codecs) (fs : List RawFilter) (es : ℕ) (bytes out : List ℕ)
    → CodecLaws c
    → length fs ≤ 32
    → All Lossless fs
    → apply c fs es bytes ≡ ok out
    → reverse c fs es out ≡ ok bytes
unfolding reverse
reverse-apply c fs es bytes out laws h l e =
    reverse_masked-apply c fs es 0 bytes out laws h l
      (ap (λ k. apply c k es bytes) (kept_all 0 fs) ∙ e)
