-- ===== src/Filters/Pipeline/Invert.antt =====
-- One filter and its reverse.
use hdf5_rs.Prelude.{
  ℕ, ◌+◌, ◌-◌, ◌/◌, ◌%◌, ◌^◌, ◌<◌, ◌≤◌, ◌≡◌, ◌≢◌, refl, sym, ap, ◌∙◌, List, ◌++◌, length, get_or,
  ◌==◌, ok, err, ◌>>=◌, not, arith, true, false, min, All, ◌⊎◌, Bool-cases, inl, inr,
}
use hdf5_rs.Prelude.{length-append, take-append, drop-append, le→leb, ==_iff}
use hdf5_rs.Prelude.Bits.{bit_or-lt}
use hdf5_rs.Prelude.Bytes.{IsByte, to_le, from_le, from_le-to_le, length-to_le, index-eq-get_or}
use hdf5_rs.Filters.Shuffle.{shuffle, unshuffle}
use hdf5_rs.Filters.Shuffle.RoundTrip.{unshuffle-shuffle}
use hdf5_rs.Filters.Fletcher.{fletcher32}
use hdf5_rs.Filters.Fletcher.Spec.{word_sum, prefix_sum}
use hdf5_rs.Filters.Fletcher.Congruence.{fletcher32_congruent}
use hdf5_rs.Filters.Lzf.{lzf_compress, lzf_decompress}
use hdf5_rs.Filters.Lzf.Encode.{lzf_decompress-lzf_compress}
use hdf5_rs.Filters.NBit.{nbit_decompress}
use hdf5_rs.Filters.Pipeline.{
  Codecs, RawFilter, filter_deflate, filter_shuffle, filter_fletcher32, filter_nbit, filter_lzf,
  apply_one, reverse_one, check_fletcher32, shuffle_size,
}

-- What the documentation of zlib promises: decoding gives back what was encoded.
pub record CodecLaws (c : Codecs) : Type 0 where
  pub zlib :
      (level : ℕ) (bytes out : List ℕ)
      → c.zlib_encode level bytes ≡ ok out
      → c.zlib_decode out ≡ ok bytes

-- The filters that lose nothing, without blosc, whose frame has a length of 32 bits. N-bit is one of them when its parameters say that the chunk is
-- stored as it is.
pub data Lossless (f : RawFilter) : Type 0 where
  deflate : f.id ≡ filter_deflate → Lossless f
  shuffled : f.id ≡ filter_shuffle → Lossless f
  summed : f.id ≡ filter_fletcher32 → Lossless f
  lzf : f.id ≡ filter_lzf → Lossless f
  stored : f.id ≡ filter_nbit → 3 ≤ length f.cdata → get_or f.cdata 1 0 ≢ 0 → Lossless f

fletcher32-lt : (bytes : List ℕ) → fletcher32 bytes < 2 ^ 32
unfolding fletcher32
fletcher32-lt bytes = bit_or-lt 32 _ _ (omega arith) (omega arith)

-- A checksum at the end of the bytes is found correct.
pub check_fletcher32_own :
    (bytes : List ℕ) → check_fletcher32 (bytes ++ to_le 4 (fletcher32 bytes)) ≡ ok bytes
unfolding check_fletcher32
check_fletcher32_own bytes =
    let sum = to_le 4 (fletcher32 bytes) in
    let size : length (bytes ++ sum) ≡ length bytes + 4 =
      omega (arith, length-append bytes sum, length-to_le 4 (fletcher32 bytes)) in
    let body : length (bytes ++ sum) - 4 ≡ length bytes = omega (arith, size) in
    let value : from_le sum ≡ fletcher32 bytes =
      from_le-to_le 4 (fletcher32 bytes) ∙ omega (arith, fletcher32-lt bytes) in
    rw (
      le→leb 4 (length (bytes ++ sum)) (omega (arith, size)),
      body,
      take-append bytes sum,
      drop-append bytes sum,
      value,
      (==_iff (fletcher32 bytes) (fletcher32 bytes)).1 refl,
    )

nbit_verbatim :
    (cdata bytes : List ℕ)
    → 3 ≤ length cdata
    → get_or cdata 1 0 ≢ 0
    → nbit_decompress cdata bytes ≡ ok bytes
unfolding nbit_decompress
nbit_verbatim cdata bytes h ne =
    let test : not (get_or cdata 1 0 == 0) ≡ true = ground arith in
    rw (le→leb 3 (length cdata) h, index-eq-get_or cdata 1 0 (omega arith), test)

ok-injective : {a b : List ℕ} → ok a ≡ ok b → a ≡ b
ok-injective h = cc

-- What the two dispatches come to, filter by filter.
module _ (c : Codecs) (f : RawFilter) (es : ℕ) (bytes : List ℕ) where
  apply_deflate :
      f.id ≡ filter_deflate
      → apply_one c f es bytes ≡ c.zlib_encode (min (get_or f.cdata 0 6) 9) bytes
  unfolding apply_one
  apply_deflate e = rw e

  apply_shuffle :
      f.id ≡ filter_shuffle → apply_one c f es bytes ≡ ok (shuffle (shuffle_size f es) bytes)
  unfolding apply_one
  apply_shuffle e = rw e

  apply_sum :
      f.id ≡ filter_fletcher32 → apply_one c f es bytes ≡ ok (bytes ++ to_le 4 (fletcher32 bytes))
  unfolding apply_one
  apply_sum e = rw e

  apply_lzf : f.id ≡ filter_lzf → apply_one c f es bytes ≡ lzf_compress bytes
  unfolding apply_one
  apply_lzf e = rw e

  apply_nbit : f.id ≡ filter_nbit → apply_one c f es bytes ≡ ok bytes
  unfolding apply_one
  apply_nbit e = elim (Bool-cases c.szip_enabled) [ inl on ↦ rw (e, on) | inr off ↦ rw (e, off) ]

  reverse_deflate : f.id ≡ filter_deflate → reverse_one c f es bytes ≡ c.zlib_decode bytes
  unfolding reverse_one
  reverse_deflate e = rw e

  reverse_shuffle :
      f.id ≡ filter_shuffle → reverse_one c f es bytes ≡ ok (unshuffle (shuffle_size f es) bytes)
  unfolding reverse_one
  reverse_shuffle e = rw e

  reverse_sum : f.id ≡ filter_fletcher32 → reverse_one c f es bytes ≡ check_fletcher32 bytes
  unfolding reverse_one
  reverse_sum e = rw e

  reverse_lzf : f.id ≡ filter_lzf → reverse_one c f es bytes ≡ lzf_decompress bytes
  unfolding reverse_one
  reverse_lzf e = rw e

  reverse_nbit : f.id ≡ filter_nbit → reverse_one c f es bytes ≡ nbit_decompress f.cdata bytes
  unfolding reverse_one
  reverse_nbit e = rw e

-- A filter that loses nothing is undone by its reverse.
pub reverse_one-apply_one :
    (c : Codecs) (f : RawFilter) (es : ℕ) (bytes out : List ℕ)
    → CodecLaws c
    → Lossless f
    → apply_one c f es bytes ≡ ok out
    → reverse_one c f es out ≡ ok bytes
reverse_one-apply_one c f es bytes out laws (deflate e) h =
    reverse_deflate c f es out e ∙ laws.zlib _ bytes out (sym (apply_deflate c f es bytes e) ∙ h)
reverse_one-apply_one c f es bytes out laws (shuffled e) h =
    let same = ok-injective (sym (apply_shuffle c f es bytes e) ∙ h) in
    reverse_shuffle c f es out e
    ∙ ap (λ o. ok (unshuffle (shuffle_size f es) o)) (sym same)
    ∙ ap ok (unshuffle-shuffle (shuffle_size f es) bytes)
reverse_one-apply_one c f es bytes out laws (summed e) h =
    let same = ok-injective (sym (apply_sum c f es bytes e) ∙ h) in
    reverse_sum c f es out e ∙ ap check_fletcher32 (sym same) ∙ check_fletcher32_own bytes
reverse_one-apply_one c f es bytes out laws (lzf e) h =
    let runs : lzf_compress bytes ≡ ok out = sym (apply_lzf c f es bytes e) ∙ h in
    reverse_lzf c f es out e
    ∙ ap (λ r. r >>= lzf_decompress) (sym runs)
    ∙ lzf_decompress-lzf_compress bytes
reverse_one-apply_one c f es bytes out laws (stored e size ne) h =
    let same = ok-injective (sym (apply_nbit c f es bytes e) ∙ h) in
    reverse_nbit c f es out e
    ∙ ap (nbit_decompress f.cdata) (sym same)
    ∙ nbit_verbatim f.cdata bytes size ne

sums_differ :
    (body other : List ℕ)
    → All IsByte body
    → All IsByte other
    → (word_sum body % 65535 ≢ word_sum other % 65535)
      ⊎ (prefix_sum body % 65535 ≢ prefix_sum other % 65535)
    → fletcher32 other ≢ fletcher32 body
sums_differ body other vb vo (inl low) e = low (
    sym (fletcher32_congruent body vb).1
    ∙ ap (λ k. k % 65536 % 65535) (sym e)
    ∙ (fletcher32_congruent other vo).1)
sums_differ body other vb vo (inr high) e = high (
    sym (fletcher32_congruent body vb).2
    ∙ ap (λ k. k / 65536 % 65535) (sym e)
    ∙ (fletcher32_congruent other vo).2)

-- A body that stands behind the checksum of another one is refused with the message of a mismatch,
-- if the plain sums of the two differ modulo 65535.
pub check_fletcher32_detects :
    (body other : List ℕ)
    → All IsByte body
    → All IsByte other
    → (word_sum body % 65535 ≢ word_sum other % 65535)
      ⊎ (prefix_sum body % 65535 ≢ prefix_sum other % 65535)
    → check_fletcher32 (body ++ to_le 4 (fletcher32 other)) ≡ err "fletcher32 checksum mismatch"
unfolding check_fletcher32
check_fletcher32_detects body other vb vo differ =
    let sum = to_le 4 (fletcher32 other) in
    let size : length (body ++ sum) ≡ length body + 4 =
      omega (arith, length-append body sum, length-to_le 4 (fletcher32 other)) in
    let front : length (body ++ sum) - 4 ≡ length body = omega (arith, size) in
    let value : from_le sum ≡ fletcher32 other =
      from_le-to_le 4 (fletcher32 other) ∙ omega (arith, fletcher32-lt other) in
    let mismatch : (fletcher32 other == fletcher32 body) ≡ false =
      ground (arith, sums_differ body other vb vo differ) in
    rw (
      le→leb 4 (length (body ++ sum)) (omega (arith, size)),
      front,
      take-append body sum,
      drop-append body sum,
      value,
      mismatch,
    )
