-- ===== src/Filters/Pipeline.antt =====
-- `apply`, `reverse` and `reverse_masked`: the chain of filters of a chunk, forward and back.
pub mod Invert
pub mod Masked
use hdf5_rs.Prelude.{
  ℕ, suc, ◌+◌, ◌-◌, ◌%◌, ◌^◌, min, max, bit_and, List, [], ◌∷◌, ◌++◌, length, take, drop, get_elem?,
  get_or, leb, ltb, ◌==◌, if◌then◌else◌, Option, none, some, Result, ok, err, ◌>>=◌, ◌>>◌, ensure,
  assert, not, Bool, ◌&&◌,
}
use hdf5_rs.Prelude.Bits.{◌<<<◌}
use hdf5_rs.Prelude.Bytes.{to_le, from_le}
use hdf5_rs.Filters.Shuffle.{shuffle, unshuffle}
use hdf5_rs.Filters.Fletcher.{fletcher32}
use hdf5_rs.Filters.Lzf.{lzf_compress, lzf_decompress}
use hdf5_rs.Filters.NBit.{nbit_decompress}
use hdf5_rs.Filters.ScaleOffset.{Floats, scaleoffset_decompress}
use hdf5_rs.Filters.ScaleOffset.Encode.{scaleoffset_compress}

-- The codecs that the pipeline calls: flate2's zlib, and the functions of the modules blosc and szip,
-- which any function may stand for. `szip_enabled` is the cargo feature of that name.
pub record Codecs : Type 0 where
  pub zlib_encode : (level : ℕ) → List ℕ → Result (List ℕ)
  pub zlib_decode : List ℕ → Result (List ℕ)
  pub blosc_compress : (format clevel shuffle typesize : ℕ) → List ℕ → Result (List ℕ)
  pub blosc_decompress : List ℕ → Result (List ℕ)
  pub szip_enabled : Bool
  pub sz_compress : (cdata : List ℕ) → List ℕ → Result (List ℕ)
  pub sz_decompress : (cdata : List ℕ) → List ℕ → ℕ → Result (List ℕ)
  pub floats : Floats

-- A filter's id and client data. The name plays no part in the pipeline.
pub record RawFilter : Type 0 where
  pub id : ℕ
  pub cdata : List ℕ

abbrev pub filter_deflate : ℕ
filter_deflate = 1

abbrev pub filter_shuffle : ℕ
filter_shuffle = 2

abbrev pub filter_fletcher32 : ℕ
filter_fletcher32 = 3

abbrev pub filter_szip : ℕ
filter_szip = 4

abbrev pub filter_nbit : ℕ
filter_nbit = 5

abbrev pub filter_scaleoffset : ℕ
filter_scaleoffset = 6

abbrev pub filter_lzf : ℕ
filter_lzf = 32000

abbrev pub filter_blosc : ℕ
filter_blosc = 32001

-- The compressor code of the filter against the format id of the frame.
unfoldable pub blosc_format : ℕ → ℕ
blosc_format code =
    if code == 1
    then 1
    else if code == 2
    then 1
    else if code == 3
    then 2
    else if code == 4
    then 3
    else if code == 5
    then 4
    else 0

unfoldable pub shuffle_size : RawFilter → ℕ → ℕ
shuffle_size f element_size = max (get_or f.cdata 0 element_size) 1

unfoldable pub apply_one : Codecs → RawFilter → ℕ → List ℕ → Result (List ℕ)
apply_one c f element_size bytes =
    if f.id == filter_deflate
    then c.zlib_encode (min (get_or f.cdata 0 6) 9) bytes
    else if f.id == filter_shuffle
    then ok (shuffle (shuffle_size f element_size) bytes)
    else if f.id == filter_fletcher32
    then ok (bytes ++ to_le 4 (fletcher32 bytes))
    else if f.id == filter_lzf
    then lzf_compress bytes
    else if f.id == filter_blosc
    then c.blosc_compress (blosc_format (get_or f.cdata 6 0)) (get_or f.cdata 4 5 % 2 ^ 8)
        (get_or f.cdata 5 1 % 2 ^ 8) (max (get_or f.cdata 2 (element_size % 2 ^ 32)) 1) bytes
    else if f.id == filter_scaleoffset
    then scaleoffset_compress c.floats f.cdata bytes
    else if c.szip_enabled && f.id == filter_szip
    then (c.sz_compress f.cdata bytes >>= λ s. ok (to_le 4 (length bytes % 2 ^ 32) ++ s))
    else if f.id == filter_nbit
    then ok bytes
    else err "filter id is not supported for writing"

unfoldable pub check_fletcher32 : List ℕ → Result (List ℕ)
check_fletcher32 bytes = do
  ensure (leb 4 (length bytes)) "fletcher32: data too short"
  let body = take (length bytes - 4) bytes
  let stored = from_le (drop (length bytes - 4) bytes)
  ensure (stored == fletcher32 body) "fletcher32 checksum mismatch"
  ok body

unfoldable pub open_szip : Codecs → List ℕ → List ℕ → Result (List ℕ)
open_szip c cdata bytes = do
  ensure (leb 4 (length bytes)) "szip: chunk too short"
  c.sz_decompress cdata (drop 4 bytes) (from_le (take 4 bytes))

unfoldable pub reverse_one : Codecs → RawFilter → ℕ → List ℕ → Result (List ℕ)
reverse_one c f element_size bytes =
    if f.id == filter_deflate
    then c.zlib_decode bytes
    else if f.id == filter_shuffle
    then ok (unshuffle (shuffle_size f element_size) bytes)
    else if f.id == filter_fletcher32
    then check_fletcher32 bytes
    else if f.id == filter_lzf
    then lzf_decompress bytes
    else if f.id == filter_scaleoffset
    then scaleoffset_decompress c.floats f.cdata bytes
    else if f.id == filter_nbit
    then nbit_decompress f.cdata bytes
    else if f.id == filter_blosc
    then c.blosc_decompress bytes
    else if c.szip_enabled && f.id == filter_szip
    then open_szip c f.cdata bytes
    else err "filter id is not supported for reading"

unfoldable pub apply : Codecs → List RawFilter → ℕ → List ℕ → Result (List ℕ)
apply c [] element_size bytes = ok bytes
apply c (f ∷ fs) element_size bytes = do
  buf ← apply_one c f element_size bytes
  apply c fs element_size buf

-- `filter_mask & (1 << i) != 0`; the shift of a `u32` by more than 31 panics.
unfoldable pub is_skipped : ℕ → ℕ → Result Bool
is_skipped mask i = do assert (ltb i 32); ok (not (bit_and mask (1 <<< i) == 0))

-- The filters from position `i` on, the last one first.
unfoldable pub reverse_from : Codecs → ℕ → List RawFilter → ℕ → List ℕ → ℕ → Result (List ℕ)
reverse_from c i [] element_size bytes mask = ok bytes
reverse_from c i (f ∷ fs) element_size bytes mask = do
  buf ← reverse_from c (suc i) fs element_size bytes mask
  skipped ← is_skipped mask i
  if skipped then ok buf else reverse_one c f element_size buf

unfoldable pub reverse_masked : Codecs → List RawFilter → ℕ → List ℕ → ℕ → Result (List ℕ)
unfolding reverse_from
reverse_masked c filters element_size bytes mask = reverse_from c 0 filters element_size bytes mask

unfoldable pub reverse : Codecs → List RawFilter → ℕ → List ℕ → Result (List ℕ)
reverse c filters element_size bytes = reverse_masked c filters element_size bytes 0
