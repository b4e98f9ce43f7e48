-- ===== src/Szip.antt =====
-- hdf5/src/format/szip.rs: the options of the codec, the order of bytes and samples around it, and
-- the padding of lines. Its children are the streams of bits, the decoder and the encoder.
pub mod BitIo
pub mod Decode
pub mod Encode
pub mod Mapping
pub mod Interleave
pub mod Stream
pub mod Safety
mod Runs
use hdf5_rs.Prelude.{
  ℕ, zero, suc, ◌+◌, ◌-◌, ◌*◌, ◌/◌, ◌%◌, ◌^◌, min, List, [], ◌∷◌, ◌++◌, length, get_or, take, drop,
  replicate, map, Bool, true, false, ◌&&◌, ◌||◌, not, ltb, leb, ◌==◌, bit_and, if◌then◌else◌,
  Option, none, some, Result, ok, err, panic, out_of_fuel, ◌>>=◌, ◌>>◌, ensure,
}
use hdf5_rs.Prelude.Bytes.{to_le, from_le}
use hdf5_rs.Prelude.Arith.{div_ceil}
use hdf5_rs.Filters.Shuffle.{scatter}

abbrev pub sz_msb_option_mask : ℕ
sz_msb_option_mask = 16

abbrev pub sz_nn_option_mask : ℕ
sz_nn_option_mask = 32

abbrev pub sz_raw_option_mask : ℕ
sz_raw_option_mask = 128

pub record SzParams : Type 0 where
  pub mask : ℕ
  pub bpp : ℕ
  pub ppb : ℕ
  pub pps : ℕ

-- The conditions on the parameters.
abbrev pub are_valid : SzParams → Bool
are_valid p = not (
    p.pps == 0
    || ltb 4096 p.pps
    || p.ppb == 0
    || p.ppb % 2 == 1
    || p.bpp == 0
    || (ltb 32 p.bpp && not (p.bpp == 64)))

abbrev pub given_params : List ℕ → SzParams
given_params cdata = record {
  mask = get_or cdata 0 0;
  bpp = get_or cdata 1 0;
  ppb = get_or cdata 2 0;
  pps = get_or cdata 3 0;
}

unfoldable pub params : List ℕ → Result SzParams
params cdata =
    ensure (not (ltb (length cdata) 4)) "szip: missing filter parameters"
    >> (ensure (are_valid (given_params cdata)) "szip: invalid parameters"
        >> (ensure (bit_and (get_or cdata 0 0) sz_raw_option_mask == 0)
              "szip: raw option not supported"
            >> ok (given_params cdata)))

-- `out[j * words + i] = src[i * ws + j]`, for each word `i` and each of its bytes `j`
unfoldable pub interleave : List ℕ → ℕ → List ℕ
unfolding scatter
interleave src ws =
    let n = length src in
    let words = n / ws in
    scatter (λ i j. j * words + i) (λ i j. get_or src (i * ws + j) 0) words ws (replicate n 0)

-- `out[i * ws + j] = src[j * words + i]`
unfoldable pub deinterleave : List ℕ → ℕ → List ℕ
unfolding scatter
deinterleave src ws =
    let n = length src in
    let words = n / ws in
    scatter (λ i j. i * ws + j) (λ i j. get_or src (j * words + i) 0) words ws (replicate n 0)

-- `from_be_bytes` and `from_le_bytes` on a list of bytes
abbrev pub backwards : List ℕ → List ℕ → List ℕ
backwards [] out = out
backwards (x ∷ xs) out = backwards xs (x ∷ out)

abbrev pub ordered : Bool → List ℕ → List ℕ
ordered msb bytes = if msb then backwards bytes [] else bytes

-- `chunks_exact(2)` and `chunks_exact(4)`: a shorter rest is left out.
unfoldable pub pairs_of : Bool → List ℕ → List ℕ
pairs_of msb [] = []
pairs_of msb (a ∷ []) = []
pairs_of msb (a ∷ (b ∷ rest)) = from_le (ordered msb (a ∷ (b ∷ []))) ∷ pairs_of msb rest

unfoldable pub quads_of : Bool → List ℕ → List ℕ
quads_of msb [] = []
quads_of msb (a ∷ []) = []
quads_of msb (a ∷ (b ∷ [])) = []
quads_of msb (a ∷ (b ∷ (c ∷ []))) = []
quads_of msb (a ∷ (b ∷ (c ∷ (d ∷ rest)))) =
    from_le (ordered msb (a ∷ (b ∷ (c ∷ (d ∷ []))))) ∷ quads_of msb rest

unfoldable pub to_samples : List ℕ → ℕ → Bool → List ℕ
unfolding pairs_of quads_of
to_samples bytes bps msb =
    if leb bps 8 then bytes else (if leb bps 16 then pairs_of msb bytes else quads_of msb bytes)

-- The bytes of a sample: one, two or four.
abbrev pub pixel_bytes : ℕ → ℕ
pixel_bytes bps = if leb bps 8 then 1 else (if leb bps 16 then 2 else 4)

unfoldable pub from_samples : List ℕ → ℕ → Bool → List ℕ
from_samples [] bps msb = []
from_samples (s ∷ samples) bps msb =
    ordered msb (to_le (pixel_bytes bps) s) ++ from_samples samples bps msb

abbrev pub pixel_size : ℕ → ℕ
pixel_size bps = if ltb 16 bps then 4 else (if ltb 8 bps then 2 else 1)

abbrev pub is_interleaved : SzParams → Bool
is_interleaved p = p.bpp == 32 || p.bpp == 64

abbrev pub coded_bits : SzParams → ℕ
coded_bits p = if is_interleaved p then 8 else p.bpp
