-- ===== src/Szip/Runs.antt =====
-- Runs of the codec, with blocks of two samples.
use hdf5_rs.Prelude.{
  ℕ, ◌^◌, ◌<◌, ◌≡◌, refl, arith, List, [], ◌∷◌, All, true, false, ok, err, ◌>>=◌, panic,
}
use hdf5_rs.Szip.{interleave, deinterleave}
use hdf5_rs.Szip.Decode.{xmax_of, aec_decode, unmap_rsi, sz_decompress}
use hdf5_rs.Szip.Encode.{map_rsi, aec_encode, sz_compress}
use hdf5_rs.Szip.Mapping.{unmap_rsi-map_rsi}
use hdf5_rs.Szip.Safety.{Calm, sz_decompress-Calm}
use hdf5_rs.Szip.Interleave.{deinterleave-interleave}

abbrev line : List ℕ
line = 7 ∷ 9 ∷ 250 ∷ 3 ∷ []

line-all : All (λ s. s < 2 ^ 8) line
line-all = (omega arith, (omega arith, (omega arith, (omega arith, tt))))

unmap_rsi-map_rsi_example : unmap_rsi true (xmax_of 8) (map_rsi true (xmax_of 8) line) ≡ ok line
unmap_rsi-map_rsi_example =
    unmap_rsi-map_rsi true 8 7 (9 ∷ 250 ∷ 3 ∷ []) (omega arith) (omega arith) line-all

deinterleave-interleave_example : deinterleave (interleave line 2) 2 ≡ line
deinterleave-interleave_example = deinterleave-interleave line 2 2 (omega arith) refl

-- A whole segment comes back.
aec_whole : aec_decode true (aec_encode line 8 2 2 true) 8 2 2 true 4 ≡ ok line
unfolding aec_decode aec_encode
aec_whole = refl

-- Half a segment does not: the decoder asks for blocks that the encoder has not written.
aec_half :
    aec_decode true (aec_encode (7 ∷ 9 ∷ []) 8 2 2 true) 8 2 2 true 2 ≡ err "szip: stream truncated"
unfolding aec_decode aec_encode
aec_half = refl

-- A segment of two blocks, in which 25 blocks of zeros are announced
aec_too_long : aec_decode true (0x00 ∷ 0x00 ∷ 0x00 ∷ 0x04 ∷ []) 8 2 2 false 4 ≡ panic
unfolding aec_decode
aec_too_long = refl

-- Nearest neighbour, 8 bits, blocks of two pixels and lines of three, which are padded.
abbrev odd_lines : List ℕ
odd_lines = 32 ∷ 8 ∷ 2 ∷ 3 ∷ []

abbrev two_lines : List ℕ
two_lines = 1 ∷ 2 ∷ 3 ∷ 4 ∷ 5 ∷ 6 ∷ []

sz_padded :
    (sz_compress odd_lines two_lines >>= λ s. sz_decompress true odd_lines s 6) ≡ ok two_lines
unfolding sz_compress sz_decompress
sz_padded = refl

sz_decompress-Calm_example :
    Calm false (λ _. Unit {0}) (sz_decompress false odd_lines (0xff ∷ 0x10 ∷ []) 6)
sz_decompress-Calm_example = sz_decompress-Calm false odd_lines (0xff ∷ 0x10 ∷ []) 6
