-- ===== src/Filters/Runs.antt =====
-- Concrete runs of the filters, and the theorems at concrete inputs.
use hdf5_rs.Prelude.{
  ℕ, ◌+◌, ◌/◌, ◌%◌, ◌^◌, ◌<◌, ◌≤◌, ◌≡◌, ◌↔◌, refl, List, [], ◌∷◌, ◌++◌, arith, ok, err, Result, inl,
  Answers, ◌>>=◌, panic, false, All, ◌≢◌,
}
use hdf5_rs.Prelude.Loops.{for_each, for_down}
use hdf5_rs.Prelude.Bytes.{to_le}
use hdf5_rs.Filters.Shuffle.{shuffle, unshuffle}
use hdf5_rs.Filters.Shuffle.RoundTrip.{unshuffle-shuffle}
use hdf5_rs.Filters.Fletcher.{fletcher32}
use hdf5_rs.Filters.Fletcher.Spec.{plain, word_sum, prefix_sum}
use hdf5_rs.Filters.Fletcher.Congruence.{fletcher32_congruent}
use hdf5_rs.Filters.Lzf.{lzf_compress, lzf_decompress, encode_step, is_match, take_match, lzf_hash}
use hdf5_rs.Filters.Lzf.Format.{Decodes}
use hdf5_rs.Filters.Lzf.Decode.{lzf_decompress-Answers, lzf_decompress_iff}
use hdf5_rs.Filters.Lzf.Encode.{lzf_decompress-lzf_compress}
use hdf5_rs.Filters.BitStream.{Place, unpack_bits}
use hdf5_rs.Filters.BitStream.Laws.{Moved, unpack_bits_moves}
use hdf5_rs.Filters.NBit.{nbit_decompress}
use hdf5_rs.Filters.NBit.Safety.{nbit_decompress-Answers}
use hdf5_rs.Filters.ScaleOffset.{
  Floats, read_params, fill_bytes, offset_bits, unpack_offsets, restore, restore_cells,
  post_process, scaleoffset_decompress,
}
use hdf5_rs.Filters.ScaleOffset.Encode.{
  scaleoffset_compress, read_cells, integer_plan, key_range, as_key, so_log2, bit_length,
  encode_chunk,
}
use hdf5_rs.Filters.ScaleOffset.Safety.{scaleoffset_decompress-Answers}
use hdf5_rs.Filters.NBit.{unpack_into}
use hdf5_rs.Filters.Pipeline.{
  Codecs, RawFilter, apply, apply_one, shuffle_size, reverse_masked, check_fletcher32,
}
use hdf5_rs.Filters.Pipeline.Invert.{CodecLaws, Lossless, check_fletcher32_detects}
use hdf5_rs.Filters.Pipeline.Masked.{kept, reverse_masked-apply}

-- Two elements of three bytes, and one byte behind them.
abbrev seven : List ℕ
seven = 1 ∷ 2 ∷ 3 ∷ 4 ∷ 5 ∷ 6 ∷ 7 ∷ []

shuffle-seven : shuffle 3 seven ≡ 1 ∷ 4 ∷ 2 ∷ 5 ∷ 3 ∷ 6 ∷ 7 ∷ []
unfolding shuffle
shuffle-seven = refl

unshuffle-shuffle_example : unshuffle 3 (shuffle 3 seven) ≡ seven
unshuffle-shuffle_example = unshuffle-shuffle 3 seven

fletcher_seven : fletcher32 seven ≡ 0x1e20_100c
unfolding fletcher32
fletcher_seven = refl

fletcher32_congruent_example :
    (fletcher32 seven < 2 ^ 32)
    × (fletcher32 seven % 65536 % 65535 ≡ word_sum seven % 65535)
    × (fletcher32 seven / 65536 % 65535 ≡ prefix_sum seven % 65535)
fletcher32_congruent_example = fletcher32_congruent seven (omega arith)

-- Three times the same four bytes: a literal run and one copy that runs over its own start.
abbrev thrice : List ℕ
thrice = 1 ∷ 2 ∷ 3 ∷ 4 ∷ 1 ∷ 2 ∷ 3 ∷ 4 ∷ 1 ∷ 2 ∷ 3 ∷ 4 ∷ 5 ∷ []

abbrev packed_thrice : List ℕ
packed_thrice = 3 ∷ 1 ∷ 2 ∷ 3 ∷ 4 ∷ 192 ∷ 3 ∷ 0 ∷ 5 ∷ []

compress_thrice : lzf_compress thrice ≡ ok packed_thrice
unfolding lzf_compress encode_step is_match take_match lzf_hash
compress_thrice = refl

decompress_thrice : lzf_decompress packed_thrice ≡ ok thrice
unfolding lzf_decompress
decompress_thrice = refl

decompress_far :
    lzf_decompress (0 ∷ 9 ∷ 32 ∷ 1 ∷ []) ≡ err "lzf: back reference before start of output"
unfolding lzf_decompress
decompress_far = refl

lzf_decompress-lzf_compress_example : (lzf_compress thrice >>= lzf_decompress) ≡ ok thrice
lzf_decompress-lzf_compress_example = lzf_decompress-lzf_compress thrice

lzf_decompress-Answers_example : Answers (lzf_decompress (224 ∷ 255 ∷ []))
lzf_decompress-Answers_example = lzf_decompress-Answers (224 ∷ 255 ∷ []) (omega arith)

lzf_decompress_iff_example :
    (lzf_decompress packed_thrice ≡ ok thrice) ↔ Decodes packed_thrice [] thrice
lzf_decompress_iff_example = lzf_decompress_iff packed_thrice thrice (omega arith)

-- Six bits, the last three of one byte and the first three of the next.
abbrev middle : Place
middle = record { j = 0; bits_to_fill = 3 }

abbrev two_bytes : List ℕ
two_bytes = 0b1010_1101 ∷ 0b0110_0001 ∷ []

unpack_middle :
    unpack_bits two_bytes middle 6 0 ≡ ok (0b10_1011, record { j = 1; bits_to_fill = 5 })
unfolding unpack_bits
unpack_middle = refl

unpack_bits_moves_example :
    (5 + 6 ≤ 16 → (r : ℕ × Place) × (unpack_bits two_bytes middle 6 0 ≡ ok r) × Moved middle 6 r)
    × (16 < 5 + 6 → unpack_bits two_bytes middle 6 0 ≡ err "bit-packed stream too short")
unpack_bits_moves_example =
    unpack_bits_moves two_bytes middle 6 0
      (record { some_left = omega arith; a_byte = omega arith }) (omega arith) (omega arith)

-- An output longer than any allocation
nbit_vast : nbit_decompress (8 ∷ 0 ∷ 0xffffffff ∷ 1 ∷ 0xffffffff ∷ 0 ∷ 1 ∷ 0 ∷ []) [] ≡ panic
unfolding nbit_decompress hdf5_rs.Filters.NBit.decode_atomic
nbit_vast = refl

nbit_decompress-Answers_example :
    Answers (nbit_decompress (8 ∷ 0 ∷ 2 ∷ 1 ∷ 2 ∷ 0 ∷ 12 ∷ 0 ∷ []) two_bytes)
nbit_decompress-Answers_example =
    nbit_decompress-Answers (8 ∷ 0 ∷ 2 ∷ 1 ∷ 2 ∷ 0 ∷ 12 ∷ 0 ∷ []) two_bytes (omega arith)

-- Float arithmetic is not run here.
abbrev no_floats : Floats
no_floats = record { rescale = λ _ _ _ _. 0; plan = λ _ _. ok (0, 0, []) }

-- Two unsigned bytes, no fill value.
abbrev byte_pair : List ℕ
byte_pair = 2 ∷ 0 ∷ 2 ∷ 0 ∷ 1 ∷ 0 ∷ 0 ∷ 0 ∷ []

abbrev there_and_back : List ℕ → Result (List ℕ)
there_and_back bytes =
    scaleoffset_compress no_floats byte_pair bytes >>= scaleoffset_decompress no_floats byte_pair

narrow_pair : there_and_back (30 ∷ 55 ∷ []) ≡ ok (30 ∷ 55 ∷ [])
unfolding scaleoffset_compress scaleoffset_decompress read_params fill_bytes offset_bits
    unpack_offsets restore restore_cells post_process read_cells integer_plan key_range as_key
    so_log2 bit_length encode_chunk unpack_into unpack_bits for_each for_down
narrow_pair = refl

-- A range that takes all eight bits does not survive: the encoder stores the values themselves, and
-- the decoder adds the smallest one.
wide_pair : there_and_back (1 ∷ 255 ∷ []) ≡ ok (2 ∷ 0 ∷ [])
unfolding scaleoffset_compress scaleoffset_decompress read_params fill_bytes offset_bits
    unpack_offsets restore restore_cells post_process read_cells integer_plan key_range as_key
    so_log2 bit_length encode_chunk unpack_into unpack_bits for_each for_down
wide_pair = refl

scaleoffset_decompress-Answers_example :
    Answers (scaleoffset_decompress no_floats byte_pair (255 ∷ 255 ∷ []))
scaleoffset_decompress-Answers_example =
    scaleoffset_decompress-Answers no_floats byte_pair (255 ∷ 255 ∷ [])

-- Codecs that copy.
abbrev copying : Codecs
copying = record {
  zlib_encode = λ _ bytes. ok bytes;
  zlib_decode = λ bytes. ok bytes;
  blosc_compress = λ _ _ _ _ bytes. ok bytes;
  blosc_decompress = λ bytes. ok bytes;
  szip_enabled = false;
  sz_compress = λ _ bytes. ok bytes;
  sz_decompress = λ _ bytes _. ok bytes;
  floats = no_floats;
}

copying_laws : CodecLaws copying
copying_laws = record { zlib = λ _ bytes out h. cc }

abbrev shuffle_then_sum : List RawFilter
shuffle_then_sum = record { id = 2; cdata = [] } ∷ record { id = 3; cdata = [] } ∷ []

shuffle_then_sum-Lossless : All Lossless shuffle_then_sum
shuffle_then_sum-Lossless = (Lossless.shuffled refl, (Lossless.summed refl, tt))

-- Bit 1 of the mask: the checksum was left out.
only_shuffled :
    apply copying (kept 2 0 shuffle_then_sum) 3 seven ≡ ok (1 ∷ 4 ∷ 2 ∷ 5 ∷ 3 ∷ 6 ∷ 7 ∷ [])
unfolding apply apply_one shuffle_size shuffle
only_shuffled = refl

reverse_masked-apply_example :
    reverse_masked copying shuffle_then_sum 3 (1 ∷ 4 ∷ 2 ∷ 5 ∷ 3 ∷ 6 ∷ 7 ∷ []) 2 ≡ ok seven
reverse_masked-apply_example =
    reverse_masked-apply copying shuffle_then_sum 3 2 seven (1 ∷ 4 ∷ 2 ∷ 5 ∷ 3 ∷ 6 ∷ 7 ∷ [])
      copying_laws (omega arith) shuffle_then_sum-Lossless only_shuffled

-- The checksum of `seven` does not fit the bytes with one of them changed.
abbrev damaged : List ℕ
damaged = 1 ∷ 2 ∷ 3 ∷ 4 ∷ 5 ∷ 6 ∷ 8 ∷ []

sums_of_damaged : word_sum damaged % 65535 ≢ word_sum seven % 65535
unfolding plain
sums_of_damaged = omega arith

check_fletcher32_detects_example :
    check_fletcher32 (damaged ++ to_le 4 (fletcher32 seven)) ≡ err "fletcher32 checksum mismatch"
check_fletcher32_detects_example =
    check_fletcher32_detects damaged seven (omega arith) (omega arith) (inl sums_of_damaged)
