-- ===== src/Szip/Decode.antt =====
-- `aec_decode` and `sz_decompress`. `debug` says whether the build checks assertions.
use hdf5_rs.Prelude.{
  ℕ, zero, suc, ◌+◌, ◌-◌, ◌*◌, ◌/◌, ◌%◌, ◌^◌, min, List, [], ◌∷◌, ◌++◌, length, get_elem?, take,
  drop, replicate, Bool, true, false, ◌&&◌, ◌||◌, not, ltb, leb, ◌==◌, bit_and, bit_xor,
  if◌then◌else◌, none, some, Result, ok, err, panic, out_of_fuel, ◌>>=◌, ◌>>◌, assert,
}
use hdf5_rs.Prelude.Bits.{◌<<<◌, ◌>>>◌}
use hdf5_rs.Szip.{
  params, div_ceil, from_samples, deinterleave, pixel_size, is_interleaved, coded_bits,
  sz_nn_option_mask, sz_msb_option_mask,
}
use hdf5_rs.Szip.BitIo.{bits, fs}

abbrev pub id_len_for : ℕ → ℕ
id_len_for bps = if ltb 16 bps then 5 else (if ltb 8 bps then 4 else 3)

-- `u32::MAX` for 32 bits, too
abbrev pub xmax_of : ℕ → ℕ
xmax_of bps = 2 ^ bps - 1

-- `se_table`: for each value of the second extension its group and where the group starts.
abbrev pub se_groups : (groups i start : ℕ) → List (ℕ × ℕ)
se_groups zero i start = []
se_groups (suc groups) i start =
    replicate (i + 1) (i, start) ++ se_groups groups (i + 1) (start + i + 1)

unfoldable pub se_table : List (ℕ × ℕ)
se_table = se_groups 13 0 0

-- One difference undone: the next sample after `sample`.
unfoldable pub unmap_step : ℕ → ℕ → ℕ → ℕ
unmap_step xmax sample d =
    let med = xmax / 2 + 1 in
    let half_d = (d >>> 1) + bit_and d 1 in
    let mask = if bit_and sample med == 0 then 0 else xmax in
    if leb half_d (bit_xor mask sample)
    then (if bit_and d 1 == 1
        then (sample + 2 ^ 32 - ((d >>> 1) + 1)) % 2 ^ 32
        else (sample + (d >>> 1)) % 2 ^ 32)
    else bit_xor mask d

unfoldable pub unmap_loop : ℕ → ℕ → List ℕ → List ℕ
unfolding unmap_step
unmap_loop xmax sample [] = []
unmap_loop xmax sample (d ∷ ds) =
    let next = unmap_step xmax sample d in next ∷ unmap_loop xmax next ds

-- `unmap_rsi`: what it appends to the samples.
unfoldable pub unmap_rsi : Bool → ℕ → List ℕ → Result (List ℕ)
unfolding unmap_loop
unmap_rsi false xmax raw = ok raw
unmap_rsi true xmax [] = panic
unmap_rsi true xmax (first ∷ rest) = ok (first ∷ unmap_loop xmax first rest)

-- Samples and the place in the stream.
abbrev pub Read : Type 0
Read = List ℕ × ℕ

-- `n` numbers of `width` bits
unfoldable pub read_bits : List ℕ → ℕ → ℕ → ℕ → Result Read
unfolding bits
read_bits source width zero place = ok ([], place)
read_bits source width (suc n) place = do
  first ← bits source width place
  rest ← read_bits source width n first.1
  ok (first.0 ∷ rest.0, rest.1)

-- `raw.push(r.fs()? << k)`, `n` times
unfoldable pub read_fs : List ℕ → ℕ → ℕ → ℕ → Result Read
unfolding fs
read_fs source k zero place = ok ([], place)
read_fs source k (suc n) place = do
  first ← fs source place
  rest ← read_fs source k n first.1
  ok (((first.0 <<< k) % 2 ^ 32) ∷ rest.0, rest.1)

-- `raw[base + i] += …`
abbrev pub add_each : List ℕ → List ℕ → List ℕ
add_each [] ys = []
add_each (x ∷ xs) [] = x ∷ xs
add_each (x ∷ xs) (y ∷ ys) = (x + y) ∷ add_each xs ys

-- The pairs of the second extension: of the first pair of a block with a reference sample only the
-- second number is used.
abbrev pub pair_of : ℕ → ℕ → ℕ × ℕ → List ℕ
pair_of count m (i, start) =
    let d1 = m - start in if count % 2 == 0 then (i - d1) ∷ (d1 ∷ []) else d1 ∷ []

unfoldable pub entry_of : ℕ → Result (ℕ × ℕ)
unfolding se_table
entry_of gamma = elim (get_elem? se_table gamma) [
  | none ↦ err "szip: bad second-extension gamma"
  | some e ↦ ok e
]

unfoldable pub read_pairs : ℕ → List ℕ → (block_size count place : ℕ) → Result Read
unfolding fs entry_of
read_pairs zero source block_size count place =
    if ltb count block_size then out_of_fuel else ok ([], place)
read_pairs (suc fuel) source block_size count place =
    let next = fs source place >>= λ gamma. entry_of gamma.0 >>= λ entry.
    read_pairs fuel source block_size (count + length (pair_of count gamma.0 entry)) gamma.1
    >>= λ rest. ok (pair_of count gamma.0 entry ++ rest.0, rest.1) in
    if ltb count block_size then next else ok ([], place)

-- The number of zero blocks, from a fundamental sequence.
abbrev pub ros : ℕ
ros = 5

unfoldable pub zero_blocks_of : (rsi block_size samples fsv : ℕ) → ℕ
zero_blocks_of rsi block_size samples fsv =
    let b = samples / block_size in
    if fsv + 1 == ros
    then min (rsi - b) (64 - b % 64)
    else (if ltb ros (fsv + 1) then fsv else fsv + 1)

abbrev pub flag : Bool → ℕ
flag refflag = if refflag then 1 else 0

abbrev pub zero_samples : (rsi block_size in_rsi references fsv : ℕ) → List ℕ
zero_samples rsi block_size in_rsi references fsv =
    replicate (zero_blocks_of rsi block_size (in_rsi + references) fsv * block_size - references) 0

-- A block of low entropy behind its reference sample.
unfoldable pub read_low :
    List ℕ → (rsi block_size in_rsi : ℕ) → Bool → (id2 place : ℕ) → Result Read
unfolding read_pairs zero_blocks_of fs
read_low source rsi block_size in_rsi refflag id2 place =
    if id2 == 1
    then read_pairs block_size source block_size (flag refflag) place
    else (fs source place >>= λ fsv.
        ok (zero_samples rsi block_size in_rsi (flag refflag) fsv.0, fsv.1))

-- A block of split samples: the high parts, then the low parts of `k` bits.
unfoldable pub read_split : List ℕ → (k n place : ℕ) → Result Read
unfolding read_fs read_bits
read_split source k n place = do
  high ← read_fs source k n place
  low ← (if ltb 0 k then read_bits source k n high.1 else ok ([], high.1))
  ok (add_each high.0 low.0, low.1)

-- The samples of one block, by its id: of low entropy, as they are, or split.
unfoldable pub low_block :
    List ℕ → (bps block_size rsi : ℕ) → (refflag : Bool) → (in_rsi place : ℕ) → Result Read
unfolding bits read_bits read_low
low_block source bps block_size rsi refflag in_rsi place = do
  id2 ← bits source 1 place
  first ← read_bits source bps (flag refflag) id2.1
  rest ← read_low source rsi block_size in_rsi refflag id2.0 first.1
  ok (first.0 ++ rest.0, rest.1)

unfoldable pub split_block :
    List ℕ → (k bps block_size : ℕ) → (refflag : Bool) → (place : ℕ) → Result Read
unfolding read_bits read_split
split_block source k bps block_size refflag place = do
  first ← read_bits source bps (flag refflag) place
  rest ← read_split source k (block_size - flag refflag) first.1
  ok (first.0 ++ rest.0, rest.1)

unfoldable pub block_of :
    List ℕ → (id bps block_size rsi : ℕ) → (refflag : Bool) → (in_rsi place : ℕ) → Result Read
unfolding read_bits low_block split_block
block_of source id bps block_size rsi refflag in_rsi place =
    if id == 0
    then low_block source bps block_size rsi refflag in_rsi place
    else (if id == 2 ^ id_len_for bps - 1
        then read_bits source bps block_size place
        else split_block source (id - 1) bps block_size refflag place)

unfoldable pub read_block :
    List ℕ → (bps block_size rsi : ℕ) → (refflag : Bool) → (in_rsi place : ℕ) → Result Read
unfolding bits block_of
read_block source bps block_size rsi refflag in_rsi place = do
  id ← bits source (id_len_for bps) place
  block_of source id.0 bps block_size rsi refflag in_rsi id.1

-- A complete segment is undone and leaves. One that is too long trips the `debug_assert_eq!`
-- where `debug` says that assertions are checked.
unfoldable pub end_block :
    (debug pp : Bool) → (xmax rsi_samples : ℕ) → (raw out : List ℕ) → Result (List ℕ × List ℕ)
unfolding unmap_rsi
end_block debug pp xmax rsi_samples raw out =
    if ltb (length raw) rsi_samples
    then ok (raw, out)
    else (assert (not debug || length raw == rsi_samples)
        >> (unmap_rsi pp xmax raw >>= λ done. ok ([], out ++ done)))

-- The loop over blocks: the samples of the segment so far and those that are done. Each round takes
-- at least three bits.
unfoldable pub decode_blocks :
    (debug : Bool)
    → ℕ
    → List ℕ
    → (bps block_size rsi : ℕ) → Bool
    → (n_samples : ℕ) → (raw out : List ℕ) → ℕ
    → Result (List ℕ × List ℕ)
unfolding read_block end_block
decode_blocks debug zero source bps block_size rsi pp n_samples raw out place =
    if ltb (length out) n_samples then out_of_fuel else ok (raw, out)
decode_blocks debug (suc fuel) source bps block_size rsi pp n_samples raw out place =
    let next =
      read_block source bps block_size rsi (pp && length raw == 0) (length raw) place >>= λ block.
      end_block debug pp (xmax_of bps) (rsi * block_size) (raw ++ block.0) out >>= λ state.
      decode_blocks debug fuel source bps block_size rsi pp n_samples state.0 state.1 block.1 in
    if ltb (length out) n_samples then next else ok (raw, out)

-- A segment that is not complete
unfoldable pub flush_rest : Bool → ℕ → List ℕ → Result (List ℕ)
unfolding unmap_rsi
flush_rest pp xmax raw = if length raw == 0 then ok [] else unmap_rsi pp xmax raw

unfoldable pub aec_decode :
    (debug : Bool) → List ℕ → (bps block_size rsi : ℕ) → Bool → ℕ → Result (List ℕ)
unfolding decode_blocks flush_rest
aec_decode debug source bps block_size rsi pp n_samples = do
  state ← decode_blocks debug (8 * length source + 1) source bps block_size rsi pp n_samples [] [] 0
  rest ← flush_rest pp (xmax_of bps) state.0
  ok (take n_samples (state.1 ++ rest))

-- `chunks(padded_line)` and the first samples of each
unfoldable pub unpad_lines : ℕ → (padded_line line_samples : ℕ) → List ℕ → List ℕ
unpad_lines zero padded_line line_samples samples = []
unpad_lines (suc fuel) padded_line line_samples samples =
    let rest = unpad_lines fuel padded_line line_samples (drop padded_line samples) in
    take line_samples (take padded_line samples) ++ rest

unfoldable pub sz_decompress : (debug : Bool) → List ℕ → List ℕ → ℕ → Result (List ℕ)
unfolding params aec_decode unpad_lines from_samples deinterleave
sz_decompress debug cdata source out_len = do
  p ← params cdata
  let msb = not (bit_and p.mask sz_msb_option_mask == 0)
  let bps = coded_bits p
  let rsi = div_ceil p.pps p.ppb
  let pad_scanline = not (p.pps % p.ppb == 0)
  let padded_line = rsi * p.ppb
  let out_samples = out_len / pixel_size bps
  let n_samples = if pad_scanline then div_ceil out_samples p.pps * padded_line else out_samples
  samples ←
      aec_decode debug source bps p.ppb rsi (not (bit_and p.mask sz_nn_option_mask == 0)) n_samples
  let lines =
      if pad_scanline then unpad_lines (length samples) padded_line p.pps samples else samples
  let bytes = take out_len (from_samples lines bps msb)
  ok (if is_interleaved p then deinterleave bytes (p.bpp / 8) else bytes)
