-- ===== src/Szip/Encode.antt =====
-- `aec_encode` and `sz_compress`. A sample above the greatest value of its width, which only data
-- of another width has, is taken as a release build takes it.
use hdf5_rs.Prelude.{
  ℕ, zero, suc, ◌+◌, ◌-◌, ◌*◌, ◌/◌, ◌%◌, ◌^◌, min, List, [], ◌∷◌, ◌++◌, length, take, drop,
  replicate, Bool, true, false, ◌&&◌, not, ltb, leb, ◌==◌, bit_and, if◌then◌else◌, Result, ok,
  ◌>>=◌,
}
use hdf5_rs.Prelude.Bits.{◌<<<◌, ◌>>>◌}
use hdf5_rs.Szip.{
  params, div_ceil, to_samples, interleave, pixel_size, is_interleaved, coded_bits,
  sz_nn_option_mask, sz_msb_option_mask,
}
use hdf5_rs.Szip.BitIo.{BitWriter, new_writer, put, put_fs, finish}
use hdf5_rs.Szip.Decode.{id_len_for, xmax_of}

-- The mapped difference between a sample and the one before it.
unfoldable pub map_step : ℕ → ℕ → ℕ → ℕ
map_step xmax prev x =
    let theta = if ltb xmax prev then prev else min prev (xmax - prev) in
    let up = x - prev in
    let down = prev - x in
    if leb prev x
    then (if leb up theta then 2 * up else theta + up)
    else (if leb down theta then 2 * down - 1 else theta + down)

unfoldable pub map_loop : ℕ → ℕ → List ℕ → List ℕ
unfolding map_step
map_loop xmax prev [] = []
map_loop xmax prev (x ∷ xs) = (map_step xmax prev x % 2 ^ 32) ∷ map_loop xmax x xs

-- A segment behind its preprocessing: the first sample and the mapped differences.
unfoldable pub map_rsi : Bool → ℕ → List ℕ → List ℕ
unfolding map_loop
map_rsi false xmax samples = samples
map_rsi true xmax [] = []
map_rsi true xmax (x ∷ xs) = x ∷ map_loop xmax x xs

-- `chunks(n)`: the fuel is the length.
unfoldable pub chunks_from : ℕ → ℕ → List ℕ → List (List ℕ)
chunks_from zero n xs = []
chunks_from (suc fuel) n [] = []
chunks_from (suc fuel) n (x ∷ xs) = take n (x ∷ xs) ∷ chunks_from fuel n (drop n (x ∷ xs))

abbrev pub chunks : ℕ → List ℕ → List (List ℕ)
chunks n xs = chunks_from (length xs) n xs

abbrev pub padded_blocks : ℕ → List ℕ → List ℕ
padded_blocks block_size coded =
    coded ++ replicate (div_ceil (length coded) block_size * block_size - length coded) 0

-- The bits of a block for `k`, given up where they reach the best so far.
unfoldable pub cost_loop : (k best : ℕ) → List ℕ → ℕ → ℕ
cost_loop k best [] cost = cost
cost_loop k best (v ∷ vs) cost =
    let rest = cost_loop k best vs (cost + (v >>> k)) in
    if leb best (cost + (v >>> k)) then cost + (v >>> k) else rest

-- `for k in 0..=kmax`: the best `k` and its cost.
unfoldable pub choose_k : (rounds k : ℕ) → List ℕ → ℕ × ℕ → ℕ × ℕ
unfolding cost_loop
choose_k zero k vals best = best
choose_k (suc rounds) k vals best =
    let cost = cost_loop k best.1 vals (k * length vals + length vals) in
    choose_k rounds (k + 1) vals (if ltb cost best.1 then (k, cost) else best)

unfoldable pub put_all : ℕ → List ℕ → BitWriter → BitWriter
unfolding put
put_all width [] w = w
put_all width (v ∷ vs) w = put_all width vs (put v width w)

unfoldable pub put_high : ℕ → List ℕ → BitWriter → BitWriter
unfolding put_fs
put_high k [] w = w
put_high k (v ∷ vs) w = put_high k vs (put_fs (v >>> k) w)

unfoldable pub put_low : ℕ → List ℕ → BitWriter → BitWriter
unfolding put
put_low k [] w = w
put_low k (v ∷ vs) w = put_low k vs (put (bit_and v ((1 <<< k) - 1)) k w)

-- The split samples of a block behind its id and its reference sample.
unfoldable pub put_split : (id_len bps k : ℕ) → (refs vals : List ℕ) → BitWriter → BitWriter
unfolding put put_all put_high put_low
put_split id_len bps k refs vals w =
    let high = put_high k vals (put_all bps refs (put (k + 1) id_len w)) in
    if ltb 0 k then put_low k vals high else high

-- One block: `block[0]` is the reference sample where there is one.
unfoldable pub encode_block : ℕ → Bool → List ℕ → BitWriter → BitWriter
unfolding put put_all choose_k put_split
encode_block bps refflag block w =
    let id_len = id_len_for bps in
    let refs = if refflag then take 1 block else [] in
    let vals = if refflag then drop 1 block else block in
    let best = choose_k (2 ^ id_len - 3 + 1) 0 vals (0, 2 ^ 64 - 1) in
    let uncomp_cost = length block * bps - (if refflag then bps else 0) in
    if leb uncomp_cost best.1
    then put_all bps block (put (2 ^ id_len - 1) id_len w)
    else put_split id_len bps best.0 refs vals w

unfoldable pub encode_blocks : ℕ → Bool → List (List ℕ) → BitWriter → BitWriter
unfolding encode_block
encode_blocks bps refflag [] w = w
encode_blocks bps refflag (b ∷ bs) w = encode_blocks bps false bs (encode_block bps refflag b w)

unfoldable pub encode_segments : (bps block_size : ℕ) → Bool → List (List ℕ) → BitWriter → BitWriter
unfolding encode_blocks map_rsi chunks_from
encode_segments bps block_size pp [] w = w
encode_segments bps block_size pp (s ∷ ss) w =
    let coded = padded_blocks block_size (map_rsi pp (xmax_of bps) s) in
    encode_segments bps block_size pp ss (encode_blocks bps pp (chunks block_size coded) w)

unfoldable pub aec_encode : List ℕ → (bps block_size rsi : ℕ) → Bool → List ℕ
unfolding encode_segments chunks_from finish
aec_encode samples bps block_size rsi pp =
    finish (encode_segments bps block_size pp (chunks (rsi * block_size) samples) new_writer)

-- What a line is padded with: its last pixel again and again, or zeros.
abbrev pub repeat_pixel : ℕ → List ℕ → List ℕ
repeat_pixel zero pixel = []
repeat_pixel (suc n) pixel = pixel ++ repeat_pixel n pixel

abbrev pub padding_of : Bool → (pixel pad : ℕ) → List ℕ → List ℕ
padding_of pp pixel pad line =
    if pp && leb pixel (length line)
    then repeat_pixel (pad / pixel) (drop (length line - pixel) line)
    else replicate pad 0

unfoldable pub pad_lines : Bool → (pixel padded_line : ℕ) → List (List ℕ) → List ℕ
pad_lines pp pixel padded_line [] = []
pad_lines pp pixel padded_line (line ∷ lines) =
    line
    ++ padding_of pp pixel (padded_line - length line) line
    ++ pad_lines pp pixel padded_line lines

unfoldable pub sz_compress : List ℕ → List ℕ → Result (List ℕ)
unfolding params interleave pad_lines chunks_from to_samples aec_encode
sz_compress cdata source = do
  p ← params cdata
  let pp = not (bit_and p.mask sz_nn_option_mask == 0)
  let msb = not (bit_and p.mask sz_msb_option_mask == 0)
  let bps = coded_bits p
  let pixel = pixel_size bps
  let rsi = div_ceil p.pps p.ppb
  let bytes = if is_interleaved p then interleave source (p.bpp / 8) else source
  let lines =
      if p.pps % p.ppb == 0
      then bytes
      else pad_lines pp pixel (rsi * p.ppb * pixel) (chunks (p.pps * pixel) bytes)
  ok (aec_encode (to_samples lines bps msb) bps p.ppb rsi pp)
