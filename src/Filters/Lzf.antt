-- ===== src/Filters/Lzf.antt =====
-- `lzf_compress` and `lzf_decompress`. The decoder's `input` at `i` is the list from `i` on; the
-- encoder indexes its input. `usize::MAX` in the hash table, for no candidate, is `none`.
pub mod Format
pub mod Tokens
pub mod Emitted
pub mod Decode
pub mod Encode
use hdf5_rs.Prelude.{
  ℕ, zero, suc, ◌+◌, ◌-◌, ◌*◌, ◌/◌, ◌%◌, ◌^◌, min, bit_and, bit_or, List, [], ◌∷◌, ◌++◌, length,
  get_or, get_elem?, take, drop, Bool, true, false, ◌&&◌, ltb, leb, ◌==◌, if◌then◌else◌, Option,
  none, some, Result, ok, err, panic, out_of_fuel, ◌>>=◌, ◌>>◌, ensure,
}
use hdf5_rs.Prelude.Bits.{◌<<<◌, ◌>>>◌}

abbrev pub max_off : ℕ
max_off = 8192

abbrev pub max_ref : ℕ
max_ref = 264

abbrev pub max_lit : ℕ
max_lit = 32

-- The decoder.

-- `for _ in 0..len`: one byte at a time, so that a copy may read what it has just written.
unfoldable pub copy_back : ℕ → ℕ → List ℕ → Result (List ℕ)
copy_back zero rpos out = ok out
copy_back (suc len) rpos out = elim (get_elem? out rpos) [
  | none ↦ panic
  | some b ↦ copy_back len (rpos + 1) (out ++ (b ∷ []))
]

unfoldable pub literal_run : ℕ → List ℕ → List ℕ → Result (List ℕ × List ℕ)
literal_run ctrl input out = do
  let len = ctrl + 1
  ensure (leb len (length input)) "lzf: truncated literal run"
  ok (drop len input, out ++ take len input)

-- The second byte of a length field.
unfoldable pub long_length : ℕ → List ℕ → Result (ℕ × List ℕ)
long_length len [] = err "lzf: truncated length byte"
long_length len (b ∷ rest) = ok (len + b, rest)

unfoldable pub match_length : ℕ → List ℕ → Result (ℕ × List ℕ)
unfolding long_length
match_length len input = if len == 7 then long_length len input else ok (len, input)

unfoldable pub match_offset : ℕ → List ℕ → Result (ℕ × List ℕ)
match_offset ctrl [] = err "lzf: truncated offset byte"
match_offset ctrl (b ∷ rest) = ok (bit_or (bit_and ctrl 0x1f <<< 8) b, rest)

unfoldable pub back_reference : ℕ → List ℕ → List ℕ → Result (List ℕ × List ℕ)
unfolding match_length match_offset copy_back
back_reference ctrl input out = do
  (len, after_len) ← match_length (ctrl >>> 5) input
  (off, rest) ← match_offset ctrl after_len
  ensure (leb (off + 1) (length out)) "lzf: back reference before start of output"
  out' ← copy_back (len + 2) (length out - (off + 1)) out
  ok (rest, out')

unfoldable pub decode_token : ℕ → List ℕ → List ℕ → Result (List ℕ × List ℕ)
unfolding literal_run back_reference
decode_token ctrl input out =
    if ltb ctrl 32 then literal_run ctrl input out else back_reference ctrl input out

-- `while i < input.len()`; a round takes a byte at least, so the length is fuel enough.
unfoldable pub decode_loop : ℕ → List ℕ → List ℕ → Result (List ℕ)
unfolding decode_token
decode_loop fuel [] out = ok out
decode_loop zero (ctrl ∷ input) out = out_of_fuel
decode_loop (suc fuel) (ctrl ∷ input) out = do
  (rest, out') ← decode_token ctrl input out
  decode_loop fuel rest out'

unfoldable pub lzf_decompress : List ℕ → Result (List ℕ)
unfolding decode_loop
lzf_decompress input = decode_loop (length input) input []

-- The encoder.

unfoldable pub lzf_hash : ℕ → ℕ → ℕ → ℕ
lzf_hash a b c = (bit_or (bit_or (a <<< 16) (b <<< 8)) c * 2_654_435_761 % 2 ^ 32) >>> 18

abbrev pub HashTable : Type 0
HashTable = ℕ → Option ℕ

-- `htab[h] = pos`
abbrev pub remember : HashTable → ℕ → ℕ → HashTable
remember htab h pos k = if k == h then some pos else htab k

-- `emit_literals`, with `to - s` as fuel.
unfoldable pub emit_loop : ℕ → List ℕ → List ℕ → ℕ → ℕ → List ℕ
emit_loop zero input out s to = out
emit_loop (suc fuel) input out s to =
    let run = min (to - s) max_lit in
    let more = emit_loop fuel input (out ++ ((run - 1) ∷ take run (drop s input))) (s + run) to in
    if ltb s to then more else out

unfoldable pub emit_literals : List ℕ → List ℕ → ℕ → ℕ → List ℕ
unfolding emit_loop
emit_literals input out from to = emit_loop (to - from) input out from to

-- `while mlen < max_len && …`, with `max_len - mlen` rounds left.
unfoldable pub extend_match : ℕ → List ℕ → ℕ → ℕ → ℕ → ℕ
extend_match zero input cand pos mlen = mlen
extend_match (suc left) input cand pos mlen =
    let more = extend_match left input cand pos (mlen + 1) in
    if get_or input (cand + mlen) 0 == get_or input (pos + mlen) 0 then more else mlen

-- The test of a candidate that the table holds.
unfoldable pub is_match : List ℕ → ℕ → ℕ → Bool
is_match input cand pos =
    leb (pos - cand) max_off
    && ltb (cand + 2) (length input)
    && get_or input cand 0 == get_or input pos 0
    && get_or input (cand + 1) 0 == get_or input (pos + 1) 0
    && get_or input (cand + 2) 0 == get_or input (pos + 2) 0

-- `off >> 8` and `l` go through `as u8`.
unfoldable pub ref_token : ℕ → ℕ → List ℕ
ref_token off l =
    if ltb l 7
    then bit_or ((off >>> 8) % 256) (((l % 256) <<< 5) % 256) ∷ bit_and off 0xff ∷ []
    else bit_or ((off >>> 8) % 256) (7 <<< 5) ∷ ((l - 7) % 256) ∷ bit_and off 0xff ∷ []

-- The variables of the loop.
pub record Encoder : Type 0 where
  pub out : List ℕ
  pub htab : HashTable
  pub lit_start : ℕ
  pub pos : ℕ

unfoldable pub take_match : List ℕ → Encoder → ℕ → Encoder
unfolding emit_literals extend_match ref_token
take_match input e cand =
    let max_len = min (length input - e.pos) max_ref in
    let mlen = extend_match (max_len - 3) input cand e.pos 3 in
    let emitted = emit_literals input e.out e.lit_start e.pos in
    record e {
      out = emitted ++ ref_token (e.pos - cand - 1) (mlen - 2);
      lit_start = e.pos + mlen;
      pos = e.pos + mlen;
    }

-- One round of the loop.
unfoldable pub encode_step : List ℕ → Encoder → Encoder
encode_step input e =
    let h =
      lzf_hash (get_or input e.pos 0) (get_or input (e.pos + 1) 0) (get_or input (e.pos + 2) 0) in
    let e' = record e { htab = remember e.htab h e.pos } in
    elim (e.htab h) [
      | none ↦ record e' { pos = e.pos + 1 }
      | some cand ↦
          if is_match input cand e.pos
          then take_match input e' cand
          else record e' { pos = e.pos + 1 }
    ]

-- `while pos + 2 < n`, with the length of the input as fuel: `pos` grows in each round.
unfoldable pub encode_loop : ℕ → List ℕ → Encoder → Result Encoder
encode_loop zero input e = if ltb (e.pos + 2) (length input) then out_of_fuel else ok e
encode_loop (suc fuel) input e =
    let more = encode_loop fuel input (encode_step input e) in
    if ltb (e.pos + 2) (length input) then more else ok e

abbrev pub start : Encoder
start = record { out = []; htab = λ _. none; lit_start = 0; pos = 0 }

unfoldable pub lzf_compress : List ℕ → Result (List ℕ)
unfolding encode_loop emit_literals
lzf_compress input = do
  e ← encode_loop (length input) input start
  ok (emit_literals input e.out e.lit_start (length input))
