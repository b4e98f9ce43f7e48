-- ===== src/Checksum.antt =====
-- hdf5/src/format/checksum.rs: the `lookup3` checksum of metadata, on words of 32 bits.
pub mod Mix
pub mod Detection
mod Runs
use hdf5_rs.Prelude.{
  ℕ, zero, suc, ◌+◌, ◌-◌, ◌*◌, ◌/◌, ◌%◌, ◌^◌, List, [], ◌∷◌, ◌++◌, length, take, drop, replicate,
  ltb, leb, bit_or, bit_xor, if◌then◌else◌, ◌==◌,
}
use hdf5_rs.Prelude.Bytes.{from_le}

abbrev pub wrapping_add : ℕ → ℕ → ℕ
wrapping_add x y = (x + y) % 2 ^ 32

abbrev pub wrapping_sub : ℕ → ℕ → ℕ
wrapping_sub x y = (x + (2 ^ 32 - y)) % 2 ^ 32

-- `rotate_left`
unfoldable pub rot : ℕ → ℕ → ℕ
rot x k = bit_or (x * 2 ^ k % 2 ^ 32) (x / 2 ^ (32 - k))

pub record Lanes : Type 0 where
  pub a : ℕ
  pub b : ℕ
  pub c : ℕ

-- `x = x.wrapping_sub(z); x ^= rot(z, k); z = z.wrapping_add(y)`: the new `x` and `z`.
unfoldable pub stir : (k x y z : ℕ) → ℕ × ℕ
unfolding rot
stir k x y z = (bit_xor (wrapping_sub x z) (rot z k), wrapping_add z y)

-- The three lines of a step, with the lanes in their three orders.
unfoldable pub stir_a : ℕ → Lanes → Lanes
unfolding stir
stir_a k s = let r = stir k s.a s.b s.c in record { a = r.0; b = s.b; c = r.1 }

unfoldable pub stir_b : ℕ → Lanes → Lanes
unfolding stir
stir_b k s = let r = stir k s.b s.c s.a in record { a = r.1; b = r.0; c = s.c }

unfoldable pub stir_c : ℕ → Lanes → Lanes
unfolding stir
stir_c k s = let r = stir k s.c s.a s.b in record { a = s.a; b = r.1; c = r.0 }

-- mix(a, b, c)
unfoldable pub mix : Lanes → Lanes
unfolding stir_a stir_b stir_c
mix s = stir_c 4 (stir_b 19 (stir_a 16 (stir_c 8 (stir_b 6 (stir_a 4 s)))))

-- The four bytes at `at`, little-endian.
abbrev pub word_at : List ℕ → ℕ → ℕ
word_at bytes at = from_le (take 4 (drop at bytes))

-- The words of a block of 12 bytes go into the lanes.
abbrev pub add_words : (u v w : ℕ) → Lanes → Lanes
add_words u v w s = record {
  a = wrapping_add s.a u;
  b = wrapping_add s.b v;
  c = wrapping_add s.c w;
}

unfoldable pub absorb : List ℕ → Lanes → Lanes
unfolding mix
absorb block s = mix (add_words (word_at block 0) (word_at block 4) (word_at block 8) s)

-- `while length > 12`: the lanes and the bytes left. Each round takes 12 bytes, so that as many
-- rounds as bytes are enough.
unfoldable pub absorb_blocks : ℕ → List ℕ → Lanes → Lanes × List ℕ
unfolding absorb
absorb_blocks zero bytes s = (s, bytes)
absorb_blocks (suc fuel) bytes s =
    let rest = absorb_blocks fuel (drop 12 bytes) (absorb (take 12 bytes) s) in
    if ltb 12 (length bytes) then rest else (s, bytes)

-- `x ^= y; x = x.wrapping_sub(rot(y, k))`
unfoldable pub settle : (k x y : ℕ) → ℕ
unfolding rot
settle k x y = wrapping_sub (bit_xor x y) (rot y k)

-- final(a, b, c)
unfoldable pub final_mix : Lanes → ℕ
unfolding settle
final_mix s =
    let c1 = settle 14 s.c s.b in
    let a1 = settle 11 s.a c1 in
    let b1 = settle 25 s.b a1 in
    let c2 = settle 16 c1 b1 in
    let a2 = settle 4 a1 c2 in let b2 = settle 14 b1 a2 in settle 24 c2 b2

-- The last bytes, filled up with zeros to 12.
abbrev pub add_tail : List ℕ → Lanes → Lanes
add_tail bytes s =
    let tail = bytes ++ replicate (12 - length bytes) 0 in
    record {
      a = if ltb 0 (length bytes) then wrapping_add s.a (word_at tail 0) else s.a;
      b = if ltb 4 (length bytes) then wrapping_add s.b (word_at tail 4) else s.b;
      c = if ltb 8 (length bytes) then wrapping_add s.c (word_at tail 8) else s.c;
    }

unfoldable pub start : ℕ → Lanes
start n =
    let a = wrapping_add (wrapping_add 0xdead_beef (n % 2 ^ 32)) 0 in record { a = a; b = a; c = a }

unfoldable pub checksum : List ℕ → ℕ
unfolding absorb_blocks final_mix start
checksum bytes =
    let r = absorb_blocks (length bytes) bytes (start (length bytes)) in
    let s = add_tail r.1 r.0 in if length r.1 == 0 then s.c else final_mix s
