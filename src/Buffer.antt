-- ===== src/Buffer.antt =====
-- hdf5/src/format/mod.rs: alignment, the little-endian writer `Buf` and the reader `Cursor`.
-- A written number lies below the width of its type. Positions are not bounded by the width of
-- `usize`.
pub mod Align
pub mod Fields
pub mod Patch
pub mod Parser
pub mod Series
pub mod Reading
pub mod Writing
mod Runs
use hdf5_rs.Prelude.{
  ℕ, zero, suc, ◌+◌, ◌-◌, ◌^◌, List, [], ◌∷◌, ◌++◌, length, ltb, leb, bit_and, if◌then◌else◌,
  replicate, Option, none, some, Result, ok, err, panic, ◌>>=◌, ◌>>◌, ensure, assert, not,
  get_elem?, Bool,
}
use hdf5_rs.Prelude.Bytes.{to_le, from_le, slice, write_at, index}

-- `(n + 7) & !7` on 64 bits
unfoldable pub align8 : ℕ → ℕ
align8 n = bit_and (n + 7) (2 ^ 64 - 1 - 7)

-- `(n + a - 1) & !(a - 1)`
unfoldable pub align_up : ℕ → ℕ → ℕ
align_up n a = bit_and (n + a - 1) (2 ^ 64 - 1 - (a - 1))

pub record Buf : Type 0 where
  pub bytes : List ℕ

-- `extend_from_slice`
abbrev pub raw : List ℕ → Buf → Buf
raw s b = record { bytes = b.bytes ++ s }

abbrev pub u8 : ℕ → Buf → Buf
u8 v b = raw (v ∷ []) b

abbrev pub u16 : ℕ → Buf → Buf
u16 v b = raw (to_le 2 v) b

abbrev pub u32 : ℕ → Buf → Buf
u32 v b = raw (to_le 4 v) b

abbrev pub u64 : ℕ → Buf → Buf
u64 v b = raw (to_le 8 v) b

abbrev pub addr : ℕ → Buf → Buf
addr v b = u64 v b

abbrev pub zeros : ℕ → Buf → Buf
zeros n b = raw (replicate n 0) b

unfoldable pub pad8 : Buf → Buf
unfolding align8
pad8 b = zeros (align8 (length b.bytes) - length b.bytes) b

-- `patch_u16`, `patch_u32` and `patch_u64`, for 2, 4 and 8 bytes.
unfoldable pub patch : ℕ → ℕ → ℕ → Buf → Result Buf
patch width at v b = write_at b.bytes at (to_le width v) >>= λ bytes. ok (record { bytes = bytes })

-- The bytes of the file and the position in them.
pub record Cursor : Type 0 where
  pub image : List ℕ
  pub pos : ℕ

abbrev pub seek : ℕ → Cursor → Cursor
seek pos c = record { image = c.image; pos = pos }

abbrev pub remaining : Cursor → ℕ
remaining c = length c.image - c.pos

abbrev pub eof : Cursor → Bool
eof c = leb (length c.image) c.pos

abbrev pub skip : ℕ → Cursor → Cursor
skip n c = seek (c.pos + n) c

unfoldable pub take_bytes : ℕ → Cursor → Result (List ℕ × Cursor)
take_bytes n c = do
  ensure (not (ltb (length c.image) (c.pos + n))) "unexpected end of file"
  s ← slice c.image c.pos (c.pos + n)
  ok (s, skip n c)

unfoldable pub read_u8 : Cursor → Result (ℕ × Cursor)
read_u8 c = elim (get_elem? c.image c.pos) [
  | none ↦ err "unexpected end of file"
  | some b ↦ ok (b, skip 1 c)
]

-- A number of the width that `take` returned.
abbrev pub number : Result (List ℕ × Cursor) → Result (ℕ × Cursor)
number m = m >>= λ s. ok (from_le s.0, s.1)

unfoldable pub read_u16 : Cursor → Result (ℕ × Cursor)
unfolding take_bytes
read_u16 c = number (take_bytes 2 c)

unfoldable pub read_u32 : Cursor → Result (ℕ × Cursor)
unfolding take_bytes
read_u32 c = number (take_bytes 4 c)

unfoldable pub read_u64 : Cursor → Result (ℕ × Cursor)
unfolding take_bytes
read_u64 c = number (take_bytes 8 c)

-- `uint`: the bytes go to an array of eight, a longer slice panics there.
unfoldable pub read_uint : ℕ → Cursor → Result (ℕ × Cursor)
unfolding take_bytes
read_uint size c = do s ← take_bytes size c; assert (leb size 8); ok (from_le s.0, s.1)

unfoldable pub align_cursor : Cursor → Cursor
unfolding align8
align_cursor c = seek (align8 c.pos) c
