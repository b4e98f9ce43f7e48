-- ===== src/Buffer/Fields.antt =====
-- A record of little-endian numbers written by `Buf` and read back by `Cursor`.
use hdf5_rs.Prelude.{
  ℕ, ◌+◌, ◌-◌, ◌%◌, ◌^◌, ◌<◌, ◌≤◌, ◌≡◌, refl, ap, sym, subst, ◌∙◌, arith, List, [], ◌∷◌, ◌++◌, map,
  length, append_assoc, append-nil, length-append, All, le→leb, le→not_ltb, Result, ok, ◌>>=◌,
  drop-append, take-append, get_elem?, some,
}
use native.Mathlib.Nat.{mod-eq_of_lt}
use hdf5_rs.Prelude.Bytes.{to_le, length-to_le, from_le-to_le}
use hdf5_rs.Buffer.{
  Buf, Cursor, u8, u16, u32, u64, take_bytes, number, read_u8, read_u16, read_u32, read_u64,
}

-- The value and the width of one field.
pub data Field : Type 0 where
  byte : ℕ → Field
  half : ℕ → Field
  word : ℕ → Field
  quad : ℕ → Field

abbrev pub value : Field → ℕ
value (byte v) = v
value (half v) = v
value (word v) = v
value (quad v) = v

abbrev pub InRange : Field → Type 0
InRange (byte v) = v < 2 ^ 8
InRange (half v) = v < 2 ^ 16
InRange (word v) = v < 2 ^ 32
InRange (quad v) = v < 2 ^ 64

abbrev pub write : Field → Buf → Buf
write (byte v) b = u8 v b
write (half v) b = u16 v b
write (word v) b = u32 v b
write (quad v) b = u64 v b

-- The reader is told the width alone.
unfoldable pub read : Field → Cursor → Result (ℕ × Cursor)
unfolding read_u8 read_u16 read_u32 read_u64
read (byte v) c = read_u8 c
read (half v) c = read_u16 c
read (word v) c = read_u32 c
read (quad v) c = read_u64 c

abbrev pub write_all : List Field → Buf → Buf
write_all [] b = b
write_all (f ∷ fs) b = write_all fs (write f b)

unfoldable pub read_all : List Field → Cursor → Result (List ℕ × Cursor)
unfolding read
read_all [] c = ok ([], c)
read_all (f ∷ fs) c = do first ← read f c; rest ← read_all fs first.1; ok (first.0 ∷ rest.0, rest.1)

abbrev pub at : List ℕ → ℕ → Cursor
at image pos = record { image = image; pos = pos }

-- `take` of the bytes that stand at the position.
pub take_bytes-middle :
    (n : ℕ) (pre s post : List ℕ)
    → length s ≡ n
    → take_bytes n (at (pre ++ (s ++ post)) (length pre))
      ≡ ok (s, at (pre ++ (s ++ post)) (length pre + n))
unfolding take_bytes
take_bytes-middle n pre s post e =
    let total = length-append pre (s ++ post) in
    let tail = length-append s post in
    let fits : length pre + n ≤ length (pre ++ (s ++ post)) = omega arith in
    let start : length pre ≤ length pre + n = omega arith in
    let span : length pre + n - length pre ≡ length s = omega arith in
    rw
      (
        le→not_ltb (length (pre ++ (s ++ post))) (length pre + n) fits,
        le→leb (length pre) (length pre + n) start,
        le→leb (length pre + n) (length (pre ++ (s ++ post))) fits,
        drop-append pre (s ++ post),
        span,
        take-append s post,
      )
      refl

pub number-middle :
    (n v : ℕ) (pre post : List ℕ)
    → v % 256 ^ n ≡ v
    → number (take_bytes n (at (pre ++ (to_le n v ++ post)) (length pre)))
      ≡ ok (v, at (pre ++ (to_le n v ++ post)) (length pre + n))
number-middle n v pre post e =
    rw (take_bytes-middle n pre (to_le n v) post (length-to_le n v))
      (ap (λ t. ok (t, at (pre ++ (to_le n v ++ post)) (length pre + n))) (from_le-to_le n v ∙ e))

get_elem?-middle : (pre post : List ℕ) (v : ℕ) → get_elem? (pre ++ (v ∷ post)) (length pre) ≡ some v
get_elem?-middle [] post v = refl
get_elem?-middle (x ∷ xs) post v = get_elem?-middle xs post v

pub read_u8-middle :
    (pre post : List ℕ) (v : ℕ)
    → read_u8 (at (pre ++ (v ∷ post)) (length pre))
      ≡ ok (v, at (pre ++ (v ∷ post)) (length pre + 1))
unfolding read_u8
read_u8-middle pre post v = rw (get_elem?-middle pre post v, read_u8) refl

-- What was written behind `b` is read at the end of `b`, with anything behind it.
read-write :
    (f : Field) (b : Buf) (post : List ℕ)
    → InRange f
    → read f (at ((write f b).bytes ++ post) (length b.bytes))
      ≡ ok (value f, at ((write f b).bytes ++ post) (length (write f b).bytes))
unfolding read read_u16 read_u32 read_u64
read-write (byte v) b post h =
    rw (append_assoc b.bytes (v ∷ []) post, length-append b.bytes (v ∷ []))
      (read_u8-middle b.bytes post v)
read-write (half v) b post h =
    rw (append_assoc b.bytes (to_le 2 v) post, length-append b.bytes (to_le 2 v))
      (number-middle 2 v b.bytes post (mod-eq_of_lt h))
read-write (word v) b post h =
    rw (append_assoc b.bytes (to_le 4 v) post, length-append b.bytes (to_le 4 v))
      (number-middle 4 v b.bytes post (mod-eq_of_lt h))
read-write (quad v) b post h =
    rw (append_assoc b.bytes (to_le 8 v) post, length-append b.bytes (to_le 8 v))
      (number-middle 8 v b.bytes post (mod-eq_of_lt h))

write-extends : (f : Field) (b : Buf) → (new : List ℕ) × ((write f b).bytes ≡ b.bytes ++ new)
write-extends (byte v) b = (v ∷ [], refl)
write-extends (half v) b = (to_le 2 v, refl)
write-extends (word v) b = (to_le 4 v, refl)
write-extends (quad v) b = (to_le 8 v, refl)

-- Later fields leave the bytes of the earlier ones alone.
write_all-extends :
    (fs : List Field) (b : Buf) → (more : List ℕ) × ((write_all fs b).bytes ≡ b.bytes ++ more)
write_all-extends [] b = ([], sym (append-nil b.bytes))
write_all-extends (f ∷ fs) b =
    let (new, e) = write-extends f b in
    let (more, h) = write_all-extends fs (write f b) in
    (new ++ more, h ∙ ap (λ t. t ++ more) e ∙ append_assoc b.bytes new more)

-- A record of numbers in the range of their types, written behind any bytes with any bytes behind
-- it, is read back from where it starts, and the reader then stands at its end.
pub read_all-write_all :
    (fs : List Field) (b : Buf) (post : List ℕ)
    → All InRange fs
    → read_all fs (at ((write_all fs b).bytes ++ post) (length b.bytes))
      ≡ ok (map value fs, at ((write_all fs b).bytes ++ post) (length (write_all fs b).bytes))
unfolding read_all
read_all-write_all [] b post h = refl
read_all-write_all (f ∷ fs) b post (h, hs) =
    let (more, e) = write_all-extends fs (write f b) in
    let image : (write_all fs (write f b)).bytes ++ post ≡ (write f b).bytes ++ (more ++ post) =
      ap (λ t. t ++ post) e ∙ append_assoc (write f b).bytes more post in
    let first : read f (at ((write_all fs (write f b)).bytes ++ post) (length b.bytes))
        ≡ ok (value f, at ((write_all fs (write f b)).bytes ++ post) (length (write f b).bytes)) =
      subst (λ t. read f (at t (length b.bytes)) ≡ ok (value f, at t (length (write f b).bytes)))
        (sym image) (read-write f b (more ++ post) h) in
    rw (first, read_all-write_all fs (write f b) post hs) refl
