-- ===== src/Headers/RoundTrip/Stored.antt =====
-- A header of version 1 that stands in a file, behind a userblock.
use hdf5_rs.Prelude.{
  ℕ, suc, ◌+◌, ◌^◌, ◌<◌, ◌≤◌, ◌≡◌, refl, ap, sym, subst, ◌∙◌, arith, List, [], ◌∷◌, ◌++◌, length,
  length-append, append_assoc, map, All, le→not_ltb, ok,
}
use hdf5_rs.Prelude.Bytes.{to_le}
use native.Mathlib.Nat.{mod-eq_of_lt}
use hdf5_rs.Arena.{same}
use hdf5_rs.Buffer.{Buf, pad8}
use hdf5_rs.Messages.{new_buf}
use hdf5_rs.Headers.{Callees, Progress, empty_header}
use hdf5_rs.Headers.Heads.{start_v1, read_head_v1, read_start_v1}
use hdf5_rs.Headers.Scan.{
  at, all_read, scan_messages, scan_blocks_v1, parse_object_header_v1, parse_object_header,
}
use hdf5_rs.Headers.Write.{Message, append, write_start, write_object_header}
use hdf5_rs.Headers.RoundTrip.Loop.{handle_all, codes, body_at-middle, scan-handle_all}
use hdf5_rs.Headers.RoundTrip.First.{
  IsMessageV1, Fits, stored, stored-Fits, head_code_v1, head-Reads, start_code, start-Reads,
  messages-Writes,
}

length-stored_all : (ms : List Message) → length (map stored ms) ≡ length ms
length-stored_all [] = refl
length-stored_all (m ∷ ms) = omega (arith, length-stored_all ms)

abbrev body_code : List Message → List ℕ
body_code ms = codes head_code_v1 (map stored ms)

abbrev header_code : List Message → List ℕ
header_code ms = start_code (length ms) (length (body_code ms)) ++ body_code ms

header-written :
    (ms : List Message) (file : Buf)
    → All IsMessageV1 ms
    → length ms < 2 ^ 16
    → length (body_code ms) < 2 ^ 32
    → write_object_header ms file ≡ ok (append (header_code ms) file)
unfolding write_object_header write_start
header-written ms file h few small =
    rw (messages-Writes ms new_buf h, mod-eq_of_lt few, mod-eq_of_lt small) refl

regroup :
    (block padded start body post : List ℕ)
    → block ++ ((padded ++ (start ++ body)) ++ post)
      ≡ (block ++ padded) ++ (start ++ (body ++ post))
regroup block padded start body post = simp append_assoc

module _ {A S : Type 0} (p : Callees A S) (image : List ℕ) where
  block-handle_all :
      (ms : List Message) (pre post : List ℕ) (end : ℕ) (st out : Progress A S)
      → All IsMessageV1 ms
      → image ≡ pre ++ (body_code ms ++ post)
      → end ≡ length (pre ++ body_code ms)
      → handle_all p (map stored ms) st ≡ ok out
      → scan_messages p image read_head_v1 8 all_read end (length ms) (length pre) st ≡ ok (0, out)
  unfolding scan_messages
  block-handle_all ms pre post end st out h e e' handled =
      let all : length ms ≡ length (map stored ms) + 0 = omega (arith, length-stored_all ms) in
      scan-handle_all p image read_head_v1 8 all_read head_code_v1 Fits head-Reads (λ m. refl)
        (map stored ms) pre post end (length pre) (length ms) 0 st (stored-Fits ms h) e e' refl all
      ∙ rw handled refl

  -- Nothing is left to scan.
  finished :
      (rounds left : ℕ) (st : Progress A S)
      → st.blocks ≡ []
      → scan_blocks_v1 p image (suc rounds) left st ≡ ok st
  unfolding scan_blocks_v1
  finished rounds left st h = ground arith

  blocks-handle_all :
      (ms : List Message) (pre post : List ℕ) (s : S) (out : Progress A S)
      → All IsMessageV1 ms
      → image ≡ pre ++ (body_code ms ++ post)
      → handle_all p (map stored ms) (record { header = empty_header; blocks = []; parser = s })
        ≡ ok out
      → out.blocks ≡ []
      → scan_blocks_v1 p image (length ms + 2) (length ms) (record {
        header = empty_header;
        blocks = (length pre, length (body_code ms)) ∷ [];
        parser = s;
      })
        ≡ ok out
  unfolding scan_blocks_v1
  blocks-handle_all ms pre post s out h e handled quiet =
      let rounds : length ms + 2 ≡ suc (suc (length ms)) = omega arith in
      rw
        (
          rounds,
          block-handle_all ms pre post (length pre + length (body_code ms)) _ out h e
              (sym (length-append pre (body_code ms))) handled,
        )
        (finished (length ms) 0 out quiet)

  header-handle_all :
      (ms : List Message) (pre post : List ℕ) (addr rounds : ℕ) (s : S) (out : Progress A S)
      → All IsMessageV1 ms
      → length ms < 2 ^ 16
      → length (body_code ms) < 2 ^ 32
      → image ≡ pre ++ (header_code ms ++ post)
      → p.base + addr ≡ length pre
      → handle_all p (map stored ms) (record { header = empty_header; blocks = []; parser = s })
        ≡ ok out
      → out.blocks ≡ []
      → parse_object_header p image rounds addr s ≡ ok out
  unfolding parse_object_header parse_object_header_v1 same
  header-handle_all ms pre post addr rounds s out h few small e place handled quiet =
      let body = body_code ms in
      let start = start_code (length ms) (length body) in
      let apart : image ≡ pre ++ (start ++ (body ++ post)) =
        e ∙ ap (◌++◌ pre) (append_assoc start body post) in
      let behind : image ≡ (pre ++ start) ++ (body ++ post) =
        apart ∙ sym (append_assoc pre start (body ++ post)) in
      let read : read_start_v1 (at image (length pre))
          ≡ ok (start_v1 (length ms) (length body), at image (length (pre ++ start))) =
        subst
          (λ i.
            read_start_v1 (at i (length pre))
            ≡ ok (start_v1 (length ms) (length body), at i (length (pre ++ start))))
          (sym apart) ((start-Reads (length ms) (length body) few small).run pre (body ++ post)) in
      let room : length pre + 4 ≤ length image =
        omega (arith, ap length apart, length-append pre (start ++ (body ++ post))) in
      let first : List ℕ = 1 ∷ 0 ∷ to_le 2 (length ms) in
      rw
        (
          place,
          le→not_ltb (length image) (length pre + 4) room,
          body_at-middle image pre first
              ((to_le 4 1 ++ (to_le 4 (length body) ++ (0 ∷ 0 ∷ 0 ∷ 0 ∷ []))) ++ (body ++ post))
              apart,
          read,
        )
        (blocks-handle_all ms (pre ++ start) post s out h behind handled quiet)

module _ {A S : Type 0} (p : Callees A S) where
  -- Messages that fit in a header of version 1, at most 65535, are written at an address, where
  -- parse_object_header, in the finished file behind a userblock of `base` bytes, handles these
  -- messages one by one, each padded with zeros to a multiple of eight bytes, and nothing else, as
  -- long as none of them names a continuation.
  pub parse_object_header-write_object_header :
      (ms : List Message) (file : Buf) (block post : List ℕ) (rounds : ℕ) (s : S)
      (out : Progress A S)
      → All IsMessageV1 ms
      → length ms < 2 ^ 16
      → length (body_code ms) < 2 ^ 32
      → length block ≡ p.base
      → handle_all p (map stored ms) (record { header = empty_header; blocks = []; parser = s })
        ≡ ok out
      → out.blocks ≡ []
      → (r : ℕ × Buf) × (write_object_header ms file ≡ ok r)
        × (parse_object_header p (block ++ (r.1.bytes ++ post)) rounds r.0 s ≡ ok out)
  unfolding append
  parse_object_header-write_object_header ms file block post rounds s out h few small base handled
        quiet =
      let padded = (pad8 file).bytes in
      let image = block ++ ((padded ++ header_code ms) ++ post) in
      let e : image ≡ (block ++ padded) ++ (header_code ms ++ post) = simp append_assoc in
      let place : p.base + length padded ≡ length (block ++ padded) =
        omega (arith, length-append block padded) in
      (
        append (header_code ms) file,
        header-written ms file h few small,
        header-handle_all p image ms (block ++ padded) post (length padded) rounds s out h few small
            e place handled quiet,
      )
