-- ===== src/Headers/RoundTrip/Written.antt =====
-- A header of version 2 that stands in a file, behind a userblock.
use hdf5_rs.Prelude.{
  ℕ, suc, ◌+◌, ◌^◌, ◌<◌, ◌≤◌, ◌≡◌, refl, ap, ◌∙◌, arith, List, [], ◌∷◌, ◌++◌, length, length-append,
  append_assoc, All, le→not_ltb, ok,
}
use hdf5_rs.Prelude.Bytes.{to_le}
use native.Mathlib.Nat.{mod-eq_of_lt}
use hdf5_rs.Arena.{same}
use hdf5_rs.Buffer.{Buf, pad8}
use hdf5_rs.Checksum.{checksum}
use hdf5_rs.Messages.{new_buf}
use hdf5_rs.Headers.{Callees, Progress, empty_header}
use hdf5_rs.Headers.Scan.{ohdr, parse_object_header_v2, parse_object_header}
use hdf5_rs.Headers.Write.{Message, append, write_start_v2, with_checksum, write_object_header_v2}
use hdf5_rs.Headers.RoundTrip.Loop.{handle_all, codes, body_at-middle}
use hdf5_rs.Headers.RoundTrip.Second.{
  IsMessageV2, head_code_v2, start_code, messages-Writes, header-handle_all,
}

-- The bytes of a header
abbrev header_code : List Message → List ℕ
header_code ms =
    let body = codes head_code_v2 ms in
    with_checksum (record { bytes = start_code (length body) ++ body })

with_checksum_lem : (h : Buf) → with_checksum h ≡ h.bytes ++ to_le 4 (checksum h.bytes)
unfolding with_checksum
with_checksum_lem h = refl

header-written :
    (ms : List Message) (file : Buf)
    → All IsMessageV2 ms
    → length (codes head_code_v2 ms) < 2 ^ 32
    → write_object_header_v2 ms file ≡ ok (append (header_code ms) file)
unfolding write_object_header_v2 write_start_v2
header-written ms file h small = rw (messages-Writes ms new_buf h, mod-eq_of_lt small) refl

regroup :
    (block padded start body sum post : List ℕ)
    → block ++ ((padded ++ ((start ++ body) ++ sum)) ++ post)
      ≡ (block ++ padded) ++ (start ++ (body ++ (sum ++ post)))
regroup block padded start body sum post = simp append_assoc

module _ {A S : Type 0} (p : Callees A S) where
  -- The signature tells the version.
  parse_object_header-v2 :
      (image pre rest : List ℕ) (size rounds addr : ℕ) (s : S)
      → image ≡ pre ++ (start_code size ++ rest)
      → p.base + addr ≡ length pre
      → parse_object_header p image rounds addr s ≡ parse_object_header_v2 p image rounds addr s
  unfolding parse_object_header same
  parse_object_header-v2 image pre rest size rounds addr s e place =
      let total = length-append pre (start_code size ++ rest) in
      let room : length pre + 4 ≤ length image = omega (arith, ap length e) in
      rw
        (
          place,
          le→not_ltb (length image) (length pre + 4) room,
          body_at-middle image pre ohdr ((2 ∷ []) ++ ((0x02 ∷ []) ++ (to_le 4 size ++ rest))) e,
        )
        refl

  -- Messages that fit in a header of version 2 are written at an address, where
  -- parse_object_header, in the finished file behind a userblock of `base` bytes, handles these
  -- messages one by one and nothing else, as long as none of them names a continuation.
  pub parse_object_header-write_object_header_v2 :
      (ms : List Message) (file : Buf) (block post : List ℕ) (rounds : ℕ) (s : S)
      (out : Progress A S)
      → All IsMessageV2 ms
      → length (codes head_code_v2 ms) < 2 ^ 32
      → length block ≡ p.base
      → handle_all p ms (record { header = empty_header; blocks = []; parser = s }) ≡ ok out
      → out.blocks ≡ []
      → (r : ℕ × Buf) × (write_object_header_v2 ms file ≡ ok r)
        × (parse_object_header p (block ++ (r.1.bytes ++ post)) (suc rounds) r.0 s ≡ ok out)
  unfolding append
  parse_object_header-write_object_header_v2 ms file block post rounds s out h small base handled
        quiet =
      let padded = (pad8 file).bytes in
      let body = codes head_code_v2 ms in
      let start = start_code (length body) in
      let sum = to_le 4 (checksum (start ++ body)) in
      let signed : header_code ms ≡ (start ++ body) ++ sum =
        with_checksum_lem (record { bytes = start ++ body }) in
      let image = block ++ ((padded ++ header_code ms) ++ post) in
      let e : image ≡ (block ++ padded) ++ (start ++ (body ++ (sum ++ post))) =
        ap (λ t. block ++ ((padded ++ t) ++ post)) signed
        ∙ regroup block padded start body sum post in
      let place : p.base + length padded ≡ length (block ++ padded) =
        omega (arith, length-append block padded) in
      (
        append (header_code ms) file,
        header-written ms file h small,
        parse_object_header-v2 image (block ++ padded) (body ++ (sum ++ post)) (length body)
              (suc rounds) (length padded) s e place
            ∙ header-handle_all p image ms (block ++ padded) (sum ++ post) rounds (length padded) s
                out h small e place handled quiet,
      )
