-- ===== src/Headers/RoundTrip/Second.antt =====
-- A header of version 2.
use hdf5_rs.Prelude.{
  ℕ, suc, ◌+◌, ◌-◌, ◌^◌, ◌<◌, ◌≤◌, ◌≡◌, refl, ap, sym, subst, ◌∙◌, arith, List, [], ◌∷◌, ◌++◌,
  length, length-append, append-nil, append_assoc, All, false, if◌then◌else◌, le→not_ltb,
  lt→not_leb, ok,
}
use hdf5_rs.Prelude.Bytes.{to_le}
use hdf5_rs.Arena.{same}
use hdf5_rs.Buffer.{Buf, raw, read_u8, read_u16, read_uint}
use hdf5_rs.Buffer.Parser.{
  Parser, pure, fail, Reads, >>=-Reads, pure-Reads, Reads-from, u8-Reads, u16-Reads, take-Reads,
  uint4-Reads, ◌>>=◌,
}
use hdf5_rs.Buffer.Writing.{raw-Writes, then-Writes}
use hdf5_rs.Headers.{Callees, Progress, empty_header}
use hdf5_rs.Headers.Heads.{
  Head, head_of, pass_order, read_head_v2, Start, start_v2, read_flags_v2, read_version_v2,
  read_start_v2,
}
use hdf5_rs.Headers.Scan.{
  ohdr, at, scan_messages, endless, scan_block_v2, scan_rest_v2, parse_object_header_v2,
}
use hdf5_rs.Headers.Write.{Message, write_message_v2, write_messages_v2}
use hdf5_rs.Headers.RoundTrip.Loop.{handle_all, codes, scan-handle_all}

-- A message that fits in a header of version 2
pub record IsMessageV2 (m : Message) : Type 0 where
  pub ty : m.ty < 2 ^ 8
  pub size : length m.body < 2 ^ 16

abbrev pub head_code_v2 : Message → List ℕ
head_code_v2 m = (m.ty ∷ []) ++ (to_le 2 (length m.body) ++ (m.mflags ∷ []))

head-Reads :
    (m : Message)
    → IsMessageV2 m
    → Reads (read_head_v2 false) (head_code_v2 m) (head_of m.ty (length m.body) m.mflags)
unfolding read_head_v2
head-Reads m h =
    let last : ℕ → ℕ → Parser Head = λ mtype msize.
      read_u8 >>= λ mflags. pass_order false >>= λ u. pure (head_of mtype msize mflags) in
    >>=-Reads (λ mtype. read_u16 >>= last mtype) (u8-Reads m.ty)
      (>>=-Reads (last m.ty) (u16-Reads (length m.body) h.size) (
        >>=-Reads (λ mflags. pass_order false >>= λ u. pure (head_of m.ty (length m.body) mflags))
          (u8-Reads m.mflags)
          (>>=-Reads (λ u. pure (head_of m.ty (length m.body) m.mflags)) (pure-Reads tt)
            (pure-Reads (head_of m.ty (length m.body) m.mflags)))))

message-Writes :
    (m : Message) (b : Buf)
    → IsMessageV2 m
    → write_message_v2 m b ≡ ok (raw (head_code_v2 m ++ m.body) b)
unfolding write_message_v2
message-Writes m b h =
    let low : m.ty ≤ 0xff = omega (arith, h.ty) in
    let small : length m.body ≤ 2 ^ 16 - 1 = omega (arith, h.size) in
    rw (le→not_ltb 0xff m.ty low, le→not_ltb (2 ^ 16 - 1) (length m.body) small)
      (ap ok (
        (then-Writes
            (then-Writes
              (then-Writes (raw-Writes (m.ty ∷ [])) (raw-Writes (to_le 2 (length m.body))))
              (raw-Writes (m.mflags ∷ [])))
            (raw-Writes m.body)).run
          b))

pub messages-Writes :
    (ms : List Message) (b : Buf)
    → All IsMessageV2 ms
    → write_messages_v2 ms b ≡ ok (raw (codes head_code_v2 ms) b)
unfolding write_messages_v2
messages-Writes [] b h = rw (append-nil b.bytes) refl
messages-Writes (m ∷ ms) b (h, hs) =
    rw
      (
        message-Writes m b h,
        messages-Writes ms (raw (head_code_v2 m ++ m.body) b) hs,
        append_assoc b.bytes (head_code_v2 m ++ m.body) (codes head_code_v2 ms),
      )
      refl

-- What stands before the messages
abbrev pub start_code : ℕ → List ℕ
start_code size = ohdr ++ ((2 ∷ []) ++ ((0x02 ∷ []) ++ to_le 4 size))

start-Reads :
    (size : ℕ) → size < 2 ^ 32 → Reads read_start_v2 (start_code size) (start_v2 0x02 size)
unfolding read_start_v2 read_version_v2 read_flags_v2 same
start-Reads size h =
    let sized : Parser Start = read_uint 4 >>= λ n. pure (start_v2 0x02 n) in
    >>=-Reads
      (λ sig. if same sig ohdr then (read_u8 >>= read_version_v2) else fail "bad OHDR signature")
      (take-Reads ohdr)
      (>>=-Reads read_version_v2 (u8-Reads 2) (
        >>=-Reads read_flags_v2 (u8-Reads 0x02) (
          >>=-Reads (λ u. pure tt >>= λ v. sized) (pure-Reads tt)
            (>>=-Reads (λ v. sized) (pure-Reads tt)
              (Reads-from (append-nil (to_le 4 size)) (
                >>=-Reads (λ n. pure (start_v2 0x02 n)) (uint4-Reads size h)
                  (pure-Reads (start_v2 0x02 size))))))))

length-le-codes : (ms : List Message) → length ms ≤ length (codes head_code_v2 ms)
length-le-codes [] = omega arith
length-le-codes (m ∷ ms) =
    omega (arith, length-le-codes ms, length-append m.body (codes head_code_v2 ms))

module _ {A S : Type 0} (p : Callees A S) (image : List ℕ) where
  -- No message fits behind the end.
  stopped :
      (end left : ℕ) (st : Progress A S)
      → scan_messages p image (read_head_v2 false) 4 endless end (suc left) end st
        ≡ ok (suc left, st)
  unfolding scan_messages
  stopped end left st =
      let past : end < end + 4 = omega arith in rw (lt→not_leb (end + 4) end past) refl

  block-handle_all :
      (ms : List Message) (pre post : List ℕ) (end : ℕ) (st out : Progress A S)
      → All IsMessageV2 ms
      → image ≡ pre ++ (codes head_code_v2 ms ++ post)
      → end ≡ length (pre ++ codes head_code_v2 ms)
      → handle_all p ms st ≡ ok out
      → scan_block_v2 p image false end (length pre) st ≡ ok (suc (end - length ms), out)
  unfolding scan_block_v2
  block-handle_all ms pre post end st out h e e' handled =
      let few = length-le-codes ms in
      let size = length-append pre (codes head_code_v2 ms) in
      let enough : suc end ≡ length ms + suc (end - length ms) = omega arith in
      scan-handle_all p image (read_head_v2 false) 4 endless head_code_v2 IsMessageV2 head-Reads
        (λ m. refl) ms pre post end (length pre) (suc end) (suc (end - length ms)) st h e e' refl
        enough
      ∙ rw handled (stopped end (end - length ms) out)

  pub header-handle_all :
      (ms : List Message) (pre post : List ℕ) (rounds addr : ℕ) (s : S) (out : Progress A S)
      → All IsMessageV2 ms
      → length (codes head_code_v2 ms) < 2 ^ 32
      → image
        ≡ pre ++ (start_code (length (codes head_code_v2 ms)) ++ (codes head_code_v2 ms ++ post))
      → p.base + addr ≡ length pre
      → handle_all p ms (record { header = empty_header; blocks = []; parser = s }) ≡ ok out
      → out.blocks ≡ []
      → parse_object_header_v2 p image (suc rounds) addr s ≡ ok out
  unfolding parse_object_header_v2 scan_rest_v2
  header-handle_all ms pre post rounds addr s out h small e place handled quiet =
      let body = codes head_code_v2 ms in
      let start = start_code (length body) in
      let e' : image ≡ (pre ++ start) ++ (body ++ post) =
        e ∙ sym (append_assoc pre start (body ++ post)) in
      let read : read_start_v2 (at image (length pre))
          ≡ ok (start_v2 0x02 (length body), at image (length (pre ++ start))) =
        subst
          (λ i.
            read_start_v2 (at i (length pre))
            ≡ ok (start_v2 0x02 (length body), at i (length (pre ++ start))))
          (sym e) ((start-Reads (length body) small).run pre (body ++ post)) in
      rw
        (
          place,
          read,
          block-handle_all ms (pre ++ start) post (length (pre ++ start) + length body) _ out h e'
              (sym (length-append (pre ++ start) body)) handled,
          quiet,
        )
        refl
