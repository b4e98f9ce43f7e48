-- ===== src/Headers/RoundTrip/First.antt =====
-- A header of version 1, whose messages are padded to multiples of eight bytes.
use hdf5_rs.Prelude.{
  ℕ, ◌+◌, ◌-◌, ◌^◌, ◌<◌, ◌≤◌, ◌≡◌, refl, ap, arith, List, [], ◌∷◌, ◌++◌, length, length-append,
  length-replicate, append-nil, append_assoc, map, replicate, All, if◌then◌else◌, ◌==◌, le→not_ltb,
  ok,
}
use hdf5_rs.Prelude.Bytes.{to_le}
use native.Mathlib.Nat.{mod-eq_of_lt}
use hdf5_rs.Buffer.{Buf, raw, read_u8, read_u16, read_u32, align8}
use hdf5_rs.Buffer.Align.{align8-RoundsUp}
use hdf5_rs.Buffer.Parser.{
  Parser, ◌>>=◌, pure, pass, fail, Reads, >>=-Reads, pure-Reads, Reads-from, u8-Reads, u16-Reads,
  u32-Reads, pass-Reads,
}
use hdf5_rs.Buffer.Writing.{raw-Writes, then-Writes, Writes-from}
use hdf5_rs.Headers.Heads.{
  Head, head_of, read_head_v1, Start, start_v1, read_fields_v1, read_start_v1,
}
use hdf5_rs.Headers.Write.{Message, write_message, write_messages}
use hdf5_rs.Headers.RoundTrip.Loop.{codes}

-- The message as it is stored
abbrev pub stored : Message → Message
stored m = record m { body = m.body ++ replicate (align8 (length m.body) - length m.body) 0 }

-- A message that fits in a header of version 1
pub record IsMessageV1 (m : Message) : Type 0 where
  pub ty : m.ty < 2 ^ 16
  pub size : length m.body + 8 ≤ 2 ^ 16

abbrev pub Fits : Message → Type 0
Fits m = (m.ty < 2 ^ 16) × (length m.body < 2 ^ 16)

length-stored : (m : Message) → IsMessageV1 m → length (stored m).body ≡ align8 (length m.body)
length-stored m h =
    let up = align8-RoundsUp (length m.body) (omega (arith, h.size)) in
    omega (
      arith,
      up.0,
      length-append m.body (replicate (align8 (length m.body) - length m.body) 0),
      length-replicate {A = ℕ} (align8 (length m.body) - length m.body) 0,
    )

aligned-lt : (m : Message) → IsMessageV1 m → align8 (length m.body) < 2 ^ 16
aligned-lt m h =
    let up = align8-RoundsUp (length m.body) (omega (arith, h.size)) in
    omega (arith, up.1.0, h.size)

pub stored-Fits : (ms : List Message) → All IsMessageV1 ms → All Fits (map stored ms)
stored-Fits [] h = tt
stored-Fits (m ∷ ms) (h, hs) =
    ((h.ty, omega (arith, length-stored m h, aligned-lt m h)), stored-Fits ms hs)

abbrev pub head_code_v1 : Message → List ℕ
head_code_v1 m = to_le 2 m.ty ++ (to_le 2 (length m.body) ++ ((m.mflags ∷ []) ++ replicate 3 0))

pub head-Reads :
    (m : Message)
    → Fits m
    → Reads read_head_v1 (head_code_v1 m) (head_of m.ty (length m.body) m.mflags)
unfolding read_head_v1
head-Reads m (ty, size) =
    let last : ℕ → ℕ → ℕ → Parser Head =
      λ mtype msize mflags. pass 3 >>= λ u. pure (head_of mtype msize mflags) in
    >>=-Reads (λ mtype. read_u16 >>= λ msize. read_u8 >>= last mtype msize) (u16-Reads m.ty ty)
      (>>=-Reads (λ msize. read_u8 >>= last m.ty msize) (u16-Reads (length m.body) size)
        (>>=-Reads (last m.ty (length m.body)) (u8-Reads m.mflags) (
          Reads-from (append-nil (replicate 3 0)) (
            >>=-Reads (λ u. pure (head_of m.ty (length m.body) m.mflags))
              (pass-Reads (replicate 3 0)) (pure-Reads _)))))

message-Writes :
    (m : Message) (b : Buf)
    → IsMessageV1 m
    → write_message m b ≡ ok (raw (head_code_v1 (stored m) ++ (stored m).body) b)
unfolding write_message
message-Writes m b h =
    let size = length-stored m h in
    let small = aligned-lt m h in
    let below : align8 (length m.body) ≤ 2 ^ 16 - 1 = omega arith in
    let pad : List ℕ = replicate (align8 (length m.body) - length m.body) 0 in
    rw (le→not_ltb (2 ^ 16 - 1) (align8 (length m.body)) below, size, mod-eq_of_lt small)
      (ap ok (
        (Writes-from
            (append_assoc
              (to_le 2 m.ty ++ to_le 2 (align8 (length m.body)) ++ (m.mflags ∷ []) ++ replicate 3 0)
              m.body pad)
            (then-Writes
              (then-Writes
                (then-Writes
                  (then-Writes
                    (then-Writes (raw-Writes (to_le 2 m.ty))
                      (raw-Writes (to_le 2 (align8 (length m.body)))))
                    (raw-Writes (m.mflags ∷ [])))
                  (raw-Writes (replicate 3 0)))
                (raw-Writes m.body))
              (raw-Writes pad))).run
          b))

pub messages-Writes :
    (ms : List Message) (b : Buf)
    → All IsMessageV1 ms
    → write_messages ms b ≡ ok (raw (codes head_code_v1 (map stored ms)) b)
unfolding write_messages
messages-Writes [] b h = rw (append-nil b.bytes) refl
messages-Writes (m ∷ ms) b (h, hs) =
    rw
      (
        message-Writes m b h,
        messages-Writes ms (raw (head_code_v1 (stored m) ++ (stored m).body) b) hs,
        append_assoc b.bytes (head_code_v1 (stored m) ++ (stored m).body)
            (codes head_code_v1 (map stored ms)),
      )
      refl

abbrev pub start_code : ℕ → ℕ → List ℕ
start_code count size =
    (1 ∷ []) ++ ((0 ∷ []) ++ (to_le 2 count ++ (to_le 4 1 ++ (to_le 4 size ++ replicate 4 0))))

pub start-Reads :
    (count size : ℕ)
    → count < 2 ^ 16
    → size < 2 ^ 32
    → Reads read_start_v1 (start_code count size) (start_v1 count size)
unfolding read_start_v1 read_fields_v1
start-Reads count size few small =
    let last : ℕ → ℕ → Parser Start = λ n k. pass 4 >>= λ u. pure (start_v1 n k) in
    >>=-Reads
      (λ version. if version == 1 then read_fields_v1 else fail "unsupported object header version")
      (u8-Reads 1)
      (>>=-Reads (λ rsv. read_u16 >>= λ n. read_u32 >>= λ refs. read_u32 >>= last n) (u8-Reads 0)
        (>>=-Reads (λ n. read_u32 >>= λ refs. read_u32 >>= last n) (u16-Reads count few)
          (>>=-Reads (λ refs. read_u32 >>= last count) (u32-Reads 1 (omega arith))
            (>>=-Reads (last count) (u32-Reads size small) (
              Reads-from (append-nil (replicate 4 0)) (
                >>=-Reads (λ u. pure (start_v1 count size)) (pass-Reads (replicate 4 0))
                  (pure-Reads (start_v1 count size))))))))
