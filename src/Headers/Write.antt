-- ===== src/Headers/Write.antt =====
-- `write_object_header` and `write_object_header_v2`, and `append`. Messages that are shared are not
-- written here, so that no patch of a shared message is recorded.
use hdf5_rs.Prelude.{
  ℕ, ◌-◌, ◌%◌, ◌^◌, List, [], ◌∷◌, length, ltb, if◌then◌else◌, Result, ok, err, ◌>>=◌,
}
use hdf5_rs.Buffer.{Buf, raw, u8, u16, u32, zeros, align8, pad8}
use hdf5_rs.Buffer.Writing.{◌then◌}
use hdf5_rs.Checksum.{checksum}
use hdf5_rs.Messages.{new_buf}
use hdf5_rs.Headers.Scan.{ohdr}

pub record Message : Type 0 where
  pub ty : ℕ
  pub mflags : ℕ
  pub body : List ℕ

-- The bytes at the next multiple of eight: their address and the buffer.
unfoldable pub append : List ℕ → Buf → ℕ × Buf
unfolding pad8
append s b = let padded = pad8 b in (length padded.bytes, raw s padded)

unfoldable pub write_message : Message → Buf → Result Buf
unfolding align8
write_message m b =
    let padded = align8 (length m.body) in
    if ltb (2 ^ 16 - 1) padded
    then err "object header message too large"
    else ok (
        (u16 m.ty
            then u16 (padded % 2 ^ 16)
            then u8 m.mflags
            then zeros 3
            then raw m.body
            then zeros (padded - length m.body))
          b)

unfoldable pub write_messages : List Message → Buf → Result Buf
unfolding write_message
write_messages [] b = ok b
write_messages (m ∷ ms) b = write_message m b >>= write_messages ms

unfoldable pub write_start : (count size : ℕ) → Buf → Buf
write_start count size =
    u8 1 then u8 0 then u16 (count % 2 ^ 16) then u32 1 then u32 (size % 2 ^ 32) then zeros 4

unfoldable pub write_object_header : List Message → Buf → Result (ℕ × Buf)
unfolding write_messages write_start append
write_object_header msgs file = write_messages msgs new_buf >>= λ body.
    ok (append (raw body.bytes (write_start (length msgs) (length body.bytes) new_buf)).bytes file)

unfoldable pub write_message_v2 : Message → Buf → Result Buf
write_message_v2 m b =
    if ltb 0xff m.ty
    then err "v2 object header message type out of range"
    else (if ltb (2 ^ 16 - 1) (length m.body)
        then err "object header message too large"
        else ok ((u8 m.ty then u16 (length m.body) then u8 m.mflags then raw m.body) b))

unfoldable pub write_messages_v2 : List Message → Buf → Result Buf
unfolding write_message_v2
write_messages_v2 [] b = ok b
write_messages_v2 (m ∷ ms) b = write_message_v2 m b >>= write_messages_v2 ms

unfoldable pub write_start_v2 : (size : ℕ) → Buf → Buf
write_start_v2 size = raw ohdr then u8 2 then u8 0x02 then u32 (size % 2 ^ 32)

-- The checksum of all that is written, at its end
unfoldable pub with_checksum : Buf → List ℕ
unfolding checksum
with_checksum h = (u32 (checksum h.bytes) h).bytes

unfoldable pub write_object_header_v2 : List Message → Buf → Result (ℕ × Buf)
unfolding write_messages_v2 write_start_v2 append
write_object_header_v2 msgs file = write_messages_v2 msgs new_buf >>= λ body.
    let h = raw body.bytes (write_start_v2 (length body.bytes) new_buf) in
    ok (append (with_checksum h) file)
