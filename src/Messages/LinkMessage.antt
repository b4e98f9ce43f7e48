-- ===== src/Messages/LinkMessage.antt =====
-- The message of a link: `encode_link_message` and `parse_link_message`. The target of a hard link
-- is parsed as an object: `open_object` stands for `parse_object`, and `S` for the state of the
-- parser that it changes. It is called when all bytes of the message are read.
use hdf5_rs.Prelude.{
  ℕ, zero, suc, ◌+◌, ◌%◌, ◌^◌, List, [], ◌∷◌, length, Bool, true, false, ltb, ◌==◌, bit_and, bit_or,
  if◌then◌else◌, Option, none, some, Result, ok, err, panic, out_of_fuel,
}
use hdf5_rs.Arena.{Text, LinkTarget, hard, soft, external, Link}
use hdf5_rs.Buffer.{
  Buf, Cursor, raw, u8, u16, u32, u64, take_bytes, read_u8, read_u16, read_u64, read_uint,
}
use hdf5_rs.Buffer.Parser.{Parser, ◌>>=◌, pure, lift}
use hdf5_rs.Buffer.Writing.{◌then◌}
use hdf5_rs.Datatype.Names.{lossy}
use hdf5_rs.Messages.{new_buf, before_zero, after_zero, cstr}

abbrev pub len_class : ℕ → ℕ
len_class n = if ltb n 0x100 then 0 else (if ltb n 0x10000 then 1 else 2)

abbrev pub type_present : LinkTarget → Bool
type_present (hard id) = false
type_present (soft path) = true
type_present (external file path) = true

abbrev pub type_code : LinkTarget → ℕ
type_code (hard id) = 0
type_code (soft path) = 1
type_code (external file path) = 64

abbrev pub when_set : Bool → ℕ → ℕ → ℕ
when_set true bit flags = bit_or flags bit
when_set false bit flags = flags

unfoldable pub link_flags : ℕ → (typed utf8 : Bool) → ℕ
link_flags class typed utf8 = when_set utf8 0x10 (when_set typed 0x08 class)

abbrev pub write_if : Bool → ℕ → Buf → Buf
write_if true v b = u8 v b
write_if false v b = b

-- The length of the name, in 1, 2 or 4 bytes
unfoldable pub write_len : (class n : ℕ) → Buf → Buf
write_len zero n = u8 (n % 2 ^ 8)
write_len (suc zero) n = u16 (n % 2 ^ 16)
write_len (suc (suc class)) n = u32 (n % 2 ^ 32)

unfoldable pub write_target : LinkTarget → Option ℕ → Buf → Result Buf
write_target (hard id) none b = err "missing hard link target"
write_target (hard id) (some oh) b = ok (u64 oh b)
write_target (soft path) oh b = ok ((u16 (length path % 2 ^ 16) then raw path) b)
write_target (external file path) oh b = ok (
    (u16 ((1 + length file + 1 + length path + 1) % 2 ^ 16)
        then u8 0
        then raw file
        then u8 0
        then raw path
        then u8 0)
      b)

unfoldable pub write_head : Link → Buf → Buf
unfolding link_flags write_len
write_head l =
    u8 1
    then u8 (link_flags (len_class (length l.name)) (type_present l.target) l.utf8)
    then write_if (type_present l.target) (type_code l.target)
    then write_if l.utf8 1
    then write_len (len_class (length l.name)) (length l.name)
    then raw l.name

abbrev pub written : Result Buf → Result (List ℕ)
written panic = panic
written out_of_fuel = out_of_fuel
written (err words) = err words
written (ok b) = ok b.bytes

unfoldable pub encode_link_message : Link → (hard_target_oh : Option ℕ) → Result (List ℕ)
unfolding write_head write_target
encode_link_message l oh = written (write_target l.target oh (write_head l new_buf))

-- The file and the path of an external link, behind the first byte of the blob
unfoldable pub external_parts : List ℕ → Result LinkTarget
unfolding cstr before_zero after_zero
external_parts [] = panic
external_parts (flags ∷ rest) = ok (external (cstr rest) (cstr (after_zero rest)))

-- The target, a hard one by the address of its object. None for a type that is not known.
unfoldable pub parse_target : ℕ → Parser (Option LinkTarget)
unfolding read_u16 read_u64 take_bytes lossy external_parts
parse_target link_type =
    if link_type == 0
    then (read_u64 >>= λ oh_addr. pure (some (hard oh_addr)))
    else (if link_type == 1
        then (read_u16 >>= λ len. take_bytes len >>= λ path. pure (some (soft (lossy path))))
        else (if link_type == 64
            then (read_u16 >>= λ len.
                take_bytes len >>= λ blob. lift (external_parts blob) >>= λ t. pure (some t))
            else pure none))

abbrev pub link_of : Text → (creation_order charset : ℕ) → Option LinkTarget → Option Link
link_of name creation_order charset none = none
link_of name creation_order charset (some target) =
    some (record {
      name = name;
      target = target;
      creation_order = creation_order;
      utf8 = charset == 1;
    })

abbrev pub read_if : ℕ → Parser ℕ → Parser ℕ
read_if bit reader = if bit == 0 then pure 0 else reader

-- The fields behind the flags, by the bits of the flags that say which of them stand there
unfoldable pub parse_link_fields : (typed ordered charset class : ℕ) → Parser (Option Link)
unfolding read_u8 read_u64 read_uint take_bytes lossy parse_target
parse_link_fields typed ordered charset class = do
  link_type ← read_if typed read_u8
  creation_order ← read_if ordered read_u64
  charset ← read_if charset read_u8
  name_len ← read_uint (2 ^ class)
  name ← take_bytes name_len
  target ← parse_target link_type
  pure (link_of (lossy name) creation_order charset target)

unfoldable pub parse_link_body : ℕ → Parser (Option Link)
unfolding parse_link_fields
parse_link_body flags =
    parse_link_fields (bit_and flags 0x08) (bit_and flags 0x04) (bit_and flags 0x10)
      (bit_and flags 0x03)

unfoldable pub parse_link_version : ℕ → Parser (Option Link)
unfolding read_u8 parse_link_body
parse_link_version version = if version == 1 then (read_u8 >>= parse_link_body) else pure none

unfoldable pub parse_link_bytes : Parser (Option Link)
unfolding read_u8 parse_link_version
parse_link_bytes c = (read_u8 >>= parse_link_version) c

module _ {S : Type 0} (open_object : ℕ → S → Result (ℕ × S)) where
  abbrev pub opened : Link → S → Result (Option Link × S)
  opened l s = elim l.target [
    | hard oh_addr ↦ (elim (open_object oh_addr s) [
      | panic ↦ panic
      | out_of_fuel ↦ out_of_fuel
      | err words ↦ err words
      | ok r ↦ ok (some (record l { target = hard r.0 }), r.1)
    ])
    | soft path ↦ ok (some l, s)
    | external file path ↦ ok (some l, s)
  ]

  abbrev pub open_link : Option Link → S → Result (Option Link × S)
  open_link none s = ok (none, s)
  open_link (some l) s = opened l s

  abbrev pub open_read : Result (Option Link × Cursor) → S → Result (Option Link × S)
  open_read panic s = panic
  open_read out_of_fuel s = out_of_fuel
  open_read (err words) s = err words
  open_read (ok r) s = open_link r.0 s

  unfoldable pub parse_link_message : List ℕ → S → Result (Option Link × S)
  unfolding parse_link_bytes
  parse_link_message body s = open_read (parse_link_bytes (record { image = body; pos = 0 })) s
