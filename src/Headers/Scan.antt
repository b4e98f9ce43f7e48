-- ===== src/Headers/Scan.antt =====
-- The blocks of messages: `parse_object_header` with its two versions.
use hdf5_rs.Prelude.{
  ℕ, zero, suc, ◌+◌, ◌-◌, List, [], ◌∷◌, length, take, drop, Bool, ◌||◌, ltb, leb, if◌then◌else◌,
  Result, ok, err, out_of_fuel, ◌>>=◌, ◌>>◌, ensure, assert,
}
use hdf5_rs.Arena.{same}
use hdf5_rs.Buffer.{Cursor, take_bytes}
use hdf5_rs.Buffer.Parser.{Parser}
use hdf5_rs.Headers.{empty_header, Callees, Progress, handle_message}
use hdf5_rs.Headers.Heads.{Head, read_head_v1, read_head_v2, read_start_v1, read_start_v2}

abbrev pub ohdr : List ℕ
ohdr = b'O' ∷ b'H' ∷ b'D' ∷ b'R' ∷ []

abbrev pub ochk : List ℕ
ochk = b'O' ∷ b'C' ∷ b'H' ∷ b'K' ∷ []

abbrev pub at : List ℕ → ℕ → Cursor
at image pos = record { image = image; pos = pos }

-- The bytes of a body
abbrev pub body_at : List ℕ → ℕ → ℕ → List ℕ
body_at image start size = take size (drop start image)

module _ {A S : Type 0} where
  -- Version 1: the fuel of the messages is the number of those that are not read yet.
  abbrev pub all_read : Progress A S → Result (ℕ × Progress A S)
  all_read st = ok (0, st)

  abbrev pub endless : Progress A S → Result (ℕ × Progress A S)
  endless st = out_of_fuel

module _ {A S : Type 0} (p : Callees A S) (image : List ℕ) where
  -- The messages of one block, up to `end`, with what is left of the fuel. `spent` is the result
  -- when there is none.
  module _ (read_head : Parser Head) (hdr_len : ℕ)
      (spent : Progress A S → Result (ℕ × Progress A S)) where
    unfoldable pub scan_messages : (end fuel pos : ℕ) → Progress A S → Result (ℕ × Progress A S)
    unfolding handle_message
    scan_messages end zero pos st = spent st
    scan_messages end (suc fuel) pos st =
        if leb (pos + hdr_len) end
        then (read_head (at image pos) >>= λ r.
            let stop = r.1.pos + r.0.msize in
            if ltb end stop || ltb (length image) stop
            then ok (suc fuel, st)
            else (handle_message p r.0.mtype r.0.mflags (body_at image r.1.pos r.0.msize) st
                >>= λ st'. scan_messages end fuel stop st'))
        else ok (suc fuel, st)

  unfoldable pub scan_blocks_v1 : (rounds left : ℕ) → Progress A S → Result (Progress A S)
  unfolding scan_messages read_head_v1
  scan_blocks_v1 zero left st = out_of_fuel
  scan_blocks_v1 (suc rounds) left st = elim st.blocks [
    | [] ↦ ok st
    | (start, len) ∷ rest ↦
        scan_messages read_head_v1 8 all_read (start + len) left start (record st { blocks = rest })
        >>= λ r. scan_blocks_v1 rounds r.0 r.1
  ]

  abbrev pub begin : S → (start len : ℕ) → Progress A S
  begin s start len = record { header = empty_header; blocks = (start, len) ∷ []; parser = s }

  -- A block that was not scanned is left by a message that was read, so `num_msgs + 2` rounds are
  -- enough.
  unfoldable pub parse_object_header_v1 : ℕ → S → Result (Progress A S)
  unfolding scan_blocks_v1
  parse_object_header_v1 addr s = read_start_v1 (at image (p.base + addr)) >>= λ r.
      scan_blocks_v1 (r.0.count + 2) r.0.count (begin s r.1.pos r.0.size)

  -- Version 2: the messages of a block that starts at `pos`. Each takes four bytes at least.
  unfoldable pub scan_block_v2 :
      (ordered : Bool) (end pos : ℕ) → Progress A S → Result (ℕ × Progress A S)
  unfolding scan_messages read_head_v2
  scan_block_v2 ordered end pos st =
      scan_messages (read_head_v2 ordered) (if ordered then 6 else 4) endless end (suc end) pos st

  -- A continuation: its signature, and the checksum that ends it
  unfoldable pub scan_more_v2 :
      (ordered : Bool) (start len : ℕ) → Progress A S → Result (ℕ × Progress A S)
  unfolding scan_block_v2 take_bytes same
  scan_more_v2 ordered start len st = take_bytes 4 (at image start) >>= λ r.
      ensure (same r.0 ochk) "bad OCHK signature"
      >> (assert (leb 4 (start + len)) >> scan_block_v2 ordered (start + len - 4) r.1.pos st)

  unfoldable pub scan_rest_v2 : (ordered : Bool) (rounds : ℕ) → Progress A S → Result (Progress A S)
  unfolding scan_more_v2
  scan_rest_v2 ordered zero st = out_of_fuel
  scan_rest_v2 ordered (suc rounds) st = elim st.blocks [
    | [] ↦ ok st
    | (start, len) ∷ rest ↦ scan_more_v2 ordered start len (record st { blocks = rest }) >>= λ r.
        scan_rest_v2 ordered rounds r.1
  ]

  -- The number of continuations has no bound in the source: `rounds` is one for the model.
  unfoldable pub parse_object_header_v2 : (rounds addr : ℕ) → S → Result (Progress A S)
  unfolding scan_block_v2 scan_rest_v2 read_start_v2
  parse_object_header_v2 rounds addr s = read_start_v2 (at image (p.base + addr)) >>= λ r.
      scan_block_v2 r.0.ordered (r.1.pos + r.0.size) r.1.pos
        (record { header = empty_header; blocks = []; parser = s })
      >>= λ q. scan_rest_v2 r.0.ordered rounds q.1

  unfoldable pub parse_object_header : (rounds addr : ℕ) → S → Result (Progress A S)
  unfolding parse_object_header_v1 parse_object_header_v2 same
  parse_object_header rounds addr s =
      if ltb (length image) (p.base + addr + 4)
      then err "object header address out of bounds"
      else (if same (body_at image (p.base + addr) 4) ohdr
          then parse_object_header_v2 rounds addr s
          else parse_object_header_v1 addr s)
