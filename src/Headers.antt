-- ===== src/Headers.antt =====
-- Object headers (hdf5/src/format/reader.rs and writer.rs): the messages of an object, version 1 and
-- version 2. Here is what one message does to the header that is read, `handle_message`; Scan is
-- the loops over the blocks of messages, Write what writes a header.
pub mod Heads
pub mod Scan
pub mod Write
pub mod RoundTrip
mod Runs
use hdf5_rs.Prelude.{
  ℕ, ◌+◌, ◌^◌, List, [], ◌∷◌, ◌++◌, length, Bool, true, false, ◌&&◌, ◌||◌, not, ◌==◌, bit_and,
  if◌then◌else◌, Option, none, some, Result, ok, err, panic, out_of_fuel, ◌>>=◌,
}
use hdf5_rs.Arena.{Text, Link}
use hdf5_rs.Buffer.{Cursor, read_u16, read_u64}
use hdf5_rs.Buffer.Parser.{Parser}
use hdf5_rs.Datatype.Decode.{Ordered}
use hdf5_rs.Messages.{undef, cstr}
use hdf5_rs.Messages.Space.{ParsedDataspace, parse_dataspace}
use hdf5_rs.Messages.Pipeline.{NamedFilter, parse_filter_pipeline}
use hdf5_rs.Messages.Layout.{RawLayout, parse_layout}
use hdf5_rs.Messages.Fill.{FillValue, undefined, parse_fill_old, parse_fill}
use hdf5_rs.Messages.Info.{two_addresses, info_addresses, parse_mtime, parse_shmesg, parse_dtype}
use hdf5_rs.Messages.LinkMessage.{parse_link_message}

-- `A` is the type of an attribute.
pub record ObjHeader (A : Type 0) : Type 0 where
  pub dataspace : Option ParsedDataspace
  pub dtype : Option Ordered
  pub fill : FillValue
  pub layout : Option RawLayout
  pub filters : List NamedFilter
  pub attrs : List A
  pub comment : Option Text
  pub symbol_table : Option (ℕ × ℕ)
  pub links : List Link
  pub is_group_like : Bool
  pub dense_links : Option (ℕ × ℕ)
  pub dense_attrs : Option (ℕ × ℕ)
  pub mtime : ℕ
  pub shmesg_table : Option (ℕ × ℕ)

-- `ObjHeader::default()`
abbrev pub empty_header : {A : Type 0} → ObjHeader A
empty_header = record {
  dataspace = none;
  dtype = none;
  fill = undefined;
  layout = none;
  filters = [];
  attrs = [];
  comment = none;
  symbol_table = none;
  links = [];
  is_group_like = false;
  dense_links = none;
  dense_attrs = none;
  mtime = 0;
  shmesg_table = none;
}

-- The parts of the parser that a message calls: `parse_object`, `parse_attribute` and
-- `handle_shared_message`, which change the rest of the parser, `S`, and `base` of `Parser::addr`.
pub record Callees (A S : Type 0) : Type 0 where
  pub base : ℕ
  pub open_object : ℕ → S → Result (ℕ × S)
  pub parse_attribute : List ℕ → S → Result (Option A × S)
  pub handle_shared_message : ℕ → List ℕ → ObjHeader A → S → Result (ObjHeader A × S)

-- The header so far, the blocks that are still to be scanned (their start and length), and the rest
-- of the parser.
pub record Progress (A S : Type 0) : Type 0 where
  pub header : ObjHeader A
  pub blocks : List (ℕ × ℕ)
  pub parser : S

-- What a cursor over the body reads
abbrev pub read_body : {B : Type 0} → Parser B → List ℕ → Result B
read_body reader body = reader (record { image = body; pos = 0 }) >>= λ r. ok r.0

-- `Some((fheap, name_bt2))` if both are there
abbrev pub dense_pair : ℕ × ℕ → Option (ℕ × ℕ) → Option (ℕ × ℕ)
dense_pair (fheap, name_bt2) old =
    if not (fheap == undef) && not (name_bt2 == undef) then some (fheap, name_bt2) else old

abbrev pub push_some : {B : Type 0} → Option B → List B → List B
push_some none bs = bs
push_some (some b) bs = bs ++ (b ∷ [])

module _ {A S : Type 0} (p : Callees A S) where
  -- A message that only changes the header, by what is read from its body
  abbrev pub update :
      {B : Type 0}
      → Parser B
      → (B → ObjHeader A → ObjHeader A)
      → List ℕ
      → Progress A S
      → Result (Progress A S)
  update reader change body st =
      read_body reader body >>= λ b. ok (record st { header = change b st.header })

  abbrev pub with_attribute : List ℕ → Progress A S → Result (Progress A S)
  with_attribute body st = p.parse_attribute body st.parser >>= λ r. ok (record st {
    header = record st.header { attrs = push_some r.0 st.header.attrs };
    parser = r.1;
  })

  abbrev pub with_link : List ℕ → Progress A S → Result (Progress A S)
  with_link body st = parse_link_message p.open_object body st.parser >>= λ r. ok (record st {
    header = record st.header { links = push_some r.0 st.header.links };
    parser = r.1;
  })

  abbrev pub with_block : List ℕ → Progress A S → Result (Progress A S)
  with_block body st = read_body two_addresses body >>= λ r.
      ok (record st { blocks = st.blocks ++ ((p.base + r.0, r.1) ∷ []) })

  -- `match mtype`, the messages of datasets
  unfoldable pub handle_data : (mtype : ℕ) → List ℕ → Progress A S → Result (Progress A S)
  unfolding parse_dataspace parse_dtype parse_fill_old parse_fill parse_layout parse_filter_pipeline
  handle_data mtype body st =
      if mtype == 0x0001
      then update parse_dataspace (λ s oh. record oh { dataspace = some s }) body st
      else (if mtype == 0x0003
          then update parse_dtype (λ t oh. record oh { dtype = some t }) body st
          else (if mtype == 0x0004
              then update (parse_fill_old st.header.fill) (λ f oh. record oh { fill = f }) body st
              else (if mtype == 0x0005
                  then update (parse_fill st.header.fill) (λ f oh. record oh { fill = f }) body st
                  else (if mtype == 0x0008
                      then update parse_layout (λ l oh. record oh { layout = some l }) body st
                      else (if mtype == 0x000b
                          then update parse_filter_pipeline (λ fs oh. record oh { filters = fs })
                              body st
                          else ok st)))))

  -- The messages of groups and those of any object
  unfoldable pub handle_other : (mtype : ℕ) → List ℕ → Progress A S → Result (Progress A S)
  unfolding info_addresses read_u64 read_u16 cstr two_addresses parse_mtime parse_shmesg
      parse_link_message
  handle_other mtype body st =
      if mtype == 0x000c
      then with_attribute body st
      else (if mtype == 0x000d
          then ok (record st { header = record st.header { comment = some (cstr body) } })
          else (if mtype == 0x0010
              then with_block body st
              else (if mtype == 0x0011
                  then update two_addresses (λ t oh. record oh { symbol_table = some t }) body st
                  else (if mtype == 0x0002
                      then update (info_addresses read_u64)
                          (λ a oh. record oh {
                            is_group_like = true;
                            dense_links = dense_pair a oh.dense_links;
                          })
                          body st
                      else (if mtype == 0x000a
                          then ok (record st { header = record st.header { is_group_like = true } })
                          else (if mtype == 0x0006
                              then with_link body st
                              else (if mtype == 0x0015
                                  then update (info_addresses read_u16)
                                      (λ a oh. record oh {
                                        dense_attrs = dense_pair a oh.dense_attrs;
                                      })
                                      body st
                                  else (if mtype == 0x0012
                                      then update (parse_mtime st.header.mtime)
                                          (λ t oh. record oh { mtime = t }) body st
                                      else (if mtype == 0x000f
                                          then update parse_shmesg
                                              (λ t oh. record oh { shmesg_table = some t }) body st
                                          else ok st)))))))))

  abbrev pub is_data : ℕ → Bool
  is_data mtype =
      mtype == 0x0001
      || (mtype == 0x0003
          || (mtype == 0x0004 || (mtype == 0x0005 || (mtype == 0x0008 || mtype == 0x000b))))

  abbrev pub with_shared : (mtype : ℕ) → List ℕ → Progress A S → Result (Progress A S)
  with_shared mtype body st = p.handle_shared_message mtype body st.header st.parser >>= λ r.
      ok (record st { header = r.0; parser = r.1 })

  -- A shared message is a reference; the body of any other is the message itself.
  unfoldable pub handle_message : (mtype mflags : ℕ) → List ℕ → Progress A S → Result (Progress A S)
  unfolding handle_data handle_other
  handle_message mtype mflags body st =
      if bit_and mflags 0x02 == 0
      then (if is_data mtype then handle_data mtype body st else handle_other mtype body st)
      else with_shared mtype body st
