-- ===== src/Datatype/RoundTrip/Parts.antt =====
-- Types that hold other types: what is written is read back, if it is so of the types inside.
use hdf5_rs.Prelude.{
  ℕ, zero, suc, ◌+◌, ◌*◌, ◌/◌, ◌%◌, ◌^◌, ◌<◌, ◌≤◌, ◌≡◌, refl, sym, ap, subst, ◌∙◌, arith, List, [],
  ◌∷◌, ◌++◌, length, replicate, length-append, append_assoc, append-nil, bit_and, le→leb, Bool,
  true, if◌then◌else◌, Result, ok, lt→ltb,
}
use native.Mathlib.Nat.{mod-eq_of_lt}
use hdf5_rs.Prelude.Bits.{◌>>>◌}
use hdf5_rs.Prelude.Bytes.{to_le, from_le, from_le-to_le}
use hdf5_rs.Arena.{Text}
use hdf5_rs.Buffer.{Buf}
use hdf5_rs.Buffer.Parser.{
  Parser, ◌>>=◌, pure, lift, Reads, >>=-Reads, pure-Reads, Reads-from, u8-Reads, u32-Reads,
  pass-Reads,
}
use hdf5_rs.Buffer.Writing.{◌then◌, Writes, raw-Writes, then-Writes, skip-Writes, Writes-from}
use hdf5_rs.Datatype.{
  TypeDescriptor, Fields, compound, fixed_array, var_len_array, no_fields, field, disk_size,
  checked, checked_size,
}
use hdf5_rs.Datatype.Names.{IsText}
use hdf5_rs.Datatype.Encode.{
  encode_into, count_fields, encode_member, insert_by, sort_by_index, run_all, member_writers,
  array_head, vlen_head, compound_head,
}
use hdf5_rs.Datatype.Decode.{
  Ordered, no_swap, swap_fields, Parts, no_parts, part, all_none, decode_class, decode_ordered,
  Members, decode_fields, decode_compound, read_offset, pass_baggage, decode_array, order_of_array,
  read_dims, pass_if_second, wrap_dims, decode_vlen, vlen_type_of,
}
use hdf5_rs.Datatype.RoundTrip.Leaves.{head-Reads, head-Writes}
use hdf5_rs.Datatype.RoundTrip.Names.{name_code, encode_name-Writes, read_name-Reads}
use hdf5_rs.Datatype.RoundTrip.Enums.{counted_head}
use hdf5_rs.Datatype.RoundTrip.Encodable.{Encodable, EncodableFields}

-- The bytes of a descriptor, which are read back with fuel for as many types as there are bytes.
pub record Coded (desc : TypeDescriptor) : Type 0 where
  pub bytes : List ℕ
  pub written : Writes (encode_into desc) bytes
  pub read : (fuel : ℕ) → length bytes ≤ fuel → Reads (decode_ordered fuel) bytes (desc, no_swap)

abbrev plain_parts : Fields → Parts
plain_parts no_fields = no_parts
plain_parts (field name ty offset index rest) = part offset no_swap (plain_parts rest)

pub record CodedFields (size index : ℕ) (fs : Fields) : Type 0 where
  pub bytes : List ℕ
  pub written : Writes (run_all (member_writers fs)) bytes
  pub read :
      (fuel : ℕ)
      → length bytes ≤ fuel
      → Reads
          (decode_fields (decode_ordered fuel) 1 size (count_fields fs) index)
          bytes
          (fs, plain_parts fs)

with_two : (R : ℕ → Type 0) (fuel : ℕ) → 2 ≤ fuel → ((k : ℕ) → R (suc (suc k))) → R fuel
with_two R zero h r = absurd (omega arith)
with_two R (suc zero) h r = absurd (omega arith)
with_two R (suc (suc k)) h r = r k

with_one : (R : ℕ → Type 0) (n fuel : ℕ) → n + 1 ≤ fuel → ((k : ℕ) → n ≤ k → R (suc k)) → R fuel
with_one R n zero h r = absurd (omega arith)
with_one R n (suc k) h r = r k (omega arith)

-- A leaf needs fuel for one type, and for two where it has a base.
pub leaf :
    (desc : TypeDescriptor) (s : List ℕ)
    → 2 ≤ length s
    → Writes (encode_into desc) s
    → ((fuel : ℕ) → Reads (decode_ordered (suc (suc fuel))) s (desc, no_swap))
    → Coded desc
leaf desc s long w r = record {
  bytes = s;
  written = w;
  read = λ fuel h.
      with_two (λ k. Reads (decode_ordered k) s (desc, no_swap)) fuel (omega (arith, long)) r;
}

-- A type that starts with the eight bytes and holds another one.
nested :
    (desc : TypeDescriptor) (vc b0 b1 size : ℕ) (s : List ℕ)
    → size < 2 ^ 32
    → Writes (encode_into desc) (vc ∷ (b0 ∷ (b1 ∷ (0 ∷ (to_le 4 size ++ s)))))
    → ((fuel : ℕ)
        → length s ≤ fuel
        → Reads
            (decode_class (decode_ordered fuel) (bit_and vc 0x0f) (vc >>> 4) b0 b1 0 size)
            s
            (desc, no_swap))
    → Coded desc
nested desc vc b0 b1 size s h w r = record {
  bytes = vc ∷ (b0 ∷ (b1 ∷ (0 ∷ (to_le 4 size ++ s))));
  written = w;
  read = λ fuel k.
      with_one
        (λ n.
          Reads (decode_ordered n) (vc ∷ (b0 ∷ (b1 ∷ (0 ∷ (to_le 4 size ++ s))))) (desc, no_swap))
        (length s) fuel (omega (arith, k))
        λ n q. head-Reads n vc b0 b1 0 size s (desc, no_swap) h (r n q);
}

second-Reads : (s : List ℕ) → Reads (pass_if_second 2 (length s)) s tt
unfolding pass_if_second
second-Reads s = record { run = (pass-Reads s).run }

lift-Reads : {A : Type 0} (m : Result A) (a : A) → m ≡ ok a → Reads (lift m) [] a
lift-Reads m a e = record { run = λ pre post. rw (e, append-nil pre) refl }

one_dim-Reads : (n : ℕ) → n < 2 ^ 32 → Reads (read_dims 1 1) (to_le 4 n) ((n ∷ []), 1 * n)
unfolding read_dims
one_dim-Reads n h =
    let fits = lt→ltb (1 * n) (2 ^ 64) (omega arith) in
    Reads-from (append-nil (to_le 4 n)) (
      >>=-Reads _ (u32-Reads n h) (
        >>=-Reads (λ next. read_dims 0 next >>= λ (rest : List ℕ × ℕ). pure (n ∷ rest.0, rest.1))
          (lift-Reads (checked (1 * n)) (1 * n) (rw fits refl))
          (>>=-Reads (λ (rest : List ℕ × ℕ). pure (n ∷ rest.0, rest.1)) (pure-Reads ([], 1 * n))
            (pure-Reads ((n ∷ []), 1 * n)))))

baggage-Reads : Reads (pass_baggage 1) (replicate 28 0) tt
unfolding pass_baggage
baggage-Reads = record { run = (pass-Reads (replicate 28 0)).run }

pub coded_array :
    (base : TypeDescriptor) (n : ℕ)
    → n < 2 ^ 32
    → disk_size base * n < 2 ^ 32
    → checked_size base ≡ ok (disk_size base)
    → Coded base
    → Coded (fixed_array base n)
unfolding encode_into array_head decode_class decode_array
coded_array base n h k fits c =
    nested (fixed_array base n) 0x2a 0 0 (disk_size base * n)
      (1 ∷ (0 ∷ (0 ∷ (0 ∷ (to_le 4 n ++ (to_le 4 0 ++ c.bytes)))))) k
      (then-Writes
        (then-Writes
          (then-Writes
            (then-Writes
              (then-Writes
                (then-Writes
                  (then-Writes (head-Writes 0x2a 0 0 0 (disk_size base * n)) (raw-Writes _))
                  (raw-Writes _))
                (raw-Writes _))
              (raw-Writes _))
            (raw-Writes _))
          (raw-Writes _))
        c.written)
      λ fuel q.
        let finish : List ℕ × ℕ → Ordered → ℕ → Parser Ordered =
          λ dims b stride. pure (wrap_dims dims.0 b.0, order_of_array dims.1 stride b.1) in
        let sized : List ℕ × ℕ → Ordered → Parser Ordered =
          λ dims b. lift (checked_size b.0) >>= finish dims b in
        let base_then : List ℕ × ℕ → Unit {0} → Parser Ordered =
          λ dims u. decode_ordered fuel >>= sized dims in
        let dims_then : List ℕ × ℕ → Parser Ordered =
          λ dims. pass_if_second 2 4 >>= base_then dims in
        >>=-Reads _ (u8-Reads 1) (
          >>=-Reads (λ u. read_dims 1 1 >>= dims_then) (second-Reads (0 ∷ (0 ∷ (0 ∷ []))))
            (>>=-Reads dims_then (one_dim-Reads n h) (
              >>=-Reads (base_then ((n ∷ []), 1 * n)) (second-Reads (to_le 4 0)) (
                Reads-from (append-nil c.bytes) (
                  >>=-Reads (sized ((n ∷ []), 1 * n)) (c.read fuel (omega (arith, q))) (
                    >>=-Reads (finish ((n ∷ []), 1 * n) (base, no_swap))
                      (lift-Reads (checked_size base) (disk_size base) fits)
                      (pure-Reads (fixed_array base n, no_swap))))))))

pub coded_vlen : (base : TypeDescriptor) → Coded base → Coded (var_len_array base)
unfolding encode_into vlen_head decode_class decode_vlen vlen_type_of
coded_vlen base c =
    nested (var_len_array base) 0x19 0 0 16 c.bytes (omega arith)
      (then-Writes (head-Writes 0x19 0 0 0 16) c.written)
      λ fuel q. Reads-from (append-nil c.bytes) (>>=-Reads _ (c.read fuel q) (pure-Reads _))

abbrev member_code : Text → ℕ → List ℕ → List ℕ → List ℕ
member_code name offset ty rest =
    name_code name ++ (to_le 4 offset ++ (replicate 28 0 ++ (ty ++ rest)))

assoc5 : (a b c d e : List ℕ) → a ++ b ++ c ++ d ++ e ≡ a ++ (b ++ (c ++ (d ++ e)))
assoc5 a b c d e =
    append_assoc (a ++ b ++ c) d e
    ∙ append_assoc (a ++ b) c (d ++ e)
    ∙ append_assoc a b (c ++ (d ++ e))

pub coded_field :
    (name : Text) (ty : TypeDescriptor) (offset index size : ℕ) (rest : Fields)
    → IsText name
    → offset < 2 ^ 32
    → Coded ty
    → CodedFields size (suc index) rest
    → CodedFields size index (field name ty offset index rest)
unfolding encode_into encode_member decode_fields read_offset
coded_field name ty offset index size rest t h c d =
    let tail : List ℕ = c.bytes ++ d.bytes in
    let zeros28 = length-append (replicate 28 0) tail in
    record {
      bytes = member_code name offset c.bytes d.bytes;
      written =
          Writes-from (assoc5 (name_code name) (to_le 4 offset) (replicate 28 0) c.bytes d.bytes)
            (record {
              run =
                  (then-Writes
                    (then-Writes
                      (then-Writes
                        (then-Writes (encode_name-Writes name) (raw-Writes (to_le 4 offset)))
                        (raw-Writes (replicate 28 0)))
                      c.written)
                    d.written).run;
            });
      read = λ fuel q.
          let total = length-append (name_code name) (to_le 4 offset ++ (replicate 28 0 ++ tail)) in
          let inner = length-append c.bytes d.bytes in
          let finish : Ordered → Members → Parser Members = λ ty' members.
            pure (field name ty'.0 offset index members.0, part offset ty'.1 members.1) in
          let rest_then : Ordered → Parser Members = λ ty'.
            decode_fields (decode_ordered fuel) 1 size (count_fields rest) (suc index)
            >>= finish ty' in
          >>=-Reads _ (read_name-Reads name t) (
            >>=-Reads _ (u32-Reads offset h) (
              >>=-Reads (λ u. decode_ordered fuel >>= rest_then) baggage-Reads
                (>>=-Reads rest_then (c.read fuel (omega (arith, q))) (
                  Reads-from (append-nil d.bytes) (
                    >>=-Reads (finish (ty, no_swap)) (d.read fuel (omega (arith, q))) (
                      pure-Reads (
                        field name ty offset index rest,
                        part offset no_swap (plain_parts rest),
                      )))))));
    }

pub coded_none : (size index : ℕ) → CodedFields size index no_fields
unfolding encode_into decode_fields
coded_none size index = record {
  bytes = [];
  written = skip-Writes;
  read = λ fuel q. pure-Reads (no_fields, no_parts);
}

-- Members in the order of their indices stay where they are.
insert-first :
    (i : ℕ) (w : Buf → Buf) (fs : Fields)
    → EncodableFields (suc i) fs
    → insert_by (i, w) (member_writers fs) ≡ (i, w) ∷ member_writers fs
unfolding encode_into Encodable
insert-first i w no_fields h = refl
insert-first i w (field name ty offset index rest) (t, o, e, h, hs) =
    rw (le→leb i index (omega (arith, e))) refl

sort-ordered :
    (i : ℕ) (fs : Fields)
    → EncodableFields i fs
    → sort_by_index (member_writers fs) ≡ member_writers fs
unfolding encode_into sort_by_index Encodable
sort-ordered i no_fields h = refl
sort-ordered i (field name ty offset index rest) (t, o, e, h, hs) =
    ap (insert_by (index, encode_member name offset (encode_into ty)))
      (sort-ordered (suc i) rest hs)
    ∙ insert-first index (encode_member name offset (encode_into ty)) rest
        (subst (λ k. EncodableFields (suc k) rest) (sym e) hs)

all_none-plain : (fs : Fields) → all_none (plain_parts fs) ≡ true
all_none-plain no_fields = refl
all_none-plain (field name ty offset index rest) = all_none-plain rest

pub coded_compound :
    (fs : Fields) (size : ℕ)
    → size < 2 ^ 32
    → count_fields fs < 2 ^ 16
    → EncodableFields 0 fs
    → CodedFields size 0 fs
    → Coded (compound fs size)
unfolding encode_into compound_head decode_class decode_compound
coded_compound fs size h few good d =
    let n = count_fields fs in
    let count : from_le (to_le 2 n) ≡ n = from_le-to_le 2 n ∙ mod-eq_of_lt few in
    nested (compound fs size) 0x16 (n % 256) (n / 256 % 256) size d.bytes h
      (then-Writes (counted_head 0x16 n size)
        (subst (λ ws. Writes (run_all ws) d.bytes) (sym (sort-ordered 0 fs good)) d.written))
      λ fuel q.
        subst
          (λ k.
            Reads (decode_compound (decode_ordered fuel) 1 k size) d.bytes
              (compound fs size, no_swap))
          (sym count)
          (Reads-from (append-nil d.bytes) (
            >>=-Reads _ (d.read fuel q) (
              subst
                (λ (b : Bool).
                  Reads {A = Ordered}
                    (pure (compound fs size, if b then no_swap else swap_fields (plain_parts fs)))
                    [] (compound fs size, no_swap))
                (sym (all_none-plain fs)) (pure-Reads (compound fs size, no_swap)))))
