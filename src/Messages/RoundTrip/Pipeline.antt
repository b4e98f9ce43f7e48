-- ===== src/Messages/RoundTrip/Pipeline.antt =====
-- The message of a filter pipeline is read back.
use hdf5_rs.Prelude.{
  ℕ, ◌+◌, ◌%◌, ◌^◌, ◌<◌, ◌≤◌, ◌≡◌, refl, ap, sym, subst, ◌∙◌, arith, List, [], ◌∷◌, ◌++◌, length,
  length-append, length-replicate, Bool-cases, inl, inr, lt→ltb, All, append-nil, append_assoc,
  replicate, if◌then◌else◌,
}
use hdf5_rs.Prelude.Bytes.{to_le}
use native.Mathlib.Nat.{mod-eq_of_lt}
use hdf5_rs.Arena.{Text}
use hdf5_rs.Buffer.{Buf, align8, u32, take_bytes, read_u8, read_u16, read_u32}
use hdf5_rs.Buffer.Align.{align8-RoundsUp}
use hdf5_rs.Buffer.Parser.{
  Parser, ◌>>=◌, pure, pass, Reads, >>=-Reads, pure-Reads, Reads-from, u8-Reads, u16-Reads,
  u32-Reads, pass-Reads, take-Reads,
}
use hdf5_rs.Buffer.Writing.{Writes, raw-Writes, then-Writes, skip-Writes, Writes-from}
use hdf5_rs.Buffer.Series.{
  read_each, each_code, write_each-Writes, write_every-Writes, read_each-Reads,
}
use hdf5_rs.Datatype.Names.{IsText, lossy}
use hdf5_rs.Datatype.RoundTrip.Names.{name_code, padding, encode_name-Writes}
use hdf5_rs.Messages.{new_buf, before_zero, cstr}
use hdf5_rs.Buffer.Writing.{append_seven}
use hdf5_rs.Messages.RoundTrip.Names.{before_zero-ended}
use hdf5_rs.Messages.Pipeline.{
  NamedFilter, name_len, write_name, is_odd, write_gap, encode_filter, encode_filter_pipeline,
  parse_name_len, parse_name, pass_gap, named_filter, parse_filter, parse_filters,
  parse_filter_pipeline,
}

-- A filter that can be stored: an id and a count of values of 16 bits, values of 32, and a name
-- that is text whose padded length has 16 bits.
pub record IsStoredFilter (f : NamedFilter) : Type 0 where
  pub id : f.filter.id < 2 ^ 16
  pub count : length f.filter.cdata < 2 ^ 16
  pub values : All (λ v. v < 2 ^ 32) f.filter.cdata
  pub name : IsText f.name
  pub short : length f.name + 8 < 2 ^ 16

abbrev stored_name : Text → List ℕ
stored_name [] = []
stored_name (c ∷ cs) = name_code (c ∷ cs)

name-Writes : (name : Text) → Writes (write_name name) (stored_name name)
unfolding write_name
name-Writes [] = skip-Writes
name-Writes (c ∷ cs) = record { run = (encode_name-Writes (c ∷ cs)).run }

empty-Reads : Reads (parse_name 0) [] []
unfolding parse_name
empty-Reads = pure-Reads {A = Text} []

length-name_code :
    (name : Text) → length name + 8 < 2 ^ 16 → length (name_code name) ≡ align8 (length name + 1)
length-name_code name h =
    let up = align8-RoundsUp (length name + 1) (omega arith) in
    omega (
      arith,
      up.0,
      length-append (name ++ (0 ∷ [])) (replicate (padding name) 0),
      length-append name (0 ∷ []),
      length-replicate {A = ℕ} (padding name) 0,
    )

name_len-lt : (name : Text) → length name + 8 < 2 ^ 16 → name_len name < 2 ^ 16
unfolding name_len
name_len-lt [] h = omega arith
name_len-lt (c ∷ cs) h =
    let up = align8-RoundsUp (length (c ∷ cs) + 1) (omega arith) in omega (arith, up.1.0)

cstr-name_code : (name : Text) → IsText name → cstr (name_code name) ≡ name
unfolding cstr
cstr-name_code name h =
    ap (λ t. lossy (before_zero t)) (append_assoc name (0 ∷ []) (replicate (padding name) 0))
    ∙ ap lossy (before_zero-ended name (replicate (padding name) 0) h.no_end)
    ∙ h.utf8

padded-Reads :
    (name : Text) (n : ℕ)
    → IsText name
    → 1 ≤ n
    → length (name_code name) ≡ n
    → Reads (parse_name n) (name_code name) name
unfolding parse_name
padded-Reads name n h pos e =
    let go : Reads (take_bytes (length (name_code name)) >>= λ raw. pure (cstr raw))
        (name_code name) name =
      Reads-from (append-nil (name_code name)) (
        >>=-Reads (λ raw. pure (cstr raw)) (take-Reads (name_code name))
          (rw (cstr-name_code name h) (pure-Reads name))) in
    rw (lt→ltb 0 n pos)
      (subst (λ k. Reads (take_bytes k >>= λ raw. pure (cstr raw)) (name_code name) name) e go)

name-Reads :
    (name : Text)
    → IsText name
    → length name + 8 < 2 ^ 16
    → Reads (parse_name (name_len name)) (stored_name name) name
unfolding name_len
name-Reads [] h k = empty-Reads
name-Reads (c ∷ cs) h k =
    let up = align8-RoundsUp (length (c ∷ cs) + 1) (omega arith) in
    padded-Reads (c ∷ cs) (align8 (length (c ∷ cs) + 1)) h (omega (arith, up.0))
      (length-name_code (c ∷ cs) k)

abbrev gap_code : ℕ → List ℕ
gap_code n = if is_odd n then to_le 4 0 else []

gap-Writes : (n : ℕ) → Writes (write_gap n) (gap_code n)
gap-Writes n = elim (Bool-cases (is_odd n)) [
  | inl odd ↦ record { run = λ b. rw (odd, write_gap) refl }
  | inr even ↦ record { run = λ b. rw (even, write_gap) ((skip-Writes).run b) }
]

gap-Reads : (n : ℕ) → Reads (pass_gap 1 n) (gap_code n) tt
gap-Reads n = elim (Bool-cases (is_odd n)) [
  | inl odd ↦ rw odd (pass-Reads (to_le 4 0))
  | inr even ↦ rw even (pure-Reads tt)
]

abbrev filter_tail : NamedFilter → List ℕ
filter_tail f = each_code (to_le 4) f.filter.cdata ++ gap_code (length f.filter.cdata)

abbrev filter_code : NamedFilter → List ℕ
filter_code f =
    to_le 2 f.filter.id
    ++ (to_le 2 (name_len f.name)
        ++ (to_le 2 1
            ++ (to_le 2 (length f.filter.cdata) ++ (stored_name f.name ++ filter_tail f))))

filter-Writes : (f : NamedFilter) → IsStoredFilter f → Writes (encode_filter f) (filter_code f)
unfolding encode_filter
filter-Writes f h =
    let len : name_len f.name % 2 ^ 16 ≡ name_len f.name =
      mod-eq_of_lt (name_len-lt f.name h.short) in
    let count : length f.filter.cdata % 2 ^ 16 ≡ length f.filter.cdata = mod-eq_of_lt h.count in
    rw (len, count)
      (Writes-from
        (append_seven (to_le 2 f.filter.id) (to_le 2 (name_len f.name)) (to_le 2 1)
          (to_le 2 (length f.filter.cdata)) (stored_name f.name) _ _)
        (then-Writes
          (then-Writes
            (then-Writes
              (then-Writes (then-Writes (then-Writes (raw-Writes _) (raw-Writes _)) (raw-Writes _))
                (raw-Writes _))
              (name-Writes f.name))
            (write_every-Writes u32 (to_le 4) f.filter.cdata (λ v. raw-Writes (to_le 4 v))))
          (gap-Writes (length f.filter.cdata))))

tail-Reads :
    (f : NamedFilter)
    → IsStoredFilter f
    → Reads
        (read_each read_u32 (length f.filter.cdata) >>= λ cdata.
          pass_gap 1 (length f.filter.cdata) >>= λ u. pure (named_filter f.filter.id cdata f.name))
        (filter_tail f)
        f
tail-Reads f h =
    >>=-Reads
      (λ cdata.
        pass_gap 1 (length f.filter.cdata) >>= λ u. pure (named_filter f.filter.id cdata f.name))
      (read_each-Reads read_u32 (to_le 4) (λ v. v < 2 ^ 32) f.filter.cdata u32-Reads h.values)
      (Reads-from (append-nil (gap_code (length f.filter.cdata)))
        (>>=-Reads (λ u. pure f) (gap-Reads (length f.filter.cdata)) (pure-Reads f)))

filter-Reads : (f : NamedFilter) → IsStoredFilter f → Reads (parse_filter 1) (filter_code f) f
unfolding parse_filter parse_name_len
filter-Reads f h =
    let last : ℕ → ℕ → Text → Parser NamedFilter = λ id nvals name.
      read_each read_u32 nvals >>= λ cdata.
      pass_gap 1 nvals >>= λ u. pure (named_filter id cdata name) in
    let third : ℕ → ℕ → ℕ → Parser NamedFilter = λ id len nvals. parse_name len >>= last id nvals in
    let second : ℕ → ℕ → Parser NamedFilter =
      λ id len. read_u16 >>= λ flags. read_u16 >>= third id len in
    >>=-Reads (λ id. read_u16 >>= second id) (u16-Reads f.filter.id h.id)
      (>>=-Reads (second f.filter.id) (u16-Reads (name_len f.name) (name_len-lt f.name h.short)) (
        >>=-Reads (λ flags. read_u16 >>= third f.filter.id (name_len f.name))
          (u16-Reads 1 (omega arith))
          (>>=-Reads (third f.filter.id (name_len f.name))
            (u16-Reads (length f.filter.cdata) h.count)
            (>>=-Reads (last f.filter.id (length f.filter.cdata)) (name-Reads f.name h.name h.short)
              (tail-Reads f h)))))

filters-Reads :
    (fs : List NamedFilter)
    → All IsStoredFilter fs
    → Reads (parse_filters 1 (length fs)) (replicate 6 0 ++ each_code filter_code fs) fs
unfolding parse_filters
filters-Reads fs h = record {
  run =
      (>>=-Reads (λ u. pass 4 >>= λ v. read_each (parse_filter 1) (length fs))
        (pass-Reads (replicate 2 0))
        (>>=-Reads (λ v. read_each (parse_filter 1) (length fs)) (pass-Reads (replicate 4 0))
          (read_each-Reads (parse_filter 1) filter_code IsStoredFilter fs filter-Reads h))).run;
}

regroup_head : (a b c d e : List ℕ) → a ++ b ++ c ++ d ++ e ≡ a ++ (b ++ ((c ++ d) ++ e))
regroup_head a b c d e = simp append_assoc

pipeline-Writes :
    (fs : List NamedFilter)
    → length fs < 256
    → All IsStoredFilter fs
    → encode_filter_pipeline fs
      ≡ (1 ∷ []) ++ ((length fs ∷ []) ++ (replicate 6 0 ++ each_code filter_code fs))
unfolding encode_filter_pipeline
pipeline-Writes fs few h =
    let count : length fs % 2 ^ 8 ≡ length fs = mod-eq_of_lt few in
    rw (count, encode_filter_pipeline)
      (ap (λ (b : Buf). b.bytes)
        ((Writes-from
            (regroup_head (1 ∷ []) (length fs ∷ []) (to_le 2 0) (to_le 4 0)
              (each_code filter_code fs))
            (then-Writes
              (then-Writes
                (then-Writes (then-Writes (raw-Writes (1 ∷ [])) (raw-Writes (length fs ∷ [])))
                  (raw-Writes (to_le 2 0)))
                (raw-Writes (to_le 4 0)))
              (write_each-Writes encode_filter filter_code IsStoredFilter fs filter-Writes h))).run
          new_buf))

-- Filters that can be stored, at most 255, are read back from their message with their names,
-- wherever the message stands.
pub parse_filter_pipeline-encode_filter_pipeline :
    (fs : List NamedFilter)
    → length fs < 256
    → All IsStoredFilter fs
    → Reads parse_filter_pipeline (encode_filter_pipeline fs) fs
unfolding parse_filter_pipeline
parse_filter_pipeline-encode_filter_pipeline fs few h =
    Reads-from (sym (pipeline-Writes fs few h)) (record {
      run =
          (>>=-Reads (λ version. read_u8 >>= λ nfilters. parse_filters version nfilters)
            (u8-Reads 1)
            (>>=-Reads (λ nfilters. parse_filters 1 nfilters) (u8-Reads (length fs))
              (filters-Reads fs h))).run;
    })
