-- ===== src/Messages/RoundTrip/Space.antt =====
-- The message of a dataspace is read back.
use hdf5_rs.Prelude.{
  ℕ, zero, suc, ◌+◌, ◌%◌, ◌^◌, ◌<◌, ◌≤◌, ◌≡◌, refl, ap, sym, subst, ◌∙◌, arith, List, [], ◌∷◌, ◌++◌,
  length, drop, drop-nil, Bool, true, false, ◌==◌, ==_iff, Option, none, some, All, append-nil,
  append_assoc, replicate,
}
use hdf5_rs.Prelude.Bytes.{to_le}
use native.Mathlib.Nat.{mod-eq_of_lt}
use hdf5_rs.Buffer.{Buf, u64, read_u8, read_u64}
use hdf5_rs.Buffer.Parser.{
  ◌>>=◌, ◌>>◌, pure, pass, Reads, >>=-Reads, pure-Reads, Reads-from, u8-Reads, u64-Reads,
  pass-Reads,
}
use hdf5_rs.Buffer.Writing.{Writes, raw-Writes, then-Writes, Writes-from}
use hdf5_rs.Buffer.Series.{read_each, each_code, write_every-Writes, read_each-Reads}
use hdf5_rs.Messages.{undef, new_buf}
use hdf5_rs.Messages.Space.{
  ParsedDataspace, limit_or_undef, write_limit, encode_simple, encode_dataspace, limit_of,
  read_limit, parse_limits, parse_sizes, parse_version, parse_dataspace,
}

-- A limit that is not the number for none
abbrev pub IsLimit : Option ℕ → Type 0
IsLimit none = Unit {0}
IsLimit (some m) = m + 1 < 2 ^ 64

-- A space that can be stored: at most 255 dimensions, as many limits, numbers of 64 bits; a scalar
-- or null one has no dimension.
abbrev pub IsStored : ParsedDataspace → Type 0
IsStored (dims, maxdims, true, true) = ⊥
IsStored (dims, maxdims, true, false) = (dims ≡ []) × (maxdims ≡ [])
IsStored (dims, maxdims, false, true) = (dims ≡ []) × (maxdims ≡ [])
IsStored (dims, maxdims, false, false) =
    (1 ≤ length dims)
    × (length dims < 256)
    × (length maxdims ≡ length dims)
    × All (λ d. d < 2 ^ 64) dims
    × All IsLimit maxdims

limit-lt : (m : Option ℕ) → IsLimit m → limit_or_undef m < 2 ^ 64
limit-lt none h = omega arith
limit-lt (some m) h = omega arith

limit_of-limit_or_undef : (m : Option ℕ) → IsLimit m → limit_of (limit_or_undef m) ≡ m
limit_of-limit_or_undef none h = refl
limit_of-limit_or_undef (some m) h =
    let ne : (m == undef) ≡ false = grind (arith, ==_iff) in rw ne refl

abbrev limit_code : Option ℕ → List ℕ
limit_code m = to_le 8 (limit_or_undef m)

limit-Reads : (m : Option ℕ) → IsLimit m → Reads read_limit (limit_code m) m
unfolding read_limit
limit-Reads m h = record {
  run =
      (Reads-from (append-nil (limit_code m)) (
        >>=-Reads _ (u64-Reads (limit_or_undef m) (limit-lt m h))
          (rw (limit_of-limit_or_undef m h) (pure-Reads m)))).run;
}

abbrev sizes_code : List ℕ → List (Option ℕ) → List ℕ
sizes_code dims maxdims = each_code (to_le 8) dims ++ each_code limit_code maxdims

sizes-Reads :
    (dims : List ℕ) (maxdims : List (Option ℕ)) (a b : Bool)
    → length maxdims ≡ length dims
    → All (λ d. d < 2 ^ 64) dims
    → All IsLimit maxdims
    → Reads (parse_sizes (length dims) 1 a b) (sizes_code dims maxdims) (dims, maxdims, a, b)
unfolding parse_sizes parse_limits
sizes-Reads dims maxdims a b e hd hm =
    >>=-Reads (λ ds. read_each read_limit (length ds) >>= λ ms. pure (ds, ms, a, b))
      (read_each-Reads read_u64 (to_le 8) (λ d. d < 2 ^ 64) dims u64-Reads hd)
      (Reads-from (append-nil (each_code limit_code maxdims)) (
        >>=-Reads (λ ms. pure (dims, ms, a, b))
          (subst (λ n. Reads (read_each read_limit n) (each_code limit_code maxdims) maxdims) e
            (read_each-Reads read_limit limit_code IsLimit maxdims limit-Reads hm))
          (pure-Reads (dims, maxdims, a, b))))

abbrev space_head : ℕ → List ℕ
space_head rank = 1 ∷ rank ∷ 1 ∷ 0 ∷ 0 ∷ 0 ∷ 0 ∷ 0 ∷ []

-- No dimension is left for the padding of the limits.
drop_all : (n : ℕ) (dims : List ℕ) → n ≡ length dims → drop n dims ≡ []
drop_all n [] h = drop-nil n
drop_all zero (d ∷ ds) h = absurd (omega arith)
drop_all (suc n) (d ∷ ds) h = drop_all n ds (omega arith)

simple-Writes :
    (dims : List ℕ) (maxdims : List (Option ℕ))
    → length maxdims ≡ length dims
    → length dims < 256
    → Writes (encode_simple dims maxdims) (space_head (length dims) ++ sizes_code dims maxdims)
unfolding encode_simple
simple-Writes dims maxdims e h =
    let small : length dims % 2 ^ 8 ≡ length dims = mod-eq_of_lt h in
    rw (small, drop_all (length maxdims) dims e)
      (Writes-from
        (append-nil _ ∙ append_assoc (space_head (length dims)) (each_code (to_le 8) dims) _)
        (then-Writes
          (then-Writes
            (then-Writes
              (then-Writes
                (then-Writes (then-Writes (raw-Writes (1 ∷ [])) (raw-Writes (length dims ∷ [])))
                  (raw-Writes (1 ∷ [])))
                (raw-Writes (replicate 5 0)))
              (write_every-Writes u64 (to_le 8) dims (λ d. raw-Writes (to_le 8 d))))
            (write_every-Writes write_limit limit_code maxdims (λ m. raw-Writes (limit_code m))))
          (write_every-Writes u64 (to_le 8) [] (λ d. raw-Writes (to_le 8 d)))))

bare-Reads : (a b : Bool) → Reads (parse_sizes 0 0 a b) [] ([], [], a, b)
unfolding parse_sizes parse_limits read_each
bare-Reads a b = record { run = (pure-Reads {A = ParsedDataspace} ([], [], a, b)).run }

-- Version 1, behind its number
head-Reads :
    (rank flags : ℕ) (code : List ℕ) (s : ParsedDataspace)
    → Reads (parse_sizes rank flags (rank == 0) false) code s
    → Reads (parse_version 1) (rank ∷ flags ∷ 0 ∷ 0 ∷ 0 ∷ 0 ∷ 0 ∷ code) s
unfolding parse_version
head-Reads rank flags code s h = record {
  run =
      (>>=-Reads (λ rank. read_u8 >>= λ flags. pass 5 >> parse_sizes rank flags (rank == 0) false)
        (u8-Reads rank)
        (>>=-Reads (λ flags. pass 5 >> parse_sizes rank flags (rank == 0) false) (u8-Reads flags)
          (>>=-Reads (λ u. parse_sizes rank flags (rank == 0) false) (pass-Reads (replicate 5 0))
            h))).run;
}

null-Reads : Reads (parse_version 2) (0 ∷ 0 ∷ 2 ∷ []) ([], [], false, true)
unfolding parse_version
null-Reads = record {
  run =
      (>>=-Reads
        (λ rank. read_u8 >>= λ flags.
          read_u8 >>= λ space_type. parse_sizes rank flags (space_type == 0) (space_type == 2))
        (u8-Reads 0)
        (>>=-Reads
          (λ flags.
            read_u8 >>= λ space_type. parse_sizes 0 flags (space_type == 0) (space_type == 2))
          (u8-Reads 0)
          (>>=-Reads (λ space_type. parse_sizes 0 0 (space_type == 0) (space_type == 2))
            (u8-Reads 2) (bare-Reads false true)))).run;
}

-- A space that can be stored is read back from its message, wherever the message stands.
pub parse_dataspace-encode_dataspace :
    (dims : List ℕ) (maxdims : List (Option ℕ)) (is_scalar is_null : Bool)
    → IsStored (dims, maxdims, is_scalar, is_null)
    → Reads parse_dataspace
        (encode_dataspace dims maxdims is_scalar is_null)
        (dims, maxdims, is_scalar, is_null)
unfolding encode_dataspace parse_dataspace
parse_dataspace-encode_dataspace dims maxdims true true h = absurd h
parse_dataspace-encode_dataspace dims maxdims true false (ed, em) =
    rw (ed, em)
      (record {
        run =
            (>>=-Reads parse_version (u8-Reads 1)
              (head-Reads 0 0 [] _ (bare-Reads true false))).run;
      })
parse_dataspace-encode_dataspace dims maxdims false true (ed, em) =
    rw (ed, em) (record { run = (>>=-Reads parse_version (u8-Reads 2) null-Reads).run })
parse_dataspace-encode_dataspace dims maxdims false false (some_axis, few, e, hd, hm) =
    let axes : (length dims == 0) ≡ false = grind (arith, ==_iff) in
    let sizes : Reads (parse_sizes (length dims) 1 (length dims == 0) false)
        (sizes_code dims maxdims) (dims, maxdims, false, false) =
      rw axes (sizes-Reads dims maxdims false false e hd hm) in
    Reads-from (sym (ap (λ (b : Buf). b.bytes) ((simple-Writes dims maxdims e few).run new_buf)))
      (record {
        run =
            (>>=-Reads parse_version (u8-Reads 1)
              (head-Reads (length dims) 1 (sizes_code dims maxdims) _ sizes)).run;
      })
