-- ===== src/Filters/Lzf/Encode.antt =====
-- The encoder: at each point its output stands for the input up to `lit_start`.
use hdf5_rs.Prelude.{
  ℕ, zero, suc, ◌+◌, ◌-◌, ◌<◌, ◌≤◌, ◌≡◌, refl, sym, ap, ◌∙◌, subst, List, [], length, get_or, take,
  min, ltb, ◌==◌, some, none, Option, true, false, Bool-cases, Option-cases, inl, inr, arith,
}
use hdf5_rs.Prelude.{ok, ◌>>=◌, take_all, ltb→lt, le→not_ltb}
use hdf5_rs.Filters.Lzf.{
  HashTable, remember, emit_literals, extend_match, is_match, Encoder, take_match, encode_step,
  encode_loop, start, lzf_compress, lzf_decompress, max_ref, lzf_hash,
}
use hdf5_rs.Filters.Lzf.Format.{Copies, Decodes, end, Decodes-append}
use mathlib.Core.Path.{subst₂}
use native.Mathlib.Nat.{add-zero}
use hdf5_rs.Filters.Lzf.Decode.{lzf_decompress-Decodes}
use hdf5_rs.Filters.Lzf.Emitted.{
  emit_loop-Decodes, Extends, extend_match-Extends, eq-add-zero, match-Copies, ref_token-Decodes,
}

-- What holds at the head of the loop.
record Encoded (input : List ℕ) (e : Encoder) : Type 0 where
  stands : Decodes e.out [] (take e.lit_start input)
  before : e.lit_start ≤ e.pos
  inside : e.pos ≤ length input
  known : (h p : ℕ) → e.htab h ≡ some p → p < e.pos

is_match_lem :
    (input : List ℕ) (cand pos : ℕ)
    → is_match input cand pos ≡ true
    → (pos - cand ≤ 8192)
      × (get_or input cand 0 ≡ get_or input pos 0)
      × (get_or input (cand + 1) 0 ≡ get_or input (pos + 1) 0)
      × (get_or input (cand + 2) 0 ≡ get_or input (pos + 2) 0)
unfolding is_match
is_match_lem input cand pos h = ground arith

first_three :
    (input : List ℕ) (cand pos : ℕ)
    → is_match input cand pos ≡ true
    → (k : ℕ) → k < 3
    → get_or input (cand + k) 0 ≡ get_or input (pos + k) 0
first_three input cand pos h zero p =
    ap (λ j. get_or input j 0) (add-zero cand)
    ∙ (is_match_lem input cand pos h).1
    ∙ ap (λ j. get_or input j 0) (eq-add-zero pos)
first_three input cand pos h (suc zero) p = (is_match_lem input cand pos h).2
first_three input cand pos h (suc (suc zero)) p = (is_match_lem input cand pos h).3
first_three input cand pos h (suc (suc (suc k))) p = absurd (omega arith)

-- The table after `htab[h] = pos` holds positions before the next one.
remember_known :
    (htab : HashTable) (h pos next : ℕ)
    → pos < next
    → ((k p : ℕ) → htab k ≡ some p → p < pos)
    → (k p : ℕ) → remember htab h pos k ≡ some p
    → p < next
remember_known htab h pos next lt known k p e = elim (Bool-cases (k == h)) [
  | inl here ↦ ground (arith, here)
  | inr other ↦ let old : htab k ≡ some p = ground (arith, other) in omega (arith, known k p old)
]

take_match-Decodes :
    (input : List ℕ) (e : Encoder) (cand : ℕ)
    → Decodes e.out [] (take e.lit_start input)
    → e.lit_start ≤ e.pos
    → cand < e.pos
    → e.pos + 2 < length input
    → is_match input cand e.pos ≡ true
    → (Decodes (take_match input e cand).out [] (take (take_match input e cand).pos input))
      × (e.pos < (take_match input e cand).pos)
      × ((take_match input e cand).pos ≤ length input)
unfolding take_match
take_match-Decodes input e cand stands before earlier room found =
    let limit = min (length input - e.pos) max_ref in
    let mlen = extend_match (limit - 3) input cand e.pos 3 in
    let x : Extends input cand e.pos limit mlen =
      extend_match-Extends (limit - 3) input cand e.pos limit 3 (omega arith) record {
        least = omega arith;
        most = omega arith;
        equal = first_three input cand e.pos found;
      } in
    let near = (is_match_lem input cand e.pos found).0 in
    let emitted =
      emit_loop-Decodes (e.pos - e.lit_start) input e.out e.lit_start e.pos (omega arith)
        (omega arith) before stands in
    let dist : e.pos - cand ≡ e.pos - cand - 1 + 1 = omega arith in
    let len : mlen ≡ mlen - 2 + 2 = omega (arith, x.least) in
    let copies : Copies (e.pos - cand) mlen (take e.pos input) (take (e.pos + mlen) input) =
      match-Copies mlen input cand e.pos e.pos earlier (omega arith) (omega (arith, x.most))
        (λ k hk. ap (λ j. get_or input j 0) (from_start cand e.pos k) ∙ x.equal k hk) in
    let token =
      ref_token-Decodes (e.pos - cand - 1) (mlen - 2) (omega (arith, near)) (omega (arith, x.least))
        (omega (arith, x.most))
        (subst₂ (λ d m. Copies d m (take e.pos input) (take (e.pos + mlen) input)) dist len
          copies) in
    (Decodes-append emitted token, omega (arith, x.least), omega (arith, x.most))
  where
    from_start : (cand pos k : ℕ) → cand + (pos - pos) + k ≡ cand + k
    from_start cand pos k = omega arith

abbrev hash_at : List ℕ → ℕ → ℕ
hash_at input pos =
    lzf_hash (get_or input pos 0) (get_or input (pos + 1) 0) (get_or input (pos + 2) 0)

abbrev remembered : List ℕ → Encoder → Encoder
remembered input e = record e { htab = remember e.htab (hash_at input e.pos) e.pos }

encode_step_skip :
    (input : List ℕ) (e : Encoder)
    → ((cand : ℕ) → e.htab (hash_at input e.pos) ≡ some cand → is_match input cand e.pos ≡ false)
    → (o : Option ℕ) → e.htab (hash_at input e.pos) ≡ o
    → encode_step input e
      ≡ record e { htab = remember e.htab (hash_at input e.pos) e.pos; pos = e.pos + 1 }
unfolding encode_step
encode_step_skip input e no_match none h = rw (h, encode_step)
encode_step_skip input e no_match (some cand) h = rw (h, encode_step) (rw (no_match cand h))

encode_step_take :
    (input : List ℕ) (e : Encoder) (cand : ℕ)
    → e.htab (hash_at input e.pos) ≡ some cand
    → is_match input cand e.pos ≡ true
    → encode_step input e ≡ take_match input (remembered input e) cand
unfolding encode_step
encode_step_take input e cand h found = rw (h, encode_step) (rw found)

take_match_fields :
    (input : List ℕ) (e : Encoder) (cand : ℕ)
    → ((take_match input e cand).lit_start ≡ (take_match input e cand).pos)
      × ((take_match input e cand).htab ≡ e.htab)
unfolding take_match
take_match_fields input e cand = (refl, refl)

-- One round: the invariant is kept and `pos` grows.
abbrev Kept : List ℕ → Encoder → Encoder → Type 0
Kept input e e' = Encoded input e' × (e.pos < e'.pos)

skip-Kept :
    (input : List ℕ) (e : Encoder)
    → Encoded input e
    → e.pos + 2 < length input
    → Kept input e
        (record e { htab = remember e.htab (hash_at input e.pos) e.pos; pos = e.pos + 1 })
skip-Kept input e inv room = (
  record {
    stands = inv.stands;
    before = omega (arith, inv.before);
    inside = omega arith;
    known = remember_known e.htab (hash_at input e.pos) e.pos (e.pos + 1) (omega arith) inv.known;
  },
  omega arith,
)

take-Kept :
    (input : List ℕ) (e : Encoder) (cand : ℕ)
    → Encoded input e
    → e.pos + 2 < length input
    → e.htab (hash_at input e.pos) ≡ some cand
    → is_match input cand e.pos ≡ true
    → Kept input e (take_match input (remembered input e) cand)
take-Kept input e cand inv room h found =
    let e' = remembered input e in
    let (stands, grows, inside) =
      take_match-Decodes input e' cand inv.stands inv.before (inv.known _ cand h) room found in
    let (lit, tab) = take_match_fields input e' cand in
    (
      record {
        stands =
            subst (λ k. Decodes (take_match input e' cand).out [] (take k input)) (sym lit) stands;
        before = omega (arith, lit);
        inside = inside;
        known = λ k p q.
            remember_known e.htab (hash_at input e.pos) e.pos (take_match input e' cand).pos grows
              inv.known k p (ap (λ t. t k) (sym tab) ∙ q);
      },
      grows,
    )

same_candidate :
    (input : List ℕ) (e : Encoder) (cand c : ℕ)
    → e.htab (hash_at input e.pos) ≡ some cand
    → e.htab (hash_at input e.pos) ≡ some c
    → is_match input cand e.pos ≡ false
    → is_match input c e.pos ≡ false
same_candidate input e cand c h hc differs = cc

encode_step-Kept :
    (input : List ℕ) (e : Encoder)
    → Encoded input e
    → e.pos + 2 < length input
    → Kept input e (encode_step input e)
encode_step-Kept input e inv room = elim (Option-cases (e.htab (hash_at input e.pos))) [
  | inl empty ↦
      subst (Kept input e) (sym (encode_step_skip input e (λ cand h. absurd (cc)) none empty))
        (skip-Kept input e inv room)
  | inr (cand, h) ↦ elim (Bool-cases (is_match input cand e.pos)) [
    | inl found ↦
        subst (Kept input e) (sym (encode_step_take input e cand h found))
          (take-Kept input e cand inv room h found)
    | inr differs ↦
        subst (Kept input e)
          (sym (
            encode_step_skip input e (λ c hc. same_candidate input e cand c h hc differs)
              (some cand) h))
          (skip-Kept input e inv room)
  ]
]

encode_loop-Encoded :
    (fuel : ℕ) (input : List ℕ) (e : Encoder)
    → Encoded input e
    → length input ≤ fuel + e.pos
    → (final : Encoder) × (encode_loop fuel input e ≡ ok final) × Encoded input final
unfolding encode_loop
encode_loop-Encoded zero input e inv h =
    (e, rw (le→not_ltb (e.pos + 2) (length input) (omega arith)), inv)
encode_loop-Encoded (suc fuel) input e inv h = elim (Bool-cases (ltb (e.pos + 2) (length input))) [
  | inl goes ↦
      let (kept, grows) = encode_step-Kept input e inv (ltb→lt _ _ goes) in
      rw goes (encode_loop-Encoded fuel input (encode_step input e) kept (omega (arith, grows)))
  | inr stop ↦ rw stop (e, refl, inv)
]

start-Encoded : (input : List ℕ) → Encoded input start
start-Encoded input = record {
  stands = end;
  before = omega arith;
  inside = omega arith;
  known = λ h p e. absurd (cc);
}

-- `lzf_compress` ends on every input, and what it returns stands in the LZF format for the input.
pub lzf_compress-Decodes :
    (input : List ℕ)
    → (stream : List ℕ) × (lzf_compress input ≡ ok stream) × Decodes stream [] input
lzf_compress-Decodes input =
    let (e, runs, inv) =
      encode_loop-Encoded (length input) input start (start-Encoded input) (omega arith) in
    let d =
      emit_loop-Decodes (length input - e.lit_start) input e.out e.lit_start (length input)
        (omega arith) (omega arith) (omega (arith, inv.before, inv.inside)) inv.stands in
    (
      emit_literals input e.out e.lit_start (length input),
      unfold lzf_compress in rw runs,
      unfold emit_literals in subst (Decodes _ []) (take_all (length input) input (omega arith)) d,
    )

-- For every input `lzf_decompress` gives back exactly what `lzf_compress` was given.
pub lzf_decompress-lzf_compress :
    (input : List ℕ) → (lzf_compress input >>= lzf_decompress) ≡ ok input
lzf_decompress-lzf_compress input =
    let (stream, runs, d) = lzf_compress-Decodes input in rw runs (lzf_decompress-Decodes d)
