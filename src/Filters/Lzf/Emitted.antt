-- ===== src/Filters/Lzf/Emitted.antt =====
-- What the encoder emits, seen by the decoder: literal runs, matches and reference tokens.
use hdf5_rs.Prelude.{
  ℕ, zero, suc, ◌+◌, ◌-◌, ◌*◌, ◌/◌, ◌%◌, ◌<◌, ◌≤◌, ◌≡◌, refl, sym, ap, ◌∙◌, subst, List, [], ◌∷◌,
  ◌++◌, append-nil, length, get_or, get_elem?, take, drop, min, ltb, ◌==◌, some, Bool-cases, inl,
  inr, arith, ℕ_discrete,
}
use hdf5_rs.Prelude.{
  length-take, length-drop, take-add, take-snoc, get_elem?-take, get_elem?-eq-get_or, not_ltb→le,
  ltb→lt, lt→ltb, le→not_ltb, dec_lt,
}
use hdf5_rs.Prelude.Bits.{◌<<<◌, ◌>>>◌, bit_or_disjoint, bit_or_comm, bit_and_low}
use hdf5_rs.Filters.Lzf.{emit_loop, extend_match, ref_token, max_lit}
use hdf5_rs.Filters.Lzf.Format.{
  Copies, done, more, Decodes, end, literal, short, long, Decodes-append,
}
use native.Mathlib.Nat.{add-zero}

-- Literal runs carry the output on from `s` to `to`.
pub emit_loop-Decodes :
    (fuel : ℕ) (input out : List ℕ) (s to : ℕ)
    → to - s ≤ fuel
    → to ≤ length input
    → s ≤ to
    → Decodes out [] (take s input)
    → Decodes (emit_loop fuel input out s to) [] (take to input)
unfolding emit_loop
emit_loop-Decodes zero input out s to hf hn hs d =
    let e : s ≡ to = omega arith in subst (λ k. Decodes out [] (take k input)) e d
emit_loop-Decodes (suc fuel) input out s to hf hn hs d = elim (Bool-cases (ltb s to)) [
  | inl goes ↦
      let run = min (to - s) max_lit in
      let bytes = take run (drop s input) in
      let size : length bytes ≡ run =
        omega (arith, length-take run (drop s input), length-drop s input, ltb→lt s to goes) in
      let token : Decodes ((run - 1) ∷ bytes) (take s input) (take (s + run) input) =
        literal (run - 1) bytes [] (omega arith) (omega (arith, ltb→lt s to goes, size))
          (ap (◌∷◌ (run - 1)) (sym (append-nil bytes)))
          (subst (λ k. Decodes [] (take s input ++ bytes) k)
            (sym (take-add s run (s + run) input refl)) end) in
      rw goes (
        emit_loop-Decodes fuel input (out ++ ((run - 1) ∷ bytes)) (s + run) to
          (omega (arith, ltb→lt s to goes)) hn (omega (arith, ltb→lt s to goes))
          (Decodes-append d token))
  | inr stop ↦
      let e : s ≡ to = omega (arith, not_ltb→le s to stop) in
      rw stop (subst (λ k. Decodes out [] (take k input)) e d)
]

-- The match found: at least as long as before, within the limit, and equal byte by byte.
pub record Extends (input : List ℕ) (cand pos limit mlen : ℕ) : Type 0 where
  pub least : 3 ≤ mlen
  pub most : mlen ≤ limit
  pub equal : (k : ℕ) → k < mlen → get_or input (cand + k) 0 ≡ get_or input (pos + k) 0

pub extend_match-Extends :
    (left : ℕ) (input : List ℕ) (cand pos limit mlen : ℕ)
    → left + mlen ≤ limit
    → Extends input cand pos limit mlen
    → Extends input cand pos limit (extend_match left input cand pos mlen)
unfolding extend_match
extend_match-Extends zero input cand pos limit mlen h x = x
extend_match-Extends (suc left) input cand pos limit mlen h x =
    elim (Bool-cases (get_or input (cand + mlen) 0 == get_or input (pos + mlen) 0)) [
      | inl same ↦ rw same (
          extend_match-Extends left input cand pos limit (mlen + 1) (omega arith) record {
            least = omega (arith, x.least);
            most = omega arith;
            equal = λ k hk. elim (ℕ_discrete k mlen) [
              | yes e ↦ rw e (ground arith)
              | no ne ↦ x.equal k (omega arith)
            ];
          })
      | inr other ↦ rw other x
    ]

pub eq-add-zero : (k : ℕ) → k ≡ k + 0
eq-add-zero k = omega arith

-- A match of `mlen` bytes, seen by the decoder.
pub match-Copies :
    (mlen : ℕ) (input : List ℕ) (cand pos at : ℕ)
    → cand < pos
    → pos ≤ at
    → at + mlen ≤ length input
    → ((k : ℕ) → k < mlen → get_or input (cand + (at - pos) + k) 0 ≡ get_or input (at + k) 0)
    → Copies (pos - cand) mlen (take at input) (take (at + mlen) input)
match-Copies zero input cand pos at h p n same =
    let e : at ≡ at + 0 = omega arith in
    subst (λ k. Copies (pos - cand) 0 (take at input) (take k input)) e done
match-Copies (suc mlen) input cand pos at h p n same =
    let size : length (take at input) ≡ at = omega (arith, length-take at input) in
    let b = get_or input at 0 in
    let src = cand + (at - pos) in
    let equal : get_or input src 0 ≡ b =
      ap (λ k. get_or input k 0) (eq-add-zero src)
      ∙ same 0 (omega arith)
      ∙ ap (λ k. get_or input k 0) (add-zero at) in
    let place : length (take at input) - (pos - cand) ≡ src = omega (arith, size) in
    let next = take-snoc at (suc at) input 0 (omega arith) (omega arith) in
    let last : suc at + mlen ≡ at + suc mlen = omega arith in
    let rec = match-Copies mlen input cand pos (suc at) h (omega arith) (omega arith) shifted in
    more b (omega (arith, size))
      (ap (get_elem? (take at input)) place
        ∙ get_elem?-take at input src (omega arith)
        ∙ get_elem?-eq-get_or input src 0 (omega arith)
        ∙ ap some equal)
      (subst (λ k. Copies (pos - cand) mlen k (take (at + suc mlen) input)) next
        (subst (λ k. Copies (pos - cand) mlen (take (suc at) input) (take k input)) last rec))
  where
    shifted :
        (k : ℕ)
        → k < mlen
        → get_or input (cand + (suc at - pos) + k) 0 ≡ get_or input (suc at + k) 0
    shifted k hk =
        let e1 : cand + (suc at - pos) + k ≡ cand + (at - pos) + suc k = omega arith in
        let e2 : at + suc k ≡ suc at + k = omega arith in
        ap (λ j. get_or input j 0) e1 ∙ same (suc k) (omega arith) ∙ ap (λ j. get_or input j 0) e2

ref_token_short :
    (off l : ℕ) → off < 8192 → l < 7 → ref_token off l ≡ (l * 32 + off / 256) ∷ (off % 256) ∷ []
unfolding ref_token
ref_token_short off l ho hl =
    let low : (off >>> 8) % 256 ≡ off / 256 = omega arith in
    let high : ((l % 256) <<< 5) % 256 ≡ l <<< 5 = omega arith in
    rw (
      lt→ltb l 7 hl,
      low,
      high,
      bit_or_comm (off / 256) (l <<< 5),
      bit_or_disjoint 5 l (off / 256) (omega arith),
      bit_and_low 8 off,
    )

ref_token_long :
    (off l : ℕ)
    → off < 8192
    → 7 ≤ l
    → l < 263
    → ref_token off l ≡ (7 * 32 + off / 256) ∷ (l - 7) ∷ (off % 256) ∷ []
unfolding ref_token
ref_token_long off l ho hl hm =
    let low : (off >>> 8) % 256 ≡ off / 256 = omega arith in
    let extra : (l - 7) % 256 ≡ l - 7 = omega arith in
    rw (
      le→not_ltb l 7 hl,
      low,
      extra,
      bit_or_comm (off / 256) (7 <<< 5),
      bit_or_disjoint 5 7 (off / 256) (omega arith),
      bit_and_low 8 off,
    )

pub ref_token-Decodes :
    (off l : ℕ) {out mid : List ℕ}
    → off < 8192
    → 1 ≤ l
    → l < 263
    → Copies (off + 1) (l + 2) out mid
    → Decodes (ref_token off l) out mid
ref_token-Decodes off l {out} {mid} ho h1 h2 c =
    let split : off + 1 ≡ off / 256 * 256 + off % 256 + 1 = omega arith in
    let copies = subst (λ d. Copies d (l + 2) out mid) split c in
    elim (dec_lt l 7) [
      | yes small ↦
          short l (off / 256) (off % 256) [] h1 (omega arith) (omega arith) (omega arith)
            (ref_token_short off l ho small) copies end
      | no big ↦
          let len : l + 2 ≡ 7 + (l - 7) + 2 = omega arith in
          long (l - 7) (off / 256) (off % 256) [] (omega arith) (omega arith)
            (ref_token_long off l ho (omega arith) h2)
            (subst (λ k. Copies (off / 256 * 256 + off % 256 + 1) k out mid) len copies) end
    ]
