-- ===== src/Filters/Lzf/Decode.antt =====
-- The decoder against the format: it answers on every input, and it accepts exactly the streams of
-- the format.
use hdf5_rs.Prelude.{
  subst, String, dec_lt, ℕ_discrete, ◌⊎◌, ℕ, zero, suc, ◌+◌, ◌*◌, ◌/◌, ◌%◌, ◌<◌, ◌≤◌, ◌≡◌, ◌≢◌, ◌↔◌,
  refl, sym, ap, ◌∙◌, List, [], ◌∷◌, ◌++◌, length, take, drop, All, All-drop, bit_and, bit_or, leb,
  ltb, ◌==◌, false, Bool-cases, inl, inr, arith,
}
use hdf5_rs.Prelude.{
  Result, ok, err, ◌>>=◌, Answers, length-drop, length-take, take-append-drop, length-append,
  leb→le, lt→ltb, le→not_ltb,
}
use hdf5_rs.Prelude.Bits.{◌<<<◌, ◌>>>◌}
use hdf5_rs.Prelude.Bytes.{IsByte}
use hdf5_rs.Filters.Lzf.{decode_token, decode_loop, lzf_decompress}
use hdf5_rs.Filters.Lzf.Format.{Copies, done, more, Decodes, end, literal, short, long}
use hdf5_rs.Filters.Lzf.Tokens.{offset_lem, Copies-exists, token_literal, token_short, token_long}

-- What one round of the decoder can do on any input.
data Round (ctrl : ℕ) (input out : List ℕ) : Type 0 where
  refused : (m : String) → decode_token ctrl input out ≡ err m → Round ctrl input out
  went_on :
      (rest out' : List ℕ)
      → decode_token ctrl input out ≡ ok (rest, out')
      → length rest ≤ length input
      → All IsByte rest
      → ((final : List ℕ) → Decodes rest out' final → Decodes (ctrl ∷ input) out final)
      → Round ctrl input out

literal-Round :
    (ctrl : ℕ) (input out : List ℕ) → ctrl < 32 → All IsByte input → Round ctrl input out
literal-Round ctrl input out small bytes = elim (Bool-cases (leb (ctrl + 1) (length input))) [
  | inl fits ↦
      let run = take (ctrl + 1) input in
      let rest = drop (ctrl + 1) input in
      let size : length run ≡ suc ctrl =
        omega (arith, length-take (ctrl + 1) input, leb→le _ _ fits) in
      let whole = take-append-drop (ctrl + 1) input in
      went_on rest (out ++ run)
        (ap (λ k. decode_token ctrl k out) (sym whole) ∙ token_literal ctrl run rest out small size)
        (omega (arith, length-drop (ctrl + 1) input)) (All-drop IsByte (ctrl + 1) input bytes)
        (λ final d. literal ctrl run rest small size (ap (◌∷◌ ctrl) (sym whole)) d)
  | inr cut ↦
      refused "lzf: truncated literal run"
        (unfold decode_token in rw (lt→ltb ctrl 32 small, cut) refl)
]

split_ctrl : (ctrl : ℕ) → ctrl / 32 * 32 + ctrl % 32 ≡ ctrl
split_ctrl ctrl = omega arith

short-Round :
    (ctrl lo : ℕ) (rest out : List ℕ)
    → 32 ≤ ctrl
    → ctrl / 32 ≢ 7
    → lo < 256
    → All IsByte rest
    → Round ctrl (lo ∷ rest) out
short-Round ctrl lo rest out big ne l bytes =
    elim (Bool-cases (leb (ctrl % 32 * 256 + lo + 1) (length out))) [
      | inl fits ↦
          let (mid, runs, c) =
            Copies-exists (ctrl % 32 * 256 + lo + 1) (ctrl / 32 + 2) _ out (omega arith)
              (leb→le _ _ fits) refl in
          went_on rest mid
            (ap (λ k. decode_token k (lo ∷ rest) out) (sym (split_ctrl ctrl))
              ∙ token_short (ctrl / 32) (ctrl % 32) lo rest out mid (omega arith) ne (omega arith) l
                  (leb→le _ _ fits) c)
            (omega arith) bytes
            (λ final d.
              short (ctrl / 32) (ctrl % 32) lo rest (omega arith) ne (omega arith) l
                (ap (λ k. k ∷ lo ∷ rest) (sym (split_ctrl ctrl))) c d)
      | inr far ↦
          let not_small : ltb ctrl 32 ≡ false = le→not_ltb _ _ big in
          let plain : (ctrl >>> 5 == 7) ≡ false = ground arith in
          let off : bit_or (bit_and ctrl 0x1f <<< 8) lo ≡ ctrl % 32 * 256 + lo =
            ap (λ k. bit_or (bit_and k 0x1f <<< 8) lo) (sym (split_ctrl ctrl))
            ∙ offset_lem (ctrl % 32) lo (ctrl / 32) (omega arith) l in
          refused "lzf: back reference before start of output"
            (unfold decode_token in rw (not_small, plain, off, far) refl)
    ]

long-Round :
    (ctrl extra lo : ℕ) (rest out : List ℕ)
    → ctrl / 32 ≡ 7
    → lo < 256
    → All IsByte rest
    → Round ctrl (extra ∷ lo ∷ rest) out
long-Round ctrl extra lo rest out seven l bytes =
    elim (Bool-cases (leb (ctrl % 32 * 256 + lo + 1) (length out))) [
      | inl fits ↦
          let (mid, runs, c) =
            Copies-exists (ctrl % 32 * 256 + lo + 1) (7 + extra + 2) _ out (omega arith)
              (leb→le _ _ fits) refl in
          let parts : 7 * 32 + ctrl % 32 ≡ ctrl = omega arith in
          went_on rest mid
            (ap (λ k. decode_token k (extra ∷ lo ∷ rest) out) (sym parts)
              ∙ token_long extra (ctrl % 32) lo rest out mid (omega arith) l (leb→le _ _ fits) c)
            (omega arith) bytes
            (λ final d.
              long extra (ctrl % 32) lo rest (omega arith) l
                (ap (λ k. k ∷ extra ∷ lo ∷ rest) (sym parts)) c d)
      | inr far ↦
          let not_small : ltb ctrl 32 ≡ false = le→not_ltb _ _ (omega arith) in
          let off : bit_or (bit_and ctrl 0x1f <<< 8) lo ≡ ctrl % 32 * 256 + lo =
            ap (λ k. bit_or (bit_and k 0x1f <<< 8) lo) (sym (split_ctrl ctrl))
            ∙ offset_lem (ctrl % 32) lo (ctrl / 32) (omega arith) l in
          refused "lzf: back reference before start of output"
            (unfold decode_token in rw (not_small, seven, off, far) refl)
    ]

reference-Round :
    (ctrl : ℕ) (input out : List ℕ)
    → 32 ≤ ctrl
    → ctrl < 256
    → All IsByte input
    → (ctrl / 32 ≡ 7) ⊎ (ctrl / 32 ≢ 7)
    → Round ctrl input out
reference-Round ctrl [] out big small bytes (inl seven) =
    refused "lzf: truncated length byte"
      (unfold decode_token in rw (le→not_ltb ctrl 32 big, seven) refl)
reference-Round ctrl (extra ∷ []) out big small bytes (inl seven) =
    refused "lzf: truncated offset byte"
      (unfold decode_token in rw (le→not_ltb ctrl 32 big, seven) refl)
reference-Round ctrl (extra ∷ lo ∷ rest) out big small bytes (inl seven) =
    long-Round ctrl extra lo rest out seven bytes.1.0 bytes.1.1
reference-Round ctrl [] out big small bytes (inr ne) =
    let plain : (ctrl >>> 5 == 7) ≡ false = ground arith in
    refused "lzf: truncated offset byte"
      (unfold decode_token in rw (le→not_ltb ctrl 32 big, plain) refl)
reference-Round ctrl (lo ∷ rest) out big small bytes (inr ne) =
    short-Round ctrl lo rest out big ne bytes.0 bytes.1

round : (ctrl : ℕ) (input out : List ℕ) → IsByte ctrl → All IsByte input → Round ctrl input out
round ctrl input out c bytes = elim (dec_lt ctrl 32) [
  | yes small ↦ literal-Round ctrl input out small bytes
  | no big ↦
      reference-Round ctrl input out (omega arith) c bytes
        (elim (ℕ_discrete (ctrl / 32) 7) [ yes e ↦ inl e | no ne ↦ inr ne ])
]

-- What the whole loop can do: an error of the code, or the bytes that the format gives.
data Outcome (input out : List ℕ) (r : Result (List ℕ)) : Type 0 where
  failed : (m : String) → r ≡ err m → Outcome input out r
  decoded : (final : List ℕ) → r ≡ ok final → Decodes input out final → Outcome input out r

decode_step :
    (fuel c : ℕ) (input out : List ℕ)
    → decode_loop (suc fuel) (c ∷ input) out
      ≡ (decode_token c input out >>= λ (r : List ℕ × List ℕ). decode_loop fuel r.0 r.1)
unfolding decode_loop
decode_step fuel c input out = refl

after-Round :
    (fuel c : ℕ) (input out : List ℕ)
    → length input ≤ fuel
    → ((rest out' : List ℕ)
        → length rest ≤ fuel
        → All IsByte rest
        → Outcome rest out' (decode_loop fuel rest out'))
    → Round c input out
    → Outcome (c ∷ input) out (decode_loop (suc fuel) (c ∷ input) out)
after-Round fuel c input out h rec (refused m e) = failed m (
    decode_step fuel c input out
    ∙ ap (λ r. r >>= λ (q : List ℕ × List ℕ). decode_loop fuel q.0 q.1) e)
after-Round fuel c input out h rec (went_on rest out' e shorter bytes back) =
    let go =
      decode_step fuel c input out
      ∙ ap (λ r. r >>= λ (q : List ℕ × List ℕ). decode_loop fuel q.0 q.1) e in
    elim (rec rest out' (omega arith) bytes) [
      | failed m f ↦ failed m (go ∙ f)
      | decoded final f d ↦ decoded final (go ∙ f) (back final d)
    ]

decode_loop-Outcome :
    (fuel : ℕ) (input out : List ℕ)
    → length input ≤ fuel
    → All IsByte input
    → Outcome input out (decode_loop fuel input out)
decode_loop-Outcome fuel [] out h bytes = decoded out (unfold decode_loop in refl) end
decode_loop-Outcome zero (c ∷ input) out h bytes = absurd (omega arith)
decode_loop-Outcome (suc fuel) (c ∷ input) out h bytes =
    after-Round fuel c input out (omega arith) (decode_loop-Outcome fuel)
      (round c input out bytes.0 bytes.1)

Copies-fits :
    {dist len : ℕ} {out final : List ℕ} → Copies dist len out final → 1 ≤ len → dist ≤ length out
Copies-fits done p = absurd (omega arith)
Copies-fits (more b fits read r) p = fits

token_then :
    (fuel c : ℕ) (body input out rest out' final : List ℕ)
    → input ≡ c ∷ body
    → length input ≤ fuel
    → length rest ≤ length body
    → decode_token c body out ≡ ok (rest, out')
    → ((f : ℕ) → length rest ≤ f → decode_loop f rest out' ≡ ok final)
    → decode_loop fuel input out ≡ ok final
token_then zero c body input out rest out' final e h le t rec =
    absurd (omega (arith, ap (length {A = ℕ}) e))
token_then (suc fuel) c body input out rest out' final e h le t rec = rw e (
    decode_step fuel c body out
    ∙ ap (λ r. r >>= λ (q : List ℕ × List ℕ). decode_loop fuel q.0 q.1) t
    ∙ rec fuel (omega (arith, ap (length {A = ℕ}) e)))

-- From the format to the loop, with any fuel from the length of the stream on.
decode_loop-Decodes :
    {input out final : List ℕ} (fuel : ℕ)
    → Decodes input out final
    → length input ≤ fuel
    → decode_loop fuel input out ≡ ok final
decode_loop-Decodes fuel end h = unfold decode_loop in refl
decode_loop-Decodes fuel (literal c run rest small size e d) h =
    token_then fuel c (run ++ rest) _ _ rest _ _ e h (omega (arith, length-append run rest))
      (token_literal c run rest _ small size) (λ f h'. decode_loop-Decodes f d h')
decode_loop-Decodes fuel (short len hi lo rest pos ne h l e c d) h' =
    token_then fuel (len * 32 + hi) (lo ∷ rest) _ _ rest _ _ e h' (omega arith)
      (token_short len hi lo rest _ _ pos ne h l (Copies-fits c (omega arith)) c)
      (λ f k. decode_loop-Decodes f d k)
decode_loop-Decodes fuel (long extra hi lo rest h l e c d) h' =
    token_then fuel (7 * 32 + hi) (extra ∷ lo ∷ rest) _ _ rest _ _ e h' (omega arith)
      (token_long extra hi lo rest _ _ h l (Copies-fits c (omega arith)) c)
      (λ f k. decode_loop-Decodes f d k)

-- On every input of bytes `lzf_decompress` returns bytes or one of its error messages: no index is
-- out of range and the loop ends.
pub lzf_decompress-Answers : (input : List ℕ) → All IsByte input → Answers (lzf_decompress input)
unfolding lzf_decompress
lzf_decompress-Answers input bytes =
    elim (decode_loop-Outcome (length input) input [] (omega arith) bytes) [
      | failed m e ↦ subst (Answers {A = List ℕ}) (sym e) tt
      | decoded final e d ↦ subst (Answers {A = List ℕ}) (sym e) tt
    ]

-- On every input of bytes `lzf_decompress` succeeds with `final` exactly when the format relates the
-- two.
pub lzf_decompress_iff :
    (input final : List ℕ)
    → All IsByte input
    → (lzf_decompress input ≡ ok final) ↔ Decodes input [] final
unfolding lzf_decompress
lzf_decompress_iff input final bytes = (
  λ e. elim (decode_loop-Outcome (length input) input [] (omega arith) bytes) [
    | failed m f ↦ absurd (cc)
    | decoded final' f d ↦ subst (Decodes input []) (cc) d
  ],
  λ d. decode_loop-Decodes (length input) d (omega arith),
)

pub lzf_decompress-Decodes :
    {input final : List ℕ} → Decodes input [] final → lzf_decompress input ≡ ok final
unfolding lzf_decompress
lzf_decompress-Decodes {input = input} d = decode_loop-Decodes (length input) d (omega arith)
