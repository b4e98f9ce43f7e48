-- ===== src/Filters/Lzf/Tokens.antt =====
-- The tokens of the format, decoded: one round of the decoder reads what the format says.
use hdf5_rs.Prelude.{
  ℕ, zero, suc, ◌+◌, ◌-◌, ◌*◌, ◌<◌, ◌≤◌, ◌≡◌, ◌≢◌, refl, sym, ap, ◌∙◌, List, [], ◌∷◌, ◌++◌, length,
  get_elem?, bit_and, bit_or, ltb, ◌==◌, some, false, arith,
}
use hdf5_rs.Prelude.{
  ok, take-append, drop-append, length-append, get_elem?-eq-get_or, get_or, le→leb, lt→ltb,
  le→not_ltb,
}
use hdf5_rs.Prelude.Bits.{◌<<<◌, ◌>>>◌, bit_or_disjoint, bit_and_low}
use hdf5_rs.Filters.Lzf.{copy_back, decode_token}
use hdf5_rs.Filters.Lzf.Format.{Copies, done, more}

pub offset_lem :
    (hi lo : ℕ) (k : ℕ)
    → hi < 32
    → lo < 256
    → bit_or (bit_and (k * 32 + hi) 0x1f <<< 8) lo ≡ hi * 256 + lo
offset_lem hi lo k h l =
    let m : bit_and (k * 32 + hi) 0x1f ≡ hi = omega (arith, bit_and_low 5 (k * 32 + hi)) in
    rw m (bit_or_disjoint 8 hi lo l)

copy_step :
    (len rpos b : ℕ) (out : List ℕ)
    → get_elem? out rpos ≡ some b
    → copy_back (suc len) rpos out ≡ copy_back len (rpos + 1) (out ++ (b ∷ []))
unfolding copy_back
copy_step len rpos b out h = rw (h, copy_back)

-- From `Copies` to the loop, and back.
copy_back-Copies :
    {dist len : ℕ} {out final : List ℕ} (rpos : ℕ)
    → Copies dist len out final
    → 1 ≤ dist
    → rpos ≡ length out - dist
    → copy_back len rpos out ≡ ok final
copy_back-Copies rpos done p e = unfold copy_back in refl
copy_back-Copies {out = out} rpos (more {len = len} b fits read r) p e =
    copy_step len rpos b out (ap (get_elem? out) e ∙ read)
    ∙ copy_back-Copies (rpos + 1) r p (omega (arith, length-append out (b ∷ [])))

-- A distance that reaches into the output always finds its bytes.
pub Copies-exists :
    (dist len rpos : ℕ) (out : List ℕ)
    → 1 ≤ dist
    → dist ≤ length out
    → rpos ≡ length out - dist
    → (final : List ℕ) × (copy_back len rpos out ≡ ok final) × Copies dist len out final
Copies-exists dist zero rpos out p fits e = (out, (unfold copy_back in refl), done)
Copies-exists dist (suc len) rpos out p fits e =
    let b = get_or out rpos 0 in
    let read : get_elem? out rpos ≡ some b = get_elem?-eq-get_or out rpos 0 (omega arith) in
    let grown = length-append out (b ∷ []) in
    let (final, runs, c) =
      Copies-exists dist len (rpos + 1) (out ++ (b ∷ [])) p (omega arith) (omega arith) in
    (final, copy_step len rpos b out read ∙ runs, more b fits (ap (get_elem? out) (sym e) ∙ read) c)

-- The tokens of the format, decoded.
pub token_literal :
    (c : ℕ) (run rest out : List ℕ)
    → c < 32
    → length run ≡ suc c
    → decode_token c (run ++ rest) out ≡ ok (rest, out ++ run)
unfolding decode_token
token_literal c run rest out small size =
    let n : c + 1 ≡ length run = omega arith in
    rw (
      lt→ltb c 32 small,
      n,
      le→leb (length run) (length (run ++ rest)) (omega (arith, length-append run rest)),
      take-append run rest,
      drop-append run rest,
    )

pub token_short :
    (len hi lo : ℕ) (rest out mid : List ℕ)
    → 1 ≤ len
    → len ≢ 7
    → hi < 32
    → lo < 256
    → hi * 256 + lo + 1 ≤ length out
    → Copies (hi * 256 + lo + 1) (len + 2) out mid
    → decode_token (len * 32 + hi) (lo ∷ rest) out ≡ ok (rest, mid)
unfolding decode_token
token_short len hi lo rest out mid pos ne h l fits c =
    let big : ltb (len * 32 + hi) 32 ≡ false = le→not_ltb _ _ (omega arith) in
    let up : (len * 32 + hi) >>> 5 ≡ len = omega arith in
    let plain : (len == 7) ≡ false = ground arith in
    rw (
      big,
      up,
      plain,
      offset_lem hi lo len h l,
      le→leb _ _ fits,
      copy_back-Copies (length out - (hi * 256 + lo + 1)) c (omega arith) refl,
    )

pub token_long :
    (extra hi lo : ℕ) (rest out mid : List ℕ)
    → hi < 32
    → lo < 256
    → hi * 256 + lo + 1 ≤ length out
    → Copies (hi * 256 + lo + 1) (7 + extra + 2) out mid
    → decode_token (7 * 32 + hi) (extra ∷ lo ∷ rest) out ≡ ok (rest, mid)
unfolding decode_token
token_long extra hi lo rest out mid h l fits c =
    let big : ltb (7 * 32 + hi) 32 ≡ false = le→not_ltb _ _ (omega arith) in
    let up : (7 * 32 + hi) >>> 5 ≡ 7 = omega arith in
    rw (
      big,
      up,
      offset_lem hi lo 7 h l,
      le→leb _ _ fits,
      copy_back-Copies (length out - (hi * 256 + lo + 1)) c (omega arith) refl,
    )
