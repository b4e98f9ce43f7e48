-- ===== src/Filters/Lzf/Format.antt =====
-- The LZF format as a relation, apart from the code: which streams stand for which bytes.
use hdf5_rs.Prelude.{
  ℕ, zero, suc, ◌+◌, ◌-◌, ◌*◌, ◌<◌, ◌≤◌, ◌≡◌, ◌∙◌, ap, List, [], ◌∷◌, ◌++◌, append_assoc, length,
  get_elem?, some, ◌≢◌,
}

-- `len` bytes are added to `out`, each equal to the one `dist` places before it. The copy may run
-- over its own start.
pub data Copies (dist : ℕ) : ℕ → List ℕ → List ℕ → Type 0 where
  done : {out : List ℕ} → Copies dist zero out out
  more :
      {len : ℕ} {out final : List ℕ} (b : ℕ)
      → dist ≤ length out
      → get_elem? out (length out - dist) ≡ some b
      → Copies dist len (out ++ (b ∷ [])) final
      → Copies dist (suc len) out final

-- The stream turns what was decoded before it into `final`. A control byte below 32 counts a literal
-- run; otherwise its upper three bits are the length less 2, with 7 for a second length byte, and its
-- lower five bits with the last byte are the distance less 1.
pub data Decodes : List ℕ → List ℕ → List ℕ → Type 0 where
  end : {out : List ℕ} → Decodes [] out out
  literal :
      {stream out final : List ℕ} (c : ℕ) (run rest : List ℕ)
      → c < 32
      → length run ≡ suc c
      → stream ≡ c ∷ (run ++ rest)
      → Decodes rest (out ++ run) final
      → Decodes stream out final
  short :
      {stream out mid final : List ℕ} (len hi lo : ℕ) (rest : List ℕ)
      → 1 ≤ len
      → len ≢ 7
      → hi < 32
      → lo < 256
      → stream ≡ (len * 32 + hi) ∷ lo ∷ rest
      → Copies (hi * 256 + lo + 1) (len + 2) out mid
      → Decodes rest mid final
      → Decodes stream out final
  long :
      {stream out mid final : List ℕ} (extra hi lo : ℕ) (rest : List ℕ)
      → hi < 32
      → lo < 256
      → stream ≡ (7 * 32 + hi) ∷ extra ∷ lo ∷ rest
      → Copies (hi * 256 + lo + 1) (7 + extra + 2) out mid
      → Decodes rest mid final
      → Decodes stream out final

-- Two streams one after the other.
pub Decodes-append :
    {s t out mid final : List ℕ}
    → Decodes s out mid
    → Decodes t mid final
    → Decodes (s ++ t) out final
Decodes-append end d = d
Decodes-append {t = t} (literal c run rest small size e r) d =
    literal c run (rest ++ t) small size (ap (λ k. k ++ t) e ∙ ap (◌∷◌ c) (append_assoc run rest t))
      (Decodes-append r d)
Decodes-append {t = t} (short len hi lo rest pos ne h l e c r) d =
    short len hi lo (rest ++ t) pos ne h l (ap (λ k. k ++ t) e) c (Decodes-append r d)
Decodes-append {t = t} (long extra hi lo rest h l e c r) d =
    long extra hi lo (rest ++ t) h l (ap (λ k. k ++ t) e) c (Decodes-append r d)
