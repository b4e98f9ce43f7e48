-- ===== src/Buffer/Writing.antt =====
-- Code that appends to a `Buf`, as functions of the buffer, and the bytes that it appends.
use hdf5_rs.Prelude.{ℕ, ◌≡◌, refl, ap, subst, ◌∙◌, List, [], ◌++◌, append_assoc, append-nil}
use hdf5_rs.Buffer.{Buf, raw}

-- Calls one after the other.
infixl 5 ◌then◌
abbrev pub ◌then◌ : (Buf → Buf) → (Buf → Buf) → Buf → Buf
(first then second) b = second (first b)

-- Whatever stands in the buffer, the code appends these bytes.
pub record Writes (w : Buf → Buf) (s : List ℕ) : Type 0 where
  pub run : (b : Buf) → w b ≡ raw s b

appended : (b : Buf) (s t : List ℕ) → raw t (raw s b) ≡ raw (s ++ t) b
appended b s t = rw (append_assoc b.bytes s t) refl

pub skip-Writes : Writes (λ b. b) []
skip-Writes = record { run = λ b. rw (append-nil b.bytes) refl }

pub raw-Writes : (s : List ℕ) → Writes (raw s) s
raw-Writes s = record { run = λ b. refl }

pub then-Writes :
    {f g : Buf → Buf} {s t : List ℕ} → Writes f s → Writes g t → Writes (f then g) (s ++ t)
then-Writes {g} {s} {t} h k = record {
  run = λ b. ap g (h.run b) ∙ k.run (raw s b) ∙ appended b s t;
}

-- The bytes may be named otherwise.
pub Writes-from : {w : Buf → Buf} {s t : List ℕ} → s ≡ t → Writes w s → Writes w t
Writes-from {w} e h = subst (Writes w) e h

-- Seven pieces that are written one after the other
pub append_seven :
    (a b c d e f g : List ℕ)
    → a ++ b ++ c ++ d ++ e ++ f ++ g ≡ a ++ (b ++ (c ++ (d ++ (e ++ (f ++ g)))))
append_seven a b c d e f g = simp append_assoc
