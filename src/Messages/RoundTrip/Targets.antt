-- ===== src/Messages/RoundTrip/Targets.antt =====
-- The target of a link.
use hdf5_rs.Prelude.{
  ℕ, ◌+◌, ◌%◌, ◌^◌, ◌<◌, ◌≡◌, refl, ap, arith, List, [], ◌∷◌, ◌++◌, length, length-append,
  append-nil, append_assoc, Option, some, ok,
}
use hdf5_rs.Prelude.Bytes.{to_le}
use native.Mathlib.Nat.{mod-eq_of_lt}
use hdf5_rs.Arena.{Text, LinkTarget, hard, soft, external}
use hdf5_rs.Buffer.{Buf, raw, take_bytes}
use hdf5_rs.Buffer.Parser.{
  Parser, ◌>>=◌, pure, lift, Reads, >>=-Reads, pure-Reads, Reads-from, u16-Reads, u64-Reads,
  take-Reads,
}
use hdf5_rs.Buffer.Writing.{raw-Writes, then-Writes, Writes-from}
use hdf5_rs.Datatype.Names.{IsText, lossy}
use hdf5_rs.Messages.{cstr}
use hdf5_rs.Messages.RoundTrip.Names.{before_zero-ended, after_zero-ended}
use hdf5_rs.Messages.LinkMessage.{type_code, write_target, external_parts, parse_target}

-- The bytes of a target
abbrev blob : Text → Text → List ℕ
blob file path = 0 ∷ (file ++ (0 ∷ (path ++ (0 ∷ []))))

abbrev pub target_code : LinkTarget → ℕ → List ℕ
target_code (hard id) oh = to_le 8 oh
target_code (soft path) oh = to_le 2 (length path) ++ path
target_code (external file path) oh = to_le 2 (length (blob file path)) ++ blob file path

-- A target whose texts have lengths of 16 bits
abbrev pub IsTarget : LinkTarget → Type 0
IsTarget (hard id) = Unit {0}
IsTarget (soft path) = (length path < 2 ^ 16) × (lossy path ≡ path)
IsTarget (external file path) = (length file + length path + 3 < 2 ^ 16) × IsText file × IsText path

-- The target with the address of its object
abbrev pub at_address : LinkTarget → ℕ → LinkTarget
at_address (hard id) oh = hard oh
at_address (soft path) oh = soft path
at_address (external file path) oh = external file path

external_parts-blob :
    (file path : Text)
    → IsText file
    → IsText path
    → external_parts (blob file path) ≡ ok (external file path)
unfolding external_parts cstr
external_parts-blob file path h k =
    rw
      (
        before_zero-ended file (path ++ (0 ∷ [])) h.no_end,
        after_zero-ended file (path ++ (0 ∷ [])) h.no_end,
        before_zero-ended path [] k.no_end,
        h.utf8,
        k.utf8,
      )
      refl

pub target-Reads :
    (t : LinkTarget) (oh : ℕ)
    → oh < 2 ^ 64
    → IsTarget t
    → Reads (parse_target (type_code t)) (target_code t oh) (some (at_address t oh))
unfolding parse_target
target-Reads (hard id) oh h k =
    Reads-from (append-nil (to_le 8 oh))
      (>>=-Reads (λ a. pure (some (hard a))) (u64-Reads oh h) (pure-Reads (some (hard oh))))
target-Reads (soft path) oh h (small, utf8) =
    >>=-Reads (λ len. take_bytes len >>= λ path. pure (some (soft (lossy path))))
      (u16-Reads (length path) small)
      (Reads-from (append-nil path) (
        >>=-Reads (λ path. pure (some (soft (lossy path)))) (take-Reads path)
          (rw utf8 (pure-Reads (some (soft path))))))
target-Reads (external file path) oh h (small, f, p) =
    let size : length (blob file path) < 2 ^ 16 =
      omega (arith, length-append file (0 ∷ (path ++ (0 ∷ []))), length-append path (0 ∷ [])) in
    let known : List ℕ → Parser (Option LinkTarget) =
      λ b. lift (external_parts b) >>= λ t. pure (some t) in
    >>=-Reads (λ len. take_bytes len >>= known) (u16-Reads (length (blob file path)) size)
      (Reads-from (append-nil (blob file path)) (
        >>=-Reads known (take-Reads (blob file path))
          (rw (external_parts-blob file path f p) (pure-Reads (some (external file path))))))

regroup_external :
    (a f p : List ℕ)
    → a ++ (0 ∷ []) ++ f ++ (0 ∷ []) ++ p ++ (0 ∷ []) ≡ a ++ (0 ∷ (f ++ (0 ∷ (p ++ (0 ∷ [])))))
regroup_external a f p = simp append_assoc

pub target-Writes :
    (t : LinkTarget) (oh : ℕ) (b : Buf)
    → IsTarget t
    → write_target t (some oh) b ≡ ok (raw (target_code t oh) b)
unfolding write_target
target-Writes (hard id) oh b h = refl
target-Writes (soft path) oh b (small, utf8) =
    rw (mod-eq_of_lt small)
      (ap ok ((then-Writes (raw-Writes (to_le 2 (length path))) (raw-Writes path)).run b))
target-Writes (external file path) oh b (small, f, p) =
    let size : (1 + length file + 1 + length path + 1) % 2 ^ 16 ≡ length (blob file path) =
      omega (arith, length-append file (0 ∷ (path ++ (0 ∷ []))), length-append path (0 ∷ [])) in
    let len : List ℕ = to_le 2 (length (blob file path)) in
    rw size (
      ap ok (
        (Writes-from (regroup_external len file path) (
            then-Writes
              (then-Writes
                (then-Writes
                  (then-Writes (then-Writes (raw-Writes len) (raw-Writes (0 ∷ [])))
                    (raw-Writes file))
                  (raw-Writes (0 ∷ [])))
                (raw-Writes path))
              (raw-Writes (0 ∷ [])))).run
          b))
