-- ===== src/Datatype/RoundTrip/Names.antt =====
-- Names: what is written is read back.
use hdf5_rs.Prelude.{
  ℕ, zero, suc, ◌+◌, ◌-◌, ◌<◌, ◌≤◌, ◌≡◌, refl, ap, ◌∙◌, arith, List, [], ◌∷◌, ◌++◌, length,
  replicate, length-append, length-replicate, append_assoc, append-nil, All, ◌==◌, ==_iff, false,
  if◌then◌else◌,
}
use hdf5_rs.Arena.{Text}
use hdf5_rs.Buffer.{align8}
use hdf5_rs.Buffer.Parser.{◌>>=◌, pure, Reads, >>=-Reads, pure-Reads, Reads-from, u8-Reads}
use hdf5_rs.Buffer.Writing.{◌then◌, Writes}
use hdf5_rs.Datatype.Names.{IsText}
use hdf5_rs.Datatype.Encode.{encode_name}
use hdf5_rs.Datatype.Decode.{read_chars, read_name}

abbrev pub ended : Text → List ℕ
ended name = name ++ (0 ∷ [])

abbrev pub padding : Text → ℕ
padding name = align8 (length name + 1) - (length name + 1)

abbrev pub name_code : Text → List ℕ
name_code name = ended name ++ replicate (padding name) 0

pub encode_name-Writes : (name : Text) → Writes (encode_name name) (name_code name)
unfolding encode_name
encode_name-Writes name = record {
  run = λ b.
      let size : length (b.bytes ++ name ++ (0 ∷ [])) - length b.bytes ≡ length name + 1 =
        omega (arith, length-append (b.bytes ++ name) (0 ∷ []), length-append b.bytes name) in
      let split : b.bytes ++ name ++ (0 ∷ []) ++ replicate (padding name) 0
          ≡ b.bytes ++ name_code name =
        ap (λ t. t ++ replicate (padding name) 0) (append_assoc b.bytes name (0 ∷ []))
        ∙ append_assoc b.bytes (ended name) (replicate (padding name) 0) in
      rw (size, split) refl;
}

pub read_chars-ended :
    (n : ℕ) (name : Text)
    → length name < n
    → All (λ c. 1 ≤ c) name
    → Reads (read_chars n) (ended name) name
unfolding read_chars
read_chars-ended zero name h full = absurd (omega arith)
read_chars-ended (suc n) [] h full = record { run = (>>=-Reads _ (u8-Reads 0) (pure-Reads [])).run }
read_chars-ended (suc n) (c ∷ cs) h (full, fulls) =
    let ne : (c == 0) ≡ false = grind (arith, ==_iff) in
    record {
      run =
          (>>=-Reads
            (λ byte. if byte == 0 then pure [] else (read_chars n >>= λ more. pure (byte ∷ more)))
            (u8-Reads c)
            (rw ne (
              Reads-from (append-nil (ended cs)) (
                >>=-Reads _ (read_chars-ended n cs (omega arith) fulls)
                  (pure-Reads (c ∷ cs)))))).run;
    }

pub read_name-Reads : (name : Text) → IsText name → Reads (read_name 1) (name_code name) name
unfolding read_name
read_name-Reads name h = record {
  run = λ pre post.
      let pad : List ℕ = replicate (padding name) 0 in
      let image : pre ++ (name_code name ++ post) ≡ pre ++ (ended name ++ (pad ++ post)) =
        ap (λ t. pre ++ t) (append_assoc (ended name) pad post) in
      let own = length-append name (0 ∷ []) in
      let whole = length-append pre (ended name ++ (pad ++ post)) in
      let inner = length-append (ended name) (pad ++ post) in
      let front = length-append pre (ended name) in
      let fuel : length name < length (pre ++ (ended name ++ (pad ++ post))) - length pre + 1 =
        omega arith in
      let size : length (pre ++ ended name) - length pre ≡ length name + 1 = omega arith in
      let stop : length (pre ++ ended name) + padding name ≡ length (pre ++ name_code name) =
        omega (
          arith,
          length-append pre (name_code name),
          length-append (ended name) pad,
          length-replicate {A = ℕ} (padding name) 0,
        ) in
      rw
        (
          image,
          ◌>>=◌,
          (read_chars-ended _ name fuel h.no_end).run pre (pad ++ post),
          size,
          h.utf8,
          stop,
        )
        refl;
}
