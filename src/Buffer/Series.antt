-- ===== src/Buffer/Series.antt =====
-- A loop that writes each entry of a list, and a loop that reads as many entries.
use hdf5_rs.Prelude.{ℕ, zero, suc, List, [], ◌∷◌, ◌++◌, length, append-nil, All}
use hdf5_rs.Buffer.{Buf}
use hdf5_rs.Buffer.Parser.{Parser, ◌>>=◌, pure, Reads, >>=-Reads, pure-Reads, Reads-from}
use hdf5_rs.Buffer.Writing.{Writes, then-Writes, skip-Writes}

module _ {A : Type 0} where
  -- `for x in xs`
  unfoldable pub write_each : (A → Buf → Buf) → List A → Buf → Buf
  write_each write [] b = b
  write_each write (x ∷ xs) b = write_each write xs (write x b)

  -- `for _ in 0..n`
  unfoldable pub read_each : Parser A → ℕ → Parser (List A)
  read_each entry zero = pure []
  read_each entry (suc n) = do x ← entry; rest ← read_each entry n; pure (x ∷ rest)

  abbrev pub each_code : (A → List ℕ) → List A → List ℕ
  each_code code [] = []
  each_code code (x ∷ xs) = code x ++ each_code code xs

  pub write_each-Writes :
      (write : A → Buf → Buf) (code : A → List ℕ) (P : A → Type 0) (xs : List A)
      → ((x : A) → P x → Writes (write x) (code x))
      → All P xs
      → Writes (write_each write xs) (each_code code xs)
  unfolding write_each
  write_each-Writes write code P [] h hs = skip-Writes
  write_each-Writes write code P (x ∷ xs) h (p, ps) = record {
    run = (then-Writes (h x p) (write_each-Writes write code P xs h ps)).run;
  }

  -- Where each entry can be written
  pub write_every-Writes :
      (write : A → Buf → Buf) (code : A → List ℕ) (xs : List A)
      → ((x : A) → Writes (write x) (code x))
      → Writes (write_each write xs) (each_code code xs)
  unfolding write_each
  write_every-Writes write code [] h = skip-Writes
  write_every-Writes write code (x ∷ xs) h = record {
    run = (then-Writes (h x) (write_every-Writes write code xs h)).run;
  }

  pub read_each-Reads :
      (entry : Parser A) (code : A → List ℕ) (P : A → Type 0) (xs : List A)
      → ((x : A) → P x → Reads entry (code x) x)
      → All P xs
      → Reads (read_each entry (length xs)) (each_code code xs) xs
  unfolding read_each
  read_each-Reads entry code P [] h hs = pure-Reads []
  read_each-Reads entry code P (x ∷ xs) h (p, ps) = >>=-Reads _ (h x p) (
      Reads-from (append-nil (each_code code xs))
        (>>=-Reads _ (read_each-Reads entry code P xs h ps) (pure-Reads (x ∷ xs))))
