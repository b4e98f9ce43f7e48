-- ===== src/Buffer/Parser.antt =====
-- Code that reads with a `Cursor` and returns early with `?`, as functions of the cursor, and what
-- it means that such code reads certain bytes.
use hdf5_rs.Prelude.{
  ℕ, ◌^◌, ◌<◌, ◌≡◌, refl, ap, sym, subst, List, [], ◌∷◌, ◌++◌, length, append_assoc, length-append,
  append-nil, Result, ok, err, panic, out_of_fuel, String,
}
use hdf5_rs.Prelude.Bytes.{to_le}
use hdf5_rs.Buffer.{Cursor, take_bytes, read_u8, read_u16, read_u32, read_u64, read_uint, skip}
use native.Mathlib.Nat.{mod-eq_of_lt}
use hdf5_rs.Buffer.Fields.{at, take_bytes-middle, number-middle, read_u8-middle}

abbrev pub Parser : Type 0 → Type 0
Parser A = Cursor → Result (A × Cursor)

infixl 5 ◌>>=◌
abbrev pub ◌>>=◌ : {A B : Type 0} → Parser A → (A → Parser B) → Parser B
(m >>= next) c = elim (m c) [
  | panic ↦ panic
  | out_of_fuel ↦ out_of_fuel
  | err words ↦ err words
  | ok r ↦ next r.0 r.1
]

infixl 5 ◌>>◌
abbrev pub ◌>>◌ : {A B : Type 0} → Parser A → Parser B → Parser B
first >> second = first >>= λ _. second

abbrev pub pure : {A : Type 0} → A → Parser A
pure a c = ok (a, c)

abbrev pub fail : {A : Type 0} → String → Parser A
fail words c = err words

-- A result that no byte is read for.
abbrev pub lift : {A : Type 0} → Result A → Parser A
lift panic c = panic
lift out_of_fuel c = out_of_fuel
lift (err words) c = err words
lift (ok a) c = ok (a, c)

-- `c.skip(n)`
abbrev pub pass : ℕ → Parser (Unit {0})
pass n c = ok (tt, skip n c)

-- The parser reads these bytes wherever they stand, returns `a` and stops behind them.
pub record Reads {A : Type 0} (m : Parser A) (s : List ℕ) (a : A) : Type 0 where
  pub run :
      (pre post : List ℕ)
      → m (at (pre ++ (s ++ post)) (length pre))
        ≡ ok (a, at (pre ++ (s ++ post)) (length (pre ++ s)))

pub >>=-Reads :
    {A B : Type 0} {m : Parser A} (next : A → Parser B) {s t : List ℕ} {a : A} {b : B}
    → Reads m s a
    → Reads (next a) t b
    → Reads (m >>= next) (s ++ t) b
>>=-Reads {m} next {s} {t} {a} {b} h k = record {
  run = λ pre post.
      let image : pre ++ ((s ++ t) ++ post) ≡ pre ++ (s ++ (t ++ post)) =
        ap (◌++◌ pre) (append_assoc s t post) in
      let image' : (pre ++ s) ++ (t ++ post) ≡ pre ++ (s ++ (t ++ post)) =
        append_assoc pre s (t ++ post) in
      let place : length (pre ++ (s ++ t)) ≡ length ((pre ++ s) ++ t) =
        ap length (sym (append_assoc pre s t)) in
      rw (image, place, ◌>>=◌, h.run pre (t ++ post))
        (subst (λ i. next a (at i (length (pre ++ s))) ≡ ok (b, at i (length ((pre ++ s) ++ t))))
          image' (k.run (pre ++ s) post));
}

pub pure-Reads : {A : Type 0} (a : A) → Reads (pure a) [] a
pure-Reads a = record { run = λ pre post. rw (append-nil pre) refl }

-- The bytes may be named otherwise.
pub Reads-from :
    {A : Type 0} {m : Parser A} {s t : List ℕ} {a : A} → s ≡ t → Reads m s a → Reads m t a
Reads-from {m} {a} e h = subst (λ u. Reads m u a) e h

-- Bytes that are the whole image
pub Reads-whole :
    {A : Type 0} {m : Parser A} (s : List ℕ) {a : A}
    → Reads m s a
    → m (at s 0) ≡ ok (a, at s (length s))
Reads-whole {m} s {a} h =
    subst (λ i. m (at i 0) ≡ ok (a, at i (length s))) (append-nil s) (h.run [] [])

pub u8-Reads : (v : ℕ) → Reads read_u8 (v ∷ []) v
u8-Reads v = record {
  run = λ pre post. rw (length-append pre (v ∷ [])) (read_u8-middle pre post v);
}

pub take-Reads : (s : List ℕ) → Reads (take_bytes (length s)) s s
take-Reads s = record {
  run = λ pre post. rw (length-append pre s) (take_bytes-middle (length s) pre s post refl);
}

pub u16-Reads : (v : ℕ) → v < 2 ^ 16 → Reads read_u16 (to_le 2 v) v
unfolding read_u16
u16-Reads v h = record {
  run =
      λ pre post. rw (length-append pre (to_le 2 v)) (number-middle 2 v pre post (mod-eq_of_lt h));
}

pub u32-Reads : (v : ℕ) → v < 2 ^ 32 → Reads read_u32 (to_le 4 v) v
unfolding read_u32
u32-Reads v h = record {
  run =
      λ pre post. rw (length-append pre (to_le 4 v)) (number-middle 4 v pre post (mod-eq_of_lt h));
}

pub pass-Reads : (s : List ℕ) → Reads (pass (length s)) s tt
pass-Reads s = record { run = λ pre post. rw (length-append pre s) refl }

pub u64-Reads : (v : ℕ) → v < 2 ^ 64 → Reads read_u64 (to_le 8 v) v
unfolding read_u64
u64-Reads v h = record {
  run =
      λ pre post. rw (length-append pre (to_le 8 v)) (number-middle 8 v pre post (mod-eq_of_lt h));
}

pub uint8-Reads : (v : ℕ) → v < 2 ^ 64 → Reads (read_uint 8) (to_le 8 v) v
unfolding read_uint
uint8-Reads v h = record {
  run =
      λ pre post. rw (length-append pre (to_le 8 v)) (number-middle 8 v pre post (mod-eq_of_lt h));
}

pub uint4-Reads : (v : ℕ) → v < 2 ^ 32 → Reads (read_uint 4) (to_le 4 v) v
unfolding read_uint
uint4-Reads v h = record {
  run =
      λ pre post. rw (length-append pre (to_le 4 v)) (number-middle 4 v pre post (mod-eq_of_lt h));
}
