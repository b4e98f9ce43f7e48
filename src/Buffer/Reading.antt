-- ===== src/Buffer/Reading.antt =====
-- Code that reads with a `Cursor`, step by step: it moves forward and ends with a result, an
-- error of its own or a panic.
use hdf5_rs.Prelude.{
  ℕ, ◌+◌, ◌-◌, ◌^◌, ◌<◌, ◌≤◌, ◌≡◌, refl, sym, subst, arith, if◌then◌else◌, List, length, get_elem?,
  get_elem?-lt, drop, take, length-drop, length-take, All, All-take, All-drop, ltb, le→leb,
  not_ltb→le, Bool, Bool-cases, true, false, inl, inr, Option, none, some, Result, ok, err, panic,
  out_of_fuel, Ends, Ends-mono, >>=-Ends,
}
use hdf5_rs.Prelude.Bytes.{IsByte, from_le, from_le-lt}
use hdf5_rs.Buffer.{Cursor, skip, take_bytes, number, read_u8, read_u16, read_u32, read_uint}
use hdf5_rs.Buffer.Fields.{at}
use hdf5_rs.Buffer.Parser.{Parser, ◌>>=◌, pure, pass, lift}

module _ (image : List ℕ) where
  -- The cursor stays in its file and does not move back, and the value has the property.
  abbrev pub Onward : {A : Type 0} → (A → Type 0) → ℕ → A × Cursor → Type 0
  Onward P pos r = (r.1.image ≡ image) × (pos ≤ r.1.pos) × P r.0

  -- From `from` on, the code moves forward to a value with the property, or has an error or a
  -- panic.
  pub record Works {A : Type 0} (P : A → Type 0) (from : ℕ) (m : Parser A) : Type 0 where
    pub run : (pos : ℕ) → from ≤ pos → Ends (Onward P pos) (m (at image pos))

  after_read :
      {A B : Type 0} (P : A → Type 0) (Q : B → Type 0) (from pos : ℕ) (next : A → Parser B)
      (r : Result (A × Cursor))
      → from ≤ pos
      → Ends (Onward P pos) r
      → ((a : A) → P a → Works Q from (next a))
      → Ends (Onward Q pos) (elim r [
        | panic ↦ panic
        | out_of_fuel ↦ out_of_fuel
        | err words ↦ err words
        | ok r ↦ next r.0 r.1
      ])
  after_read P Q from pos next panic h q k = tt
  after_read P Q from pos next out_of_fuel h q k = q
  after_read P Q from pos next (err words) h q k = tt
  after_read P Q from pos next (ok r) h (here, on, p) k =
      Ends-mono (Onward Q r.1.pos) (Onward Q pos) (next r.0 r.1)
        (λ t u. (u.0, omega (arith, u.1), u.2))
        (subst (λ i. Ends (Onward Q r.1.pos) (next r.0 (at i r.1.pos))) (sym here)
          ((k r.0 p).run r.1.pos (omega arith)))

  pub >>=-Works :
      {A B : Type 0} (P : A → Type 0) (Q : B → Type 0) (from : ℕ) (m : Parser A)
      (next : A → Parser B)
      → Works P from m
      → ((a : A) → P a → Works Q from (next a))
      → Works Q from (m >>= next)
  >>=-Works P Q from m next h k = record {
    run = λ pos on. after_read P Q from pos next (m (at image pos)) on (h.run pos on) k;
  }

  pub pure-Works : {A : Type 0} (P : A → Type 0) (from : ℕ) (a : A) → P a → Works P from (pure a)
  pure-Works P from a p = record { run = λ pos on. (refl, omega arith, p) }

  pub pass-Works : (from n : ℕ) → Works (λ _. Unit {0}) from (pass n)
  pass-Works from n = record { run = λ pos on. (refl, omega arith, tt) }

  pub lift-Works :
      {A : Type 0} (P : A → Type 0) (from : ℕ) (m : Result A) → Ends P m → Works P from (lift m)
  lift-Works P from panic h = record { run = λ pos on. tt }
  lift-Works P from out_of_fuel h = absurd h
  lift-Works P from (err words) h = record { run = λ pos on. tt }
  lift-Works P from (ok a) h = record { run = λ pos on. (refl, omega arith, h) }

  pub if-Works :
      {A : Type 0} (P : A → Type 0) (from : ℕ) (b : Bool) (m n : Parser A)
      → Works P from m
      → Works P from n
      → Works P from (if b then m else n)
  if-Works P from true m n h k = h
  if-Works P from false m n h k = k

  read_byte :
      (pos : ℕ) (o : Option ℕ)
      → get_elem? image pos ≡ o
      → Ends
          (Onward (λ _. Unit {0}) pos)
          (elim o [ none ↦ err "unexpected end of file" | some b ↦ ok (b, skip 1 (at image pos)) ])
  read_byte pos none h = tt
  read_byte pos (some b) h = (refl, omega arith, tt)

  pub u8-Works : (from : ℕ) → Works (λ _. Unit {0}) from read_u8
  unfolding read_u8
  u8-Works from = record { run = λ pos on. read_byte pos (get_elem? image pos) refl }

  -- `take`: so many bytes of the file.
  pub take-Works :
      (n from : ℕ)
      → All IsByte image
      → Works (λ s. (length s ≡ n) × All IsByte s) from (take_bytes n)
  unfolding take_bytes
  take-Works n from bytes = record {
    run = λ pos on. elim (Bool-cases (ltb (length image) (pos + n))) [
      | inl b ↦ rw (Ends, b) tt
      | inr b ↦
          let fits : pos + n ≤ length image = not_ltb→le (length image) (pos + n) b in
          let span : pos + n - pos ≡ n = omega arith in
          let room : length (drop pos image) ≡ length image - pos = length-drop pos image in
          let size : length (take n (drop pos image)) ≡ n =
            omega (arith, length-take n (drop pos image)) in
          rw
            (
              Ends,
              b,
              le→leb pos (pos + n) (omega arith),
              le→leb (pos + n) (length image) fits,
              span,
            )
            (
              refl,
              omega arith,
              (size, All-take IsByte n (drop pos image) (All-drop IsByte pos image bytes)),
            )
    ];
  }

  number_of :
      (n from : ℕ) (m : Parser ℕ)
      → ((c : Cursor) → m c ≡ number (take_bytes n c))
      → All IsByte image
      → Works (λ v. v < 256 ^ n) from m
  number_of n from m same bytes = record {
    run = λ pos on. rw (same (at image pos)) (
        >>=-Ends (Onward (λ s. (length s ≡ n) × All IsByte s) pos) (Onward (λ v. v < 256 ^ n) pos)
          (take_bytes n (at image pos)) _ ((take-Works n from bytes).run pos on)
          (λ s (here, on', (e, b)).
            (here, on', subst (λ k. from_le s.0 < 256 ^ k) e (from_le-lt s.0 b))));
  }

  pub u16-Works : (from : ℕ) → All IsByte image → Works (λ v. v < 2 ^ 16) from read_u16
  unfolding read_u16
  u16-Works from bytes = number_of 2 from read_u16 (λ c. refl) bytes

  pub u32-Works : (from : ℕ) → All IsByte image → Works (λ v. v < 2 ^ 32) from read_u32
  unfolding read_u32
  u32-Works from bytes = number_of 4 from read_u32 (λ c. refl) bytes

  pub uint-Works :
      (n from : ℕ) → n ≤ 8 → All IsByte image → Works (λ _. Unit {0}) from (read_uint n)
  unfolding read_uint
  uint-Works n from h bytes = record {
    run = λ pos on.
        >>=-Ends (Onward (λ s. (length s ≡ n) × All IsByte s) pos) (Onward (λ _. Unit {0}) pos)
          (take_bytes n (at image pos)) _ ((take-Works n from bytes).run pos on)
          (λ s (here, on', (e, b)). rw (Ends, le→leb n 8 h) (here, on', tt));
  }

  -- A byte that is read lies in the file.
  u8_next :
      {B : Type 0} (P : B → Type 0) (next : ℕ → Parser B) (pos : ℕ) (o : Option ℕ)
      → get_elem? image pos ≡ o
      → ((b : ℕ) → pos < length image → Ends (Onward P (pos + 1)) (next b (at image (pos + 1))))
      → Ends (Onward P pos) ((read_u8 >>= next) (at image pos))
  unfolding read_u8
  u8_next P next pos none e k = rw (Ends, ◌>>=◌, e) tt
  u8_next P next pos (some b) e k =
      rw (Ends, ◌>>=◌, e)
        (Ends-mono (Onward P (pos + 1)) (Onward P pos) (next b (at image (pos + 1)))
          (λ t u. (u.0, omega (arith, u.1), u.2)) (k b (get_elem?-lt image pos b e)))

  pub u8-then :
      {B : Type 0} (P : B → Type 0) (next : ℕ → Parser B) (pos : ℕ)
      → ((b : ℕ) → pos < length image → Ends (Onward P (pos + 1)) (next b (at image (pos + 1))))
      → Ends (Onward P pos) ((read_u8 >>= next) (at image pos))
  u8-then P next pos k = u8_next P next pos (get_elem? image pos) refl k

  -- The rule of `?` and the one of a condition, at one place.
  pub run-then :
      {A B : Type 0} (P : A → Type 0) (Q : B → Type 0) (pos : ℕ) (m : Parser A)
      (next : A → Parser B)
      → Ends (Onward P pos) (m (at image pos))
      → ((a : A) → P a → Works Q pos (next a))
      → Ends (Onward Q pos) ((m >>= next) (at image pos))
  run-then P Q pos m next h k = after_read P Q pos pos next (m (at image pos)) (omega arith) h k

  pub if-then :
      {A : Type 0} (P : A → Type 0) (pos : ℕ) (b : Bool) (m n : Parser A)
      → Ends (Onward P pos) (m (at image pos))
      → Ends (Onward P pos) (n (at image pos))
      → Ends (Onward P pos) ((if b then m else n) (at image pos))
  if-then P pos true m n h k = h
  if-then P pos false m n h k = k
