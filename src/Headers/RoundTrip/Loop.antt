-- ===== src/Headers/RoundTrip/Loop.antt =====
-- The loop over the messages of a block, against handling the messages one by one.
use hdf5_rs.Prelude.{
  ℕ, zero, suc, ◌+◌, ◌≤◌, ◌≡◌, refl, ap, sym, subst, ◌∙◌, arith, List, [], ◌∷◌, ◌++◌, length,
  length-append, take-append, drop-append, append-nil, append_assoc, All, le→leb, le→not_ltb,
  Result, ok, err, panic, out_of_fuel, ◌>>=◌, fun_ext,
}
use hdf5_rs.Buffer.Parser.{Parser, Reads}
use hdf5_rs.Headers.{Callees, Progress, handle_message}
use hdf5_rs.Headers.Heads.{Head, head_of}
use hdf5_rs.Headers.Scan.{at, body_at, scan_messages}
use hdf5_rs.Headers.Write.{Message}

>>=_assoc :
    {A B C : Type 0} (r : Result A) (f : A → Result B) (g : B → Result C)
    → ((r >>= f) >>= g) ≡ (r >>= λ a. f a >>= g)
>>=_assoc panic f g = refl
>>=_assoc out_of_fuel f g = refl
>>=_assoc (ok a) f g = refl
>>=_assoc (err words) f g = refl

module _ {A S : Type 0} (p : Callees A S) where
  -- Each message in turn
  unfoldable pub handle_all : List Message → Progress A S → Result (Progress A S)
  unfolding handle_message
  handle_all [] st = ok st
  handle_all (m ∷ ms) st = handle_message p m.ty m.mflags m.body st >>= handle_all ms

abbrev pub codes : (Message → List ℕ) → List Message → List ℕ
codes head_code [] = []
codes head_code (m ∷ ms) = head_code m ++ (m.body ++ codes head_code ms)

pub body_at-middle :
    (image pre body post : List ℕ)
    → image ≡ pre ++ (body ++ post)
    → body_at image (length pre) (length body) ≡ body
body_at-middle image pre body post e =
    rw (e, drop-append pre (body ++ post)) (take-append body post)

module _ {A S : Type 0} (p : Callees A S) (image : List ℕ) (read_head : Parser Head) (hdr_len : ℕ)
    (spent : Progress A S → Result (ℕ × Progress A S)) (head_code : Message → List ℕ)
    (Fits : Message → Type 0)
    (heads : (m : Message)
      → Fits m
      → Reads read_head (head_code m) (head_of m.ty (length m.body) m.mflags))
    (sized : (m : Message) → length (head_code m) ≡ hdr_len) where
  abbrev scan : (end fuel pos : ℕ) → Progress A S → Result (ℕ × Progress A S)
  scan = scan_messages p image read_head hdr_len spent

  -- One message
  scan_one :
      (m : Message) (pre rest : List ℕ) (end fuel : ℕ) (st : Progress A S)
      → Fits m
      → image ≡ pre ++ (head_code m ++ (m.body ++ rest))
      → length pre + hdr_len + length m.body ≤ end
      → scan end (suc fuel) (length pre) st ≡ (
          handle_message p m.ty m.mflags m.body st >>= λ st'.
          scan end fuel (length (pre ++ head_code m) + length m.body) st')
  unfolding scan_messages
  scan_one m pre rest end fuel st fits e room =
      let head = head_of m.ty (length m.body) m.mflags in
      let e' : image ≡ (pre ++ head_code m) ++ (m.body ++ rest) =
        e ∙ sym (append_assoc pre (head_code m) (m.body ++ rest)) in
      let front = length-append pre (head_code m) in
      let total : length (pre ++ head_code m) + length m.body ≤ length image = omega (
        arith,
        ap length e',
        length-append (pre ++ head_code m) (m.body ++ rest),
        length-append m.body rest,
      ) in
      let read : read_head (at image (length pre))
          ≡ ok (head, at image (length (pre ++ head_code m))) =
        subst (λ i. read_head (at i (length pre)) ≡ ok (head, at i (length (pre ++ head_code m))))
          (sym e) ((heads m fits).run pre (m.body ++ rest)) in
      let more : length pre + hdr_len ≤ end = omega arith in
      let stop : length (pre ++ head_code m) + length m.body ≤ end = omega (arith, sized m) in
      rw
        (
          le→leb (length pre + hdr_len) end more,
          read,
          le→not_ltb end (length (pre ++ head_code m) + length m.body) stop,
          le→not_ltb (length image) (length (pre ++ head_code m) + length m.body) total,
          body_at-middle image (pre ++ head_code m) m.body rest e',
        )
        refl

  pub scan-handle_all :
      (ms : List Message) (pre post : List ℕ) (end pos fuel left : ℕ) (st : Progress A S)
      → All Fits ms
      → image ≡ pre ++ (codes head_code ms ++ post)
      → end ≡ length (pre ++ codes head_code ms)
      → pos ≡ length pre
      → fuel ≡ length ms + left
      → scan end fuel pos st ≡ (handle_all p ms st >>= λ st'. scan end left end st')
  unfolding handle_all
  scan-handle_all [] pre post end pos fuel left st h e e' at_start spare =
      let no_more : fuel ≡ left = omega arith in
      let at_end : pos ≡ end = at_start ∙ ap length (sym (append-nil pre)) ∙ sym e' in
      rw (no_more, at_end) refl
  scan-handle_all (m ∷ ms) pre post end pos zero left st h e e' at_start spare =
      absurd (omega arith)
  scan-handle_all (m ∷ ms) pre post end pos (suc fuel) left st (h, hs) e e' at_start spare =
      let hc = head_code m in
      let rest = codes head_code ms in
      let apart : image ≡ pre ++ (hc ++ (m.body ++ (rest ++ post))) =
        e
        ∙ ap (◌++◌ pre) (append_assoc hc (m.body ++ rest) post)
        ∙ ap (λ t. pre ++ (hc ++ t)) (append_assoc m.body rest post) in
      let behind : image ≡ (pre ++ hc ++ m.body) ++ (rest ++ post) =
        apart
        ∙ sym (append_assoc pre hc (m.body ++ (rest ++ post)))
        ∙ sym (append_assoc (pre ++ hc) m.body (rest ++ post)) in
      let until : end ≡ length ((pre ++ hc ++ m.body) ++ rest) =
        e'
        ∙ ap length (sym (append_assoc pre hc (m.body ++ rest)))
        ∙ ap length (sym (append_assoc (pre ++ hc) m.body rest)) in
      let front = length-append pre hc in
      let whole = length-append (pre ++ hc) m.body in
      let room : length pre + hdr_len + length m.body ≤ end =
        omega (arith, sized m, length-append (pre ++ hc ++ m.body) rest) in
      rw at_start (scan_one m pre (rest ++ post) end fuel st h apart room)
      ∙ ap (◌>>=◌ (handle_message p m.ty m.mflags m.body st)) (
          fun_ext (λ st'.
            scan-handle_all ms (pre ++ hc ++ m.body) post end (length (pre ++ hc) + length m.body)
              fuel left st' hs behind until (sym whole) (omega arith)))
      ∙ sym (>>=_assoc (handle_message p m.ty m.mflags m.body st) (handle_all p ms) _)
