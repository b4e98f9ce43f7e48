-- ===== src/Arena/Paths/Split.antt =====
-- How a path is cut: a name behind a slash is one more component.
use hdf5_rs.Prelude.{
  ℕ, ◌≡◌, refl, sym, ap, subst, ◌∙◌, List, [], ◌∷◌, ◌++◌, All, ◌==◌, Bool-cases, false, inl, inr,
  Option, none, some, some_inj, Result, ok, ok_inj, >>=-eq-ok,
}
use hdf5_rs.Arena.{Text, same, FileState, hard, Link, find_link}
use hdf5_rs.Arena.Paths.{
  slash, prepend, split, is_empty, dot, drop_empty, drop_dots, components, walk, step_link, go_on,
}

-- A name that is one component: not empty, not `.`, and without a slash.
pub record IsName (name : Text) : Type 0 where
  pub full : is_empty name ≡ false
  pub plain : same name dot ≡ false
  pub whole : All (λ c. (c == slash) ≡ false) name

prepend-append :
    (c : ℕ) (p : Text) (ps qs : List Text) → prepend c ((p ∷ ps) ++ qs) ≡ prepend c (p ∷ ps) ++ qs
prepend-append c p ps qs = refl

split-cons : (cs : Text) → (p : Text) × (ps : List Text) × (split cs ≡ p ∷ ps)
unfolding split
split-cons [] = ([], [], refl)
split-cons (c ∷ cs) = elim (Bool-cases (c == slash)) [
  | inl b ↦ ([], split cs, rw b refl)
  | inr b ↦ let (p, ps, e) = split-cons cs in (c ∷ p, ps, rw (b, e) refl)
]

split-slash : (cs ds : Text) → split (cs ++ (slash ∷ ds)) ≡ split cs ++ split ds
unfolding split
split-slash [] ds = refl
split-slash (c ∷ cs) ds = elim (Bool-cases (c == slash)) [
  | inl b ↦ rw b (ap (◌∷◌ []) (split-slash cs ds))
  | inr b ↦ let (p, ps, e) = split-cons cs in rw b (ap (prepend c) (split-slash cs ds) ∙ rw e refl)
]

split_whole : (cs : Text) → All (λ c. (c == slash) ≡ false) cs → split cs ≡ cs ∷ []
unfolding split
split_whole [] h = refl
split_whole (c ∷ cs) (h, hs) = rw (h, split_whole cs hs) refl

drop_empty-append : (ps qs : List Text) → drop_empty (ps ++ qs) ≡ drop_empty ps ++ drop_empty qs
unfolding drop_empty
drop_empty-append [] qs = refl
drop_empty-append (p ∷ ps) qs = elim (Bool-cases (is_empty p)) [
  | inl b ↦ rw b (drop_empty-append ps qs)
  | inr b ↦ rw b (ap (◌∷◌ p) (drop_empty-append ps qs))
]

drop_dots-append : (ps qs : List Text) → drop_dots (ps ++ qs) ≡ drop_dots ps ++ drop_dots qs
unfolding drop_dots
drop_dots-append [] qs = refl
drop_dots-append (p ∷ ps) qs = elim (Bool-cases (same p dot)) [
  | inl b ↦ rw b (drop_dots-append ps qs)
  | inr b ↦ rw b (ap (◌∷◌ p) (drop_dots-append ps qs))
]

components-name : (name : Text) → IsName name → components name ≡ name ∷ []
unfolding components drop_empty drop_dots
components-name name h = rw (split_whole name h.whole, h.full, h.plain) refl

pub components-child :
    (prefix name : Text)
    → IsName name
    → components (prefix ++ (slash ∷ name)) ≡ components prefix ++ (name ∷ [])
unfolding components
components-child prefix name h =
    ap (λ t. drop_dots (drop_empty t)) (split-slash prefix name)
    ∙ ap drop_dots (drop_empty-append (split prefix) (split name))
    ∙ drop_dots-append (drop_empty (split prefix)) (drop_empty (split name))
    ∙ ap (◌++◌ (components prefix)) (components-name name h)

snoc_step :
    (at_root : Text → Result (Option ℕ)) (st : FileState) (mid id : ℕ) (ns : List Text)
    (name : Text) (l : Link) (o : Option ℕ)
    → go_on (λ k. walk at_root st k ns) o ≡ ok (some mid)
    → ((k : ℕ)
        → walk at_root st k ns ≡ ok (some mid)
        → walk at_root st k (ns ++ (name ∷ [])) ≡ ok (some id))
    → go_on (λ k. walk at_root st k (ns ++ (name ∷ []))) o ≡ ok (some id)
snoc_step at_root st mid id ns name l none w next = cc
snoc_step at_root st mid id ns name l (some k) w next = next k w

-- One more link at the end of a walk.
pub walk-snoc :
    (at_root : Text → Result (Option ℕ)) (st : FileState) (cur mid id : ℕ) (names : List Text)
    (name : Text) (l : Link)
    → walk at_root st cur names ≡ ok (some mid)
    → find_link st mid name ≡ some l
    → l.target ≡ hard id
    → walk at_root st cur (names ++ (name ∷ [])) ≡ ok (some id)
unfolding walk
walk-snoc at_root st cur mid id [] name l w h e =
    let here : cur ≡ mid = some_inj (ok_inj (some cur) (some mid) w) in
    let step : find_link st cur name ≡ some l =
      subst (λ k. find_link st k name ≡ some l) (sym here) h in
    rw (step, e) refl
walk-snoc at_root st cur mid id (n ∷ ns) name l w h e =
    let (o, e1, e2) = >>=-eq-ok (step_link at_root (find_link st cur n)) _ w in
    rw e1 (
      snoc_step at_root st mid id ns name l o e2
        (λ k w'. walk-snoc at_root st k mid id ns name l w' h e))
