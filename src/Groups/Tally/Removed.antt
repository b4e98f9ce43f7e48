-- ===== src/Groups/Tally/Removed.antt =====
-- `unlink` keeps the counts of hard links exact, and so does `relink` where it succeeds.
use hdf5_rs.Prelude.{
  ℕ, suc, ◌+◌, ◌≡◌, refl, ap, subst, arith, List, [], ◌∷◌, Option, none, some, Bool-cases,
  Option-cases, some_inj, inl, inr, ok, err, panic, out_of_fuel,
}
use hdf5_rs.Arena.{
  Text, same, LinkTarget, hard, soft, external, Link, GroupData, find, find_index, ObjectKind,
  group, dataset, named_type, unsupported, ObjectNode, FileState, try_get, node_group,
}
use hdf5_rs.Arena.Counts.{
  points_to, tally, refs, group_tally, Balanced, nothing_owed, IsCounted, relinked-Balanced,
  recounted-Balanced,
}
use hdf5_rs.Groups.{Outcome}
use hdf5_rs.Groups.Removal.{
  remove, taken, take_kind, take_at, take_link, lower_at, release, unlink, relink,
}
use hdf5_rs.Groups.Tally.{
  After, After-bind, After-if, owing, other-owing, self-owing, Counted, locate_keeps,
  push_link-Balanced,
}

tally-remove :
    (id : ℕ) (ls : List Link) (name : Text) (i : ℕ) (l : Link)
    → find_index ls name ≡ some i
    → find ls name ≡ some l
    → tally id (remove ls i) + points_to id l.target ≡ tally id ls
unfolding find find_index
tally-remove id [] name i l e f = cc
tally-remove id (k ∷ ks) name i l e f = elim (Bool-cases (same k.name name)) [
  | inl b ↦
      let first : some 0 ≡ some i = rw b at e in
      let here : some k ≡ some l = rw b at f in
      subst (λ t. tally id (remove (k ∷ ks) t) + points_to id l.target ≡ tally id (k ∷ ks))
        (some_inj first)
        (subst (λ t. tally id ks + points_to id t.target ≡ tally id (k ∷ ks)) (some_inj here)
          (omega arith))
  | inr b ↦ elim (Option-cases (find_index ks name)) [
    | inl n ↦ let c : none ≡ some i = rw (b, n) at e in cc
    | inr (j, q) ↦
        let next : some (suc j) ≡ some i = rw (b, q) at e in
        let f' : find ks name ≡ some l = rw b at f in
        subst (λ t. tally id (remove (k ∷ ks) t) + points_to id l.target ≡ tally id (k ∷ ks))
          (some_inj next) (omega (arith, tally-remove id ks name j l q f'))
  ]
]

-- What is said of an error is left out.
After-loose :
    {A : Type 0} (P : A → FileState → Type 0) (Q : FileState → Type 0) (m : Outcome A)
    → After P Q m
    → After P (λ _. Unit {0}) m
After-loose P Q (st, ok a) h = h
After-loose P Q (st, err words) h = tt
After-loose P Q (st, panic) h = tt
After-loose P Q (st, out_of_fuel) h = tt

-- What was taken away is one too many in its target's count.
abbrev Spare : Link → FileState → Type 0
Spare link st = Balanced nothing_owed (owing link.target) st

taken-Balanced :
    (st : FileState) (id : ℕ) (node : ObjectNode) (g : GroupData) (name : Text) (i : Option ℕ)
    (l : Option Link)
    → try_get st id ≡ some node
    → node.kind ≡ group g
    → find_index g.links name ≡ i
    → find g.links name ≡ l
    → IsCounted st
    → After Spare IsCounted (taken st id node g name i l)
taken-Balanced st id node g name none l h e fi fl b = b
taken-Balanced st id node g name (some i) none h e fi fl b = tt
taken-Balanced st id node g name (some i) (some link) h e fi fl b =
    relinked-Balanced nothing_owed nothing_owed nothing_owed (owing link.target) st id node _ h refl
      (λ j.
        let same : group_tally j (node_group (some node)) ≡ tally j g.links =
          ap (λ k. group_tally j (node_group (some (record node { kind = k })))) e in
        omega (arith, same, tally-remove j g.links name i link fi fl))
      b

take_kind-Balanced :
    (st : FileState) (id : ℕ) (node : ObjectNode) (kind : ObjectKind) (name : Text)
    → try_get st id ≡ some node
    → node.kind ≡ kind
    → IsCounted st
    → After Spare IsCounted (take_kind st id node kind name)
take_kind-Balanced st id node (group g) name h e b =
    taken-Balanced st id node g name (find_index g.links name) (find g.links name) h e refl refl b
take_kind-Balanced st id node (dataset d) name h e b = b
take_kind-Balanced st id node named_type name h e b = b
take_kind-Balanced st id node (unsupported t) name h e b = b

take_at-Balanced :
    (st : FileState) (id : ℕ) (o : Option ObjectNode) (name : Text)
    → try_get st id ≡ o
    → IsCounted st
    → After Spare IsCounted (take_at st id o name)
take_at-Balanced st id none name h b = b
take_at-Balanced st id (some node) name h b = take_kind-Balanced st id node node.kind name h refl b

take_link-Balanced :
    (st : FileState) (id : ℕ) (name : Text)
    → IsCounted st
    → After Spare IsCounted (take_link st id name)
unfolding take_link
take_link-Balanced st id name b = take_at-Balanced st id (try_get st id) name refl b

lower_at-Counted :
    (st : FileState) (id : ℕ) (o : Option ObjectNode)
    → try_get st id ≡ o
    → Balanced nothing_owed (owing (hard id)) st
    → After Counted IsCounted (lower_at st id o)
lower_at-Counted st id none h b = tt
lower_at-Counted st id (some node) h b =
    let one = self-owing id in
    recounted-Balanced nothing_owed (owing (hard id)) nothing_owed nothing_owed st id node _ h refl
      (omega (arith, one, b.at id, ap refs h)) (λ j ne. omega (arith, other-owing id j ne)) b

release-Counted :
    (st : FileState) (t : LinkTarget)
    → Balanced nothing_owed (owing t) st
    → After Counted IsCounted (release st t)
release-Counted st (hard id) b = lower_at-Counted st id (try_get st id) refl b
release-Counted st (soft path) b = b
release-Counted st (external file path) b = b

-- `unlink` keeps the counts exact, with a result or with an error.
pub unlink-Counted :
    (st : FileState) (start : ℕ) (name : Text)
    → IsCounted st
    → After Counted IsCounted (unlink st start name)
unfolding unlink
unlink-Counted st start name b = After-if Counted IsCounted st.read_only _ _ b (
    After-bind Spare Counted IsCounted _ _ (take_link-Balanced st start name b)
      λ st' link h. release-Counted st' link.target h)

-- Where `relink` succeeds it keeps the counts exact.
pub relink-Counted :
    (depth : ℕ) (st : FileState) (start : ℕ) (name path : Text)
    → IsCounted st
    → After Counted (λ _. Unit {0}) (relink depth st start name path)
unfolding relink
relink-Counted depth st start name path b =
    After-if Counted (λ _. Unit {0}) st.read_only _ _ tt
      (After-bind Spare Counted (λ _. Unit {0}) _ _
        (After-loose Spare IsCounted _ (take_link-Balanced st start name b))
        λ st' link h.
          After-bind (λ _ s. Spare link s) Counted (λ _. Unit {0}) _ _
            (After-loose (λ _ s. Spare link s) (Spare link) _
              (locate_keeps (Spare link) st' h depth start path))
            λ st'' place k. After-loose Counted (Spare link) _ (
              push_link-Balanced nothing_owed (owing link.target) nothing_owed nothing_owed
                "target parent is not a group" st'' place.0 (record link { name = place.1 })
                (λ j. omega arith) k))
