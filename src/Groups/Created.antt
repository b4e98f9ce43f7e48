-- ===== src/Groups/Created.antt =====
-- A group that `create_group` returns is found again by its path.
use hdf5_rs.Prelude.{
  ℕ, suc, ◌≡◌, refl, sym, ap, ap₂, subst, ◌∙◌, List, [], ◌∷◌, ◌++◌, length, ==_refl, if◌then◌else◌,
  All, Option, none, some, ℕ_discrete, Bool-cases, true, false, inl, inr, Result, ok, err, panic,
  out_of_fuel, String,
}
use hdf5_rs.Arena.{
  Text, same, LinkTarget, hard, soft, external, Link, find, find_in, ObjectKind, group, dataset,
  named_type, unsupported, ObjectNode, FileState, try_get, put_node, node_group, kind_group,
  no_links, alloc, next_order, is_group, find_link,
}
use hdf5_rs.Arena.Paths.{
  resolve, first_group, split, drop_empty, drop_dots, components, walk, dot, is_absolute,
}
use hdf5_rs.Arena.Counts.{
  try_get-put_self, try_get-put_ne, try_get-alloc_self, try_get-alloc_ne, try_get-end,
}
use hdf5_rs.Groups.{
  Outcome, push_link, push_at, push_kind, bump, bump_at, touch, touch_at, add_child, enter,
  create_at, create_loop, create_group, beyond_ascii,
}
use hdf5_rs.Groups.Tally.{After, After-bind, After-if}

-- No link that was found is lost, and the root stays.
record Grows (st st' : FileState) : Type 0 where
  root : st'.root ≡ st.root
  links :
      (id : ℕ) (name : Text) (l : Link)
      → find_link st id name ≡ some l
      → find_link st' id name ≡ some l

Grows-refl : (st : FileState) → Grows st st
Grows-refl st = record { root = refl; links = λ id name l h. h }

Grows-trans : (s t u : FileState) → Grows s t → Grows t u → Grows s u
Grows-trans s t u g h = record {
  root = h.root ∙ g.root;
  links = λ id name l e. h.links id name l (g.links id name l e);
}

same_refl : (cs : Text) → same cs cs ≡ true
unfolding same
same_refl [] = refl
same_refl (c ∷ cs) = rw (==_refl c, same_refl cs) refl

find-append_old :
    (ls : List Link) (new l : Link) (name : Text)
    → find ls name ≡ some l
    → find (ls ++ (new ∷ [])) name ≡ some l
unfolding find
find-append_old [] new l name h = cc
find-append_old (k ∷ ks) new l name h = elim (Bool-cases (same k.name name)) [
  | inl b ↦ let h' : some k ≡ some l = rw b at h in rw b h'
  | inr b ↦ let h' : find ks name ≡ some l = rw b at h in rw b (find-append_old ks new l name h')
]

find-append_new :
    (ls : List Link) (new : Link)
    → find ls new.name ≡ none
    → find (ls ++ (new ∷ [])) new.name ≡ some new
unfolding find
find-append_new [] new h = rw (same_refl new.name) refl
find-append_new (k ∷ ks) new h = elim (Bool-cases (same k.name new.name)) [
  | inl b ↦ let c : some k ≡ none = rw b at h in cc
  | inr b ↦ let h' : find ks new.name ≡ none = rw b at h in rw b (find-append_new ks new h')
]

-- Storing an object whose links still find what the old ones found.
put_node-Grows :
    (st : FileState) (i : ℕ) (old new : ObjectNode)
    → try_get st i ≡ some old
    → ((name : Text) (l : Link)
        → find_in (kind_group old.kind) name ≡ some l
        → find_in (kind_group new.kind) name ≡ some l)
    → Grows st (put_node st i new)
put_node-Grows st i old new h keep = record {
  root = refl;
  links = λ id name l e. elim (ℕ_discrete i id) [
    | yes q ↦
        subst (λ k. find_link (put_node st i new) k name ≡ some l) q
          (ap (λ o. find_in (node_group o) name) (try_get-put_self st i old new h)
            ∙ keep name l (
                ap (λ o. find_in (node_group o) name) (sym h)
                ∙ subst (λ k. find_link st k name ≡ some l) (sym q) e))
    | no q ↦ ap (λ o. find_in (node_group o) name) (try_get-put_ne st i id new q) ∙ e
  ];
}

alloc-Grows : (st : FileState) → Grows st (alloc (group no_links) st).0
alloc-Grows st = record {
  root = refl;
  links = λ id name l e. elim (ℕ_discrete id (length st.objects)) [
    | yes q ↦
        let c : none ≡ some l =
          ap (λ o. find_in (node_group o) name) (sym (try_get-end st))
          ∙ subst (λ k. find_link st k name ≡ some l) q e in
        cc
    | no q ↦ ap (λ o. find_in (node_group o) name) (try_get-alloc_ne (group no_links) st id q) ∙ e
  ];
}

-- The new group has no link.
alloc_still_none :
    (st : FileState) (id : ℕ) (name : Text)
    → find_link st id name ≡ none
    → find_link (alloc (group no_links) st).0 id name ≡ none
unfolding find
alloc_still_none st id name h = elim (ℕ_discrete id (length st.objects)) [
  | yes q ↦
      subst (λ k. find_link (alloc (group no_links) st).0 k name ≡ none) (sym q)
        (ap (λ o. find_in (node_group o) name) (try_get-alloc_self (group no_links) st))
  | no q ↦ ap (λ o. find_in (node_group o) name) (try_get-alloc_ne (group no_links) st id q) ∙ h
]

abbrev Whatever : FileState → Type 0
Whatever st = Unit {0}

module _ (words : String) (st : FileState) (id : ℕ) (link : Link) where
  abbrev Pushed : Unit {0} → FileState → Type 0
  Pushed u s = Grows st s × (find_link s id link.name ≡ some link)

  push_kind-Pushed :
      (node : ObjectNode) (kind : ObjectKind)
      → try_get st id ≡ some node
      → node.kind ≡ kind
      → find_in (kind_group kind) link.name ≡ none
      → After Pushed Whatever (push_kind words st id node kind link)
  push_kind-Pushed node (group g) h e f =
      let new : ObjectNode = record node {
        kind = group (record g { links = g.links ++ (link ∷ []) });
      } in
      (
        put_node-Grows st id node new h (λ name l q.
            find-append_old g.links link l name
              (subst (λ k. find_in (kind_group k) name ≡ some l) e q)),
        ap (λ o. find_in (node_group o) link.name) (try_get-put_self st id node new h)
            ∙ find-append_new g.links link f,
      )
  push_kind-Pushed node (dataset d) h e f = tt
  push_kind-Pushed node named_type h e f = tt
  push_kind-Pushed node (unsupported t) h e f = tt

  push_at-Pushed :
      (o : Option ObjectNode)
      → try_get st id ≡ o
      → find_in (node_group o) link.name ≡ none
      → After Pushed Whatever (push_at words st id o link)
  push_at-Pushed none h f = tt
  push_at-Pushed (some node) h f = push_kind-Pushed node node.kind h refl f

  push_link-Pushed :
      find_link st id link.name ≡ none → After Pushed Whatever (push_link words st id link)
  unfolding push_link
  push_link-Pushed f = push_at-Pushed (try_get st id) refl f

bump-Grows :
    (st : FileState) (id : ℕ) (o : Option ObjectNode)
    → try_get st id ≡ o
    → After (λ _ s. Grows st s) Whatever (bump_at st id o)
bump-Grows st id none h = tt
bump-Grows st id (some node) h = put_node-Grows st id node _ h (λ name l e. e)

touch-Grows :
    (now : ℕ) (st : FileState) (id : ℕ) (o : Option ObjectNode)
    → try_get st id ≡ o
    → After (λ _ s. Grows st s) Whatever (touch_at now st id o)
touch-Grows now st id none h = tt
touch-Grows now st id (some node) h = put_node-Grows st id node _ h (λ name l e. e)

-- A hard link of that name leads to the id.
abbrev LeadsTo : FileState → ℕ → Text → ℕ → Type 0
LeadsTo s cur name id = (l : Link) × (find_link s cur name ≡ some l) × (l.target ≡ hard id)

abbrev Stepped : FileState → ℕ → Text → ℕ → FileState → Type 0
Stepped st cur name id s = Grows st s × LeadsTo s cur name id

add_child-Stepped :
    (now : ℕ) (st : FileState) (cur : ℕ) (name : Text)
    → find_link st cur name ≡ none
    → After (Stepped st cur name) Whatever (add_child now st cur name)
unfolding add_child bump touch
add_child-Stepped now st cur name h =
    let id = length st.objects in
    let link : Link = record {
      name = name;
      target = hard id;
      creation_order = st.next_creation_order;
      utf8 = beyond_ascii name;
    } in
    let ordered = (next_order (alloc (group no_links) st).0).0 in
    let a = alloc-Grows st in
    let fresh : Grows st ordered = record { root = a.root; links = a.links } in
    After-bind (Pushed "parent is not a group" ordered cur link) (Stepped st cur name) Whatever _ _
      (push_link-Pushed "parent is not a group" ordered cur link (alloc_still_none st cur name h))
      λ linked _ p.
        After-bind (λ _ s. Grows linked s) (Stepped st cur name) Whatever _ _
          (bump-Grows linked id (try_get linked id) refl)
          λ counted _ q.
            After-bind (λ _ s. Grows counted s) (Stepped st cur name) Whatever _ _
              (touch-Grows now counted id (try_get counted id) refl)
              λ s _ r.
                let later = Grows-trans linked counted s q r in
                (
                  Grows-trans st linked s (Grows-trans st ordered linked fresh p.0) later,
                  (link, later.links cur name link p.1, refl),
                )

enter-Stepped :
    (st : FileState) (cur : ℕ) (name : Text) (link : Link) (t : LinkTarget)
    → find_link st cur name ≡ some link
    → link.target ≡ t
    → After (Stepped st cur name) Whatever (enter st t)
enter-Stepped st cur name link (hard id) h e =
    After-if (Stepped st cur name) Whatever (is_group st id) (st, ok id) _
      (Grows-refl st, (link, h, e)) tt
enter-Stepped st cur name link (soft path) h e = tt
enter-Stepped st cur name link (external file path) h e = tt

create_at-Stepped :
    (now : ℕ) (st : FileState) (cur : ℕ) (name : Text) (o : Option Link)
    → find_link st cur name ≡ o
    → After (Stepped st cur name) Whatever (create_at now st cur name o)
create_at-Stepped now st cur name none h = add_child-Stepped now st cur name h
create_at-Stepped now st cur name (some link) h = enter-Stepped st cur name link link.target h refl

After-weaken :
    {A : Type 0} (P R : A → FileState → Type 0) (m : Outcome A)
    → ((a : A) (s : FileState) → P a s → R a s)
    → After P Whatever m
    → After R Whatever m
After-weaken P R (st, ok a) f h = f a st h
After-weaken P R (st, err words) f h = tt
After-weaken P R (st, panic) f h = tt
After-weaken P R (st, out_of_fuel) f h = tt

-- The names lead from `cur` to `id`, whatever soft links would do.
abbrev Walked : FileState → ℕ → List Text → ℕ → FileState → Type 0
Walked st cur names id s =
    Grows st s × ((at_root : Text → Result (Option ℕ)) → walk at_root s cur names ≡ ok (some id))

walk-cons :
    (at_root : Text → Result (Option ℕ)) (s : FileState) (cur mid id : ℕ) (name : Text)
    (names : List Text)
    → LeadsTo s cur name mid
    → walk at_root s mid names ≡ ok (some id)
    → walk at_root s cur (name ∷ names) ≡ ok (some id)
unfolding walk
walk-cons at_root s cur mid id name names (l, h, e) w = rw (h, e) w

create_loop-Walked :
    (now : ℕ) (st : FileState) (cur : ℕ) (names : List Text)
    → After (Walked st cur names) Whatever (create_loop now st cur names)
unfolding create_loop walk
create_loop-Walked now st cur [] = (Grows-refl st, λ at_root. refl)
create_loop-Walked now st cur (name ∷ names) =
    After-bind (Stepped st cur name) (Walked st cur (name ∷ names)) Whatever _ _
      (create_at-Stepped now st cur name (find_link st cur name) refl)
      λ mid_st mid p.
        After-weaken (Walked mid_st mid names) (Walked st cur (name ∷ names)) _
          (λ id s w. (
            Grows-trans st mid_st s p.0 w.0,
            λ at_root.
                walk-cons at_root s cur mid id name names
                  (p.1.0, w.0.links cur name p.1.0 p.1.1, p.1.2) (w.1 at_root),
          ))
          (create_loop-Walked now mid_st mid names)

-- A path without the component `.`, which `resolve` skips and `create_group` does not.
abbrev pub NotDot : Text → Type 0
NotDot name = same name dot ≡ false

drop_dots-NotDot : (names : List Text) → All NotDot names → drop_dots names ≡ names
unfolding drop_dots
drop_dots-NotDot [] h = refl
drop_dots-NotDot (p ∷ ps) (h, hs) = rw h (ap (◌∷◌ p) (drop_dots-NotDot ps hs))

After-ok :
    {A : Type 0} (P : A → FileState → Type 0) (m : Outcome A) (st : FileState) (a : A)
    → m ≡ (st, ok a)
    → After P Whatever m
    → P a st
After-ok P m st a e h = subst (After P Whatever) e h

-- Where `create_group` succeeds, `resolve` finds the group that it returns by the same path from
-- the same group, with no soft link followed, if no component of the path is `.`.
pub resolve-create_group :
    (now depth : ℕ) (st st' : FileState) (start id : ℕ) (name : Text)
    → All NotDot (drop_empty (split name))
    → create_group now st start name ≡ (st', ok id)
    → resolve (suc depth) st' start name ≡ ok (some id)
unfolding create_group resolve components
resolve-create_group now depth st st' start id name plain e =
    let names = drop_empty (split name) in
    let w = After-ok (Walked st (first_group st start name) names) _ st' id e (
      After-if (Walked st (first_group st start name) names) Whatever st.read_only
        (st, err "unable to create group: file is read-only") _ tt
        (create_loop-Walked now st (first_group st start name) names)) in
    ap₂ (λ from path. walk (resolve depth st' st'.root) st' from path)
      (ap (λ r. if is_absolute name then r else start) w.0.root) (drop_dots-NotDot names plain)
    ∙ w.1 (resolve depth st' st'.root)
