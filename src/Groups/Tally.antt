-- ===== src/Groups/Tally.antt =====
-- The operations of a group keep the counts of hard links exact.
pub mod Removed
use hdf5_rs.Prelude.{
  ℕ, zero, suc, ◌+◌, ◌-◌, ◌≡◌, ◌≢◌, refl, sym, ap, subst, ◌∙◌, arith, List, [], ◌∷◌, ◌++◌, length,
  ◌==◌, ==_iff, ==_refl, if◌then◌else◌, Option, none, some, Bool, Bool-cases, Option-cases, true,
  false, inl, inr, Result, ok, err, panic, out_of_fuel, String,
}
use hdf5_rs.Arena.{
  Text, LinkTarget, hard, soft, external, Link, GroupData, ObjectKind, group, dataset, named_type,
  unsupported, ObjectNode, new_node, FileState, try_get, put_node, node_group, no_links, alloc,
  next_order, is_group, find_link,
}
use hdf5_rs.Arena.Paths.{resolve, first_group, split, drop_empty}
use hdf5_rs.Arena.Counts.{
  points_to, tally, group_tally, Balanced, nothing_owed, IsCounted, tally-append, alloc-Balanced,
  relinked-Balanced, recounted-Balanced,
}
use hdf5_rs.Groups.{
  Outcome, ◌>=>◌, push_link, push_at, push_kind, bump, bump_at, touch, touch_at, add_child, enter,
  create_at, create_loop, create_group, found_parent, parent_of, locate, dir_or_root, rsplit,
  insert_new, add_link, hard_target, link_hard, link_soft, link_external, beyond_ascii,
}

-- What holds of the state where the operation returns: by its result `P`, with an error `Q`. A
-- panic or a lack of fuel returns no state.
abbrev pub After :
    {A : Type 0} → (A → FileState → Type 0) → (FileState → Type 0) → Outcome A → Type 0
After P Q (st, ok a) = P a st
After P Q (st, err words) = Q st
After P Q (st, panic) = Unit {0}
After P Q (st, out_of_fuel) = Unit {0}

pub After-bind :
    {A B : Type 0} (P : A → FileState → Type 0) (R : B → FileState → Type 0)
    (Q : FileState → Type 0) (m : Outcome A) (f : FileState → A → Outcome B)
    → After P Q m
    → ((st : FileState) (a : A) → P a st → After R Q (f st a))
    → After R Q (m >=> f)
After-bind P R Q (st, ok a) f h k = k st a h
After-bind P R Q (st, err words) f h k = h
After-bind P R Q (st, panic) f h k = tt
After-bind P R Q (st, out_of_fuel) f h k = tt

pub After-if :
    {A : Type 0} (P : A → FileState → Type 0) (Q : FileState → Type 0) (b : Bool) (m n : Outcome A)
    → After P Q m
    → After P Q n
    → After P Q (if b then m else n)
After-if P Q true m n h k = h
After-if P Q false m n h k = k

-- The links to `id` that a target is.
abbrev pub owing : LinkTarget → ℕ → ℕ
owing t id = points_to id t

abbrev pub Counted : {A : Type 0} → A → FileState → Type 0
Counted a st = IsCounted st

-- A pushed link is owed to its target, or was to spare there.
module _ (owed spare owed' spare' : ℕ → ℕ) (words : String) (st : FileState) (id : ℕ) (link : Link)
    (paid : (j : ℕ) → owed' j + spare j ≡ owed j + owing link.target j + spare' j)
    (b : Balanced owed spare st) where
  push_kind-Balanced :
      (node : ObjectNode) (kind : ObjectKind)
      → try_get st id ≡ some node
      → node.kind ≡ kind
      → After
          (λ _ s. Balanced owed' spare' s)
          (Balanced owed spare)
          (push_kind words st id node kind link)
  push_kind-Balanced node (group g) h e =
      relinked-Balanced owed spare owed' spare' st id node _ h refl
        (λ j.
          let same : group_tally j (node_group (some node)) ≡ tally j g.links =
            ap (λ k. group_tally j (node_group (some (record node { kind = k })))) e in
          omega (arith, same, paid j, tally-append j g.links link))
        b
  push_kind-Balanced node (dataset d) h e = b
  push_kind-Balanced node named_type h e = b
  push_kind-Balanced node (unsupported t) h e = b

  push_at-Balanced :
      (o : Option ObjectNode)
      → try_get st id ≡ o
      → After (λ _ s. Balanced owed' spare' s) (Balanced owed spare) (push_at words st id o link)
  push_at-Balanced none h = tt
  push_at-Balanced (some node) h = push_kind-Balanced node node.kind h refl

  pub push_link-Balanced :
      After (λ _ s. Balanced owed' spare' s) (Balanced owed spare) (push_link words st id link)
  unfolding push_link
  push_link-Balanced = push_at-Balanced (try_get st id) refl

pub other-owing : (id j : ℕ) → id ≢ j → owing (hard id) j ≡ 0
other-owing id j h = ground (arith, ==_iff id j)

pub self-owing : (id : ℕ) → owing (hard id) id ≡ 1
self-owing id = rw (==_refl id) refl

-- Raising the count pays for the link.
bump_at-Counted :
    (st : FileState) (id : ℕ) (o : Option ObjectNode)
    → try_get st id ≡ o
    → Balanced (owing (hard id)) nothing_owed st
    → After Counted IsCounted (bump_at st id o)
bump_at-Counted st id none h b = tt
bump_at-Counted st id (some node) h b =
    recounted-Balanced (owing (hard id)) nothing_owed nothing_owed nothing_owed st id node _ h refl
      (omega (arith, self-owing id)) (λ j ne. omega (arith, other-owing id j ne)) b

pub bump-Counted :
    (st : FileState) (id : ℕ)
    → Balanced (owing (hard id)) nothing_owed st
    → After Counted IsCounted (bump st id)
unfolding bump
bump-Counted st id b = bump_at-Counted st id (try_get st id) refl b

touch_at-Counted :
    (now : ℕ) (st : FileState) (id : ℕ) (o : Option ObjectNode)
    → try_get st id ≡ o
    → IsCounted st
    → After Counted IsCounted (touch_at now st id o)
touch_at-Counted now st id none h b = tt
touch_at-Counted now st id (some node) h b =
    recounted-Balanced nothing_owed nothing_owed nothing_owed nothing_owed st id node _ h refl refl
      (λ j ne. refl) b

add_child-Counted :
    (now : ℕ) (st : FileState) (cur : ℕ) (name : Text)
    → IsCounted st
    → After Counted IsCounted (add_child now st cur name)
unfolding add_child touch
add_child-Counted now st cur name b =
    let id = length st.objects in
    let link : Link = record {
      name = name;
      target = hard id;
      creation_order = st.next_creation_order;
      utf8 = beyond_ascii name;
    } in
    let ordered = (next_order (alloc (group no_links) st).0).0 in
    let fresh : IsCounted ordered = record {
      at = (alloc-Balanced nothing_owed nothing_owed st b).at;
    } in
    After-bind (λ _ s. Balanced (owing (hard id)) nothing_owed s) Counted IsCounted _ _
      (push_link-Balanced nothing_owed nothing_owed (owing (hard id)) nothing_owed
        "parent is not a group" ordered cur link (λ j. omega arith) fresh)
      λ linked _ h.
        After-bind Counted Counted IsCounted _ _ (bump-Counted linked id h) λ counted _ k.
          After-bind Counted Counted IsCounted _ _
            (touch_at-Counted now counted id (try_get counted id) refl k) λ s _ q. q

enter-Counted :
    (st : FileState) (t : LinkTarget) → IsCounted st → After Counted IsCounted (enter st t)
enter-Counted st (hard id) b = elim (Bool-cases (is_group st id)) [
  | inl e ↦ rw e b
  | inr e ↦ rw e b
]
enter-Counted st (soft path) b = b
enter-Counted st (external file path) b = b

create_at-Counted :
    (now : ℕ) (st : FileState) (cur : ℕ) (name : Text) (o : Option Link)
    → IsCounted st
    → After Counted IsCounted (create_at now st cur name o)
create_at-Counted now st cur name none b = add_child-Counted now st cur name b
create_at-Counted now st cur name (some link) b = enter-Counted st link.target b

create_loop-Counted :
    (now : ℕ) (st : FileState) (cur : ℕ) (names : List Text)
    → IsCounted st
    → After Counted IsCounted (create_loop now st cur names)
unfolding create_loop
create_loop-Counted now st cur [] b = b
create_loop-Counted now st cur (name ∷ names) b =
    After-bind Counted Counted IsCounted _ _
      (create_at-Counted now st cur name (find_link st cur name) b)
      (λ st' id h. create_loop-Counted now st' id names h)

-- `create_group` keeps the counts exact, with a result or with an error.
pub create_group-Counted :
    (now : ℕ) (st : FileState) (start : ℕ) (name : Text)
    → IsCounted st
    → After Counted IsCounted (create_group now st start name)
unfolding create_group
create_group-Counted now st start name b =
    After-if Counted IsCounted st.read_only _ _ b
      (create_loop-Counted now st (first_group st start name) (drop_empty (split name)) b)

-- Looking a place up changes nothing.
module _ (P : FileState → Type 0) (st : FileState) (p : P st) where
  found_parent_keeps :
      (leaf : Text) (r : Result (Option ℕ)) → After (λ _ s. P s) P (found_parent st leaf r)
  found_parent_keeps leaf (ok none) = p
  found_parent_keeps leaf (ok (some id)) = p
  found_parent_keeps leaf (err words) = p
  found_parent_keeps leaf panic = tt
  found_parent_keeps leaf out_of_fuel = tt

  parent_of_keeps :
      (depth start : ℕ) (name : Text) (parts : Option (Text × Text))
      → After (λ _ s. P s) P (parent_of depth st start name parts)
  parent_of_keeps depth start name none = p
  parent_of_keeps depth start name (some (dir, leaf)) =
      found_parent_keeps leaf (resolve depth st start (dir_or_root dir))

  pub locate_keeps :
      (depth start : ℕ) (name : Text) → After (λ _ s. P s) P (locate depth st start name)
  unfolding locate
  locate_keeps depth start name = parent_of_keeps depth start name (rsplit name)

abbrev Owed : LinkTarget → Unit {0} → FileState → Type 0
Owed target u st = Balanced (owing target) nothing_owed st

insert_new-Balanced :
    (st : FileState) (parent : ℕ) (leaf : Text) (target : LinkTarget) (o : Option Link)
    → IsCounted st
    → After (Owed target) IsCounted (insert_new st parent leaf target o)
insert_new-Balanced st parent leaf target (some link) b = b
insert_new-Balanced st parent leaf target none b =
    push_link-Balanced nothing_owed nothing_owed (owing target) nothing_owed "parent is not a group"
      (next_order st).0 parent
      (record {
        name = leaf;
        target = target;
        creation_order = st.next_creation_order;
        utf8 = beyond_ascii leaf;
      })
      (λ j. omega arith) (record { at = b.at })

-- A link that is added is owed to its target.
add_link-Balanced :
    (depth : ℕ) (st : FileState) (start : ℕ) (name : Text) (target : LinkTarget)
    → IsCounted st
    → After (Owed target) IsCounted (add_link depth st start name target)
unfolding add_link
add_link-Balanced depth st start name target b =
    After-if (Owed target) IsCounted st.read_only _ _ b (
      After-bind Counted (Owed target) IsCounted _ _ (locate_keeps IsCounted st b depth start name)
        λ st' place h.
          insert_new-Balanced st' place.0 place.1 target (find_link st' place.0 place.1) h)

-- `link_soft` and `link_external` keep the counts exact: they owe nothing.
pub link_soft-Counted :
    (depth : ℕ) (st : FileState) (start : ℕ) (target name : Text)
    → IsCounted st
    → After Counted IsCounted (link_soft depth st start target name)
unfolding link_soft
link_soft-Counted depth st start target name b =
    add_link-Balanced depth st start name (soft target) b

hard_target-Counted :
    (st : FileState) (r : Result (Option ℕ))
    → IsCounted st
    → After Counted IsCounted (hard_target st r)
hard_target-Counted st (ok none) b = b
hard_target-Counted st (ok (some id)) b = b
hard_target-Counted st (err words) b = b
hard_target-Counted st panic b = tt
hard_target-Counted st out_of_fuel b = tt

-- `link_hard` keeps the counts exact, with a result or with an error.
pub link_hard-Counted :
    (depth : ℕ) (st : FileState) (start : ℕ) (target name : Text)
    → IsCounted st
    → After Counted IsCounted (link_hard depth st start target name)
unfolding link_hard
link_hard-Counted depth st start target name b =
    After-bind Counted Counted IsCounted _ _
      (hard_target-Counted st (resolve depth st start target) b)
      λ st' id h.
        After-bind (Owed (hard id)) Counted IsCounted _ _
          (add_link-Balanced depth st' start name (hard id) h)
          λ linked _ k. bump-Counted linked id k
