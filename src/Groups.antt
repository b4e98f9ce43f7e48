-- ===== src/Groups.antt =====
-- hdf5/src/hl/group.rs: the operations of a group that change the arena. Each takes the state and
-- returns the new one with its result, since an error may come after a change. The handle of a
-- group is the id of its object; a handle with no file, which the source refuses first, has no
-- state to work on. `now` is the time that a new group gets.
pub mod Removal
pub mod Tally
pub mod Created
mod Runs
use hdf5_rs.Prelude.{
  ℕ, zero, suc, ◌+◌, ◌-◌, List, [], ◌∷◌, ◌++◌, length, get_elem?, Bool, true, false, if◌then◌else◌,
  all, ltb, ◌==◌, Option, none, some, Result, ok, err, panic, out_of_fuel, String,
}
use hdf5_rs.Arena.{
  Text, same, LinkTarget, hard, soft, external, Link, GroupData, find, find_index, ObjectKind,
  group, dataset, named_type, unsupported, ObjectNode, FileState, try_get, is_group, group_data,
  find_link, put_node, alloc, next_order, no_links,
}
use hdf5_rs.Arena.Paths.{slash, split, drop_empty, is_empty, resolve, first_group}

-- A state and a result.
abbrev pub Outcome : Type 0 → Type 0
Outcome A = FileState × Result A

infixl 5 ◌>=>◌
abbrev pub ◌>=>◌ : {A B : Type 0} → Outcome A → (FileState → A → Outcome B) → Outcome B
(st, ok a) >=> next = next st a
(st, err words) >=> next = (st, err words)
(st, panic) >=> next = (st, panic)
(st, out_of_fuel) >=> next = (st, out_of_fuel)

-- `!name.is_ascii()`
abbrev pub beyond_ascii : Text → Bool
beyond_ascii [] = false
beyond_ascii (c ∷ cs) = if ltb c 128 then beyond_ascii cs else true

-- `match &mut state.get_mut(id).kind { Group(g) => g.links.push(link), _ => Err(words) }`
abbrev pub push_kind : String → FileState → ℕ → ObjectNode → ObjectKind → Link → Outcome (Unit {0})
push_kind words st id node (group g) link = (
  put_node st id (record node { kind = group (record g { links = g.links ++ (link ∷ []) }) }),
  ok tt,
)
push_kind words st id node (dataset d) link = (st, err words)
push_kind words st id node named_type link = (st, err words)
push_kind words st id node (unsupported t) link = (st, err words)

abbrev pub push_at : String → FileState → ℕ → Option ObjectNode → Link → Outcome (Unit {0})
push_at words st id none link = (st, panic)
push_at words st id (some node) link = push_kind words st id node node.kind link

unfoldable pub push_link : String → FileState → ℕ → Link → Outcome (Unit {0})
push_link words st id link = push_at words st id (try_get st id) link

-- `get_mut(id).refcount += 1`
abbrev pub bump_at : FileState → ℕ → Option ObjectNode → Outcome (Unit {0})
bump_at st id none = (st, panic)
bump_at st id (some node) = (put_node st id (record node { refcount = node.refcount + 1 }), ok tt)

unfoldable pub bump : FileState → ℕ → Outcome (Unit {0})
bump st id = bump_at st id (try_get st id)

-- `get_mut(id).mtime = now()`
abbrev pub touch_at : ℕ → FileState → ℕ → Option ObjectNode → Outcome (Unit {0})
touch_at now st id none = (st, panic)
touch_at now st id (some node) = (put_node st id (record node { mtime = now }), ok tt)

unfoldable pub touch : ℕ → FileState → ℕ → Outcome (Unit {0})
touch now st id = touch_at now st id (try_get st id)

-- One component of `create_group` where no link has its name.
unfoldable pub add_child : ℕ → FileState → ℕ → Text → Outcome ℕ
unfolding push_link bump touch
add_child now st cur name =
    let (allocated, id) = alloc (group no_links) st in
    let (ordered, order) = next_order allocated in
    let link : Link = record {
      name = name;
      target = hard id;
      creation_order = order;
      utf8 = beyond_ascii name;
    } in
    push_link "parent is not a group" ordered cur link >=> λ linked _.
    bump linked id >=> λ counted _. touch now counted id >=> λ touched _. (touched, ok id)

-- … and where there is one.
abbrev pub enter : FileState → LinkTarget → Outcome ℕ
enter st (hard id) =
    if is_group st id then (st, ok id) else (st, err "unable to create group at component")
enter st (soft path) = (st, err "unable to create group at component")
enter st (external file path) = (st, err "unable to create group at component")

abbrev pub create_at : ℕ → FileState → ℕ → Text → Option Link → Outcome ℕ
create_at now st cur name none = add_child now st cur name
create_at now st cur name (some link) = enter st link.target

-- The loop over the components: `cur` and `created` are always the same.
unfoldable pub create_loop : ℕ → FileState → ℕ → List Text → Outcome ℕ
unfolding add_child
create_loop now st cur [] = (st, ok cur)
create_loop now st cur (name ∷ names) =
    create_at now st cur name (find_link st cur name) >=> λ st' id. create_loop now st' id names

unfoldable pub create_group : ℕ → FileState → ℕ → Text → Outcome ℕ
unfolding create_loop
create_group now st start name =
    if st.read_only
    then (st, err "unable to create group: file is read-only")
    else create_loop now st (first_group st start name) (drop_empty (split name))

-- `rfind('/')` and `split_at`: what stands before and behind the last slash.
abbrev pub put_front : ℕ → Option (Text × Text) → Option (Text × Text)
put_front c (some (dir, leaf)) = some (c ∷ dir, leaf)
put_front c none = none

abbrev pub or_here : ℕ → Text → Option (Text × Text) → Option (Text × Text)
or_here c cs (some parts) = put_front c (some parts)
or_here c cs none = if c == slash then some ([], cs) else none

unfoldable pub rsplit : Text → Option (Text × Text)
rsplit [] = none
rsplit (c ∷ cs) = or_here c cs (rsplit cs)

-- `if dir.is_empty() { "/" } else { dir }`
abbrev pub dir_or_root : Text → Text
dir_or_root dir = if is_empty dir then slash ∷ [] else dir

abbrev pub found_parent : FileState → Text → Result (Option ℕ) → Outcome (ℕ × Text)
found_parent st leaf (ok none) = (st, err "parent group not found")
found_parent st leaf (ok (some id)) = (st, ok (id, leaf))
found_parent st leaf (err words) = (st, err words)
found_parent st leaf panic = (st, panic)
found_parent st leaf out_of_fuel = (st, out_of_fuel)

abbrev pub parent_of : ℕ → FileState → ℕ → Text → Option (Text × Text) → Outcome (ℕ × Text)
parent_of depth st start name none = (st, ok (start, name))
parent_of depth st start name (some (dir, leaf)) =
    found_parent st leaf (resolve depth st start (dir_or_root dir))

-- The group that a link's name stands in, and the last part of the name.
unfoldable pub locate : ℕ → FileState → ℕ → Text → Outcome (ℕ × Text)
unfolding rsplit
locate depth st start name = parent_of depth st start name (rsplit name)

abbrev pub insert_new : FileState → ℕ → Text → LinkTarget → Option Link → Outcome (Unit {0})
insert_new st parent leaf target (some link) = (st, err "link already exists")
insert_new st parent leaf target none =
    let (ordered, order) = next_order st in
    push_link "parent is not a group" ordered parent
      (record { name = leaf; target = target; creation_order = order; utf8 = beyond_ascii leaf })

-- `add_link`; the targets of its callers need no state.
unfoldable pub add_link : ℕ → FileState → ℕ → Text → LinkTarget → Outcome (Unit {0})
unfolding locate push_link
add_link depth st start name target =
    if st.read_only
    then (st, err "unable to modify links: file is read-only")
    else (locate depth st start name >=> λ st' place.
        insert_new st' place.0 place.1 target (find_link st' place.0 place.1))

unfoldable pub link_soft : ℕ → FileState → ℕ → (target name : Text) → Outcome (Unit {0})
unfolding add_link
link_soft depth st start target name = add_link depth st start name (soft target)

unfoldable pub link_external : ℕ → FileState → ℕ → (file target name : Text) → Outcome (Unit {0})
unfolding add_link
link_external depth st start file target name = add_link depth st start name (external file target)

abbrev pub hard_target : FileState → Result (Option ℕ) → Outcome ℕ
hard_target st (ok none) = (st, err "target not found")
hard_target st (ok (some id)) = (st, ok id)
hard_target st (err words) = (st, err words)
hard_target st panic = (st, panic)
hard_target st out_of_fuel = (st, out_of_fuel)

unfoldable pub link_hard : ℕ → FileState → ℕ → (target name : Text) → Outcome (Unit {0})
unfolding add_link bump
link_hard depth st start target name = hard_target st (resolve depth st start target) >=> λ st' id.
    add_link depth st' start name (hard id) >=> λ linked _. bump linked id
