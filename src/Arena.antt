-- ===== src/Arena.antt =====
-- hdf5/src/model.rs: the arena of objects of an open file, the lookup of paths and the count of hard
-- links. A name or a path is the list of its bytes. Of an object, the attributes and the comment
-- are left out, and of the file the userblock and the tables of shared messages: nothing here
-- reads them. Counts of links are not bounded by the width of `u32`.
pub mod Paths
pub mod Search
pub mod Recount
pub mod Counts
mod Runs
use hdf5_rs.Prelude.{
  ℕ, zero, suc, ◌+◌, List, [], ◌∷◌, ◌++◌, length, get_elem?, get_or, set, replicate, Bool, true,
  false, ◌&&◌, ◌||◌, not, ltb, ◌==◌, if◌then◌else◌, Option, none, some, Result, ok, err, panic,
  out_of_fuel, ◌>>=◌,
}
use hdf5_rs.Extents.{Shape}

abbrev pub Text : Type 0
Text = List ℕ

-- `==` on names
unfoldable pub same : Text → Text → Bool
same [] [] = true
same [] (d ∷ ds) = false
same (c ∷ cs) [] = false
same (c ∷ cs) (d ∷ ds) = c == d && same cs ds

pub data LinkTarget : Type 0 where
  hard : ℕ → LinkTarget
  soft : Text → LinkTarget
  external : (file path : Text) → LinkTarget

pub record Link : Type 0 where
  pub name : Text
  pub target : LinkTarget
  pub creation_order : ℕ
  pub utf8 : Bool

pub record GroupData : Type 0 where
  pub links : List Link
  pub track_order : Bool

-- `GroupData::find` and `find_index`
unfoldable pub find : List Link → Text → Option Link
unfolding same
find [] name = none
find (l ∷ ls) name = if same l.name name then some l else find ls name

unfoldable pub find_index : List Link → Text → Option ℕ
unfolding same
find_index [] name = none
find_index (l ∷ ls) name =
    if same l.name name
    then some 0
    else (elim (find_index ls name) as (λ _. Option ℕ) [ none ↦ none | some i ↦ some (suc i) ])

-- The descriptor of a named type is left out.
pub data ObjectKind : Type 0 where
  group : GroupData → ObjectKind
  dataset : Shape → ObjectKind
  named_type : ObjectKind
  unsupported : Text → ObjectKind

pub record ObjectNode : Type 0 where
  pub kind : ObjectKind
  pub refcount : ℕ
  pub mtime : ℕ

abbrev pub new_node : ObjectKind → ObjectNode
new_node kind = record { kind = kind; refcount = 0; mtime = 0 }

pub record FileState : Type 0 where
  pub objects : List (Option ObjectNode)
  pub root : ℕ
  pub read_only : Bool
  pub next_creation_order : ℕ

abbrev pub no_links : GroupData
no_links = record { links = []; track_order = false }

abbrev pub new_empty : FileState
new_empty = record {
  objects = some (record { kind = group no_links; refcount = 1; mtime = 0 }) ∷ [];
  root = 0;
  read_only = false;
  next_creation_order = 0;
}

abbrev pub flatten : Option (Option ObjectNode) → Option ObjectNode
flatten none = none
flatten (some o) = o

abbrev pub try_get : FileState → ℕ → Option ObjectNode
try_get st id = flatten (get_elem? st.objects id)

abbrev pub put_node : FileState → ℕ → ObjectNode → FileState
put_node st id node = record st { objects = set st.objects id (some node) }

-- `alloc`: the new state and the id.
abbrev pub alloc : ObjectKind → FileState → FileState × ℕ
alloc kind st =
    (record st { objects = st.objects ++ (some (new_node kind) ∷ []) }, length st.objects)

abbrev pub next_order : FileState → FileState × ℕ
next_order st =
    (record st { next_creation_order = st.next_creation_order + 1 }, st.next_creation_order)

abbrev pub node_is_group : Option ObjectNode → Bool
node_is_group none = false
node_is_group (some n) = elim n.kind [
  | group g ↦ true
  | dataset d ↦ false
  | named_type ↦ false
  | unsupported t ↦ false
]

abbrev pub is_group : FileState → ℕ → Bool
is_group st id = node_is_group (try_get st id)

abbrev pub kind_group : ObjectKind → Option GroupData
kind_group (group g) = some g
kind_group (dataset d) = none
kind_group named_type = none
kind_group (unsupported t) = none

abbrev pub node_group : Option ObjectNode → Option GroupData
node_group none = none
node_group (some n) = kind_group n.kind

abbrev pub group_data : FileState → ℕ → Option GroupData
group_data st id = node_group (try_get st id)

-- `group_data(id).and_then(|g| g.find(name))`
abbrev pub find_in : Option GroupData → Text → Option Link
find_in none name = none
find_in (some g) name = find g.links name

abbrev pub find_link : FileState → ℕ → Text → Option Link
find_link st id name = find_in (group_data st id) name
