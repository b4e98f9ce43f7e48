-- ===== src/Arena/Runs.antt =====
-- Runs of the arena: a file with a group `a` that holds a group `b`, whose link `up` leads back.
use hdf5_rs.Prelude.{
  ℕ, zero, suc, ◌≡◌, refl, subst, ◌==◌, arith, List, [], ◌∷◌, false, Option, none, some, some_inj,
  ok, All, Answers, ==_iff,
}
use hdf5_rs.Arena.{
  Text, same, LinkTarget, hard, soft, external, Link, GroupData, group, ObjectNode, FileState,
  try_get, find,
}
use hdf5_rs.Arena.Paths.{resolve, components, slash, split, drop_empty, drop_dots, walk}
use hdf5_rs.Arena.Paths.Split.{IsName}
use hdf5_rs.Arena.Search.{
  path_of, search_loop, scan_group, scan_links, scan_target, enqueue, contains,
}
use hdf5_rs.Arena.Search.Sound.{HasNames, resolve-path_of}
use hdf5_rs.Arena.Search.Ends.{path_of-Answers}
use hdf5_rs.Arena.Recount.{recount}
use hdf5_rs.Arena.Counts.{total, IsCounted}
use hdf5_rs.Arena.Recount.Laws.{recount-IsCounted}

abbrev link_to : Text → LinkTarget → Link
link_to name target = record { name = name; target = target; creation_order = 0; utf8 = false }

abbrev group_of : List Link → ℕ → Option ObjectNode
group_of links count = some (record {
  kind = group (record { links = links; track_order = false });
  refcount = count;
  mtime = 0;
})

abbrev name_a : Text
name_a = b'a' ∷ []

abbrev name_b : Text
name_b = b'b' ∷ []

-- The counts are wrong on purpose.
abbrev ring : FileState
ring = record {
  objects =
      group_of (link_to name_a (hard 1) ∷ link_to name_b (soft (b'/' ∷ b'a' ∷ b'/' ∷ name_b)) ∷ [])
        7
      ∷ group_of (link_to name_b (hard 2) ∷ []) 0
      ∷ group_of (link_to name_a (hard 1) ∷ link_to name_b (external [] []) ∷ []) 0
      ∷ [];
  root = 0;
  read_only = false;
  next_creation_order = 0;
}

abbrev path_a_b : Text
path_a_b = b'/' ∷ b'a' ∷ b'/' ∷ b'b' ∷ []

resolve_soft : resolve 2 ring 1 (b'/' ∷ b'.' ∷ b'/' ∷ b'/' ∷ name_b) ≡ ok (some 2)
unfolding resolve components split drop_empty drop_dots walk same find
resolve_soft = refl

resolve_external : resolve 2 ring 2 name_b ≡ ok none
unfolding resolve components split drop_empty drop_dots walk same find
resolve_external = refl

path_of_nested : path_of ring 2 ≡ ok (some path_a_b)
unfolding path_of search_loop scan_group scan_links scan_target enqueue contains
path_of_nested = refl

path_of_missing : path_of ring 3 ≡ ok none
unfolding path_of search_loop scan_group scan_links scan_target enqueue contains
path_of_missing = refl

abbrev Named : GroupData → Type 0
Named g = All (λ (l : Link). (find g.links l.name ≡ some l) × IsName l.name) g.links

one_letter : (c : ℕ) → (c == slash) ≡ false → (c == b'.') ≡ false → IsName (c ∷ [])
unfolding same
one_letter c h k = record { full = refl; plain = rw k refl; whole = (h, tt) }

ring-HasNames : HasNames ring
unfolding find same
ring-HasNames zero g h =
    subst Named (some_inj h)
      ((refl, one_letter b'a' refl refl), ((refl, one_letter b'b' refl refl), tt))
ring-HasNames (suc zero) g h = subst Named (some_inj h) ((refl, one_letter b'b' refl refl), tt)
ring-HasNames (suc (suc zero)) g h =
    subst Named (some_inj h)
      ((refl, one_letter b'a' refl refl), ((refl, one_letter b'b' refl refl), tt))
ring-HasNames (suc (suc (suc id))) g h = cc

ring-closed : (id : ℕ) → try_get ring id ≡ none → total id ring.objects ≡ 0
ring-closed zero h = refl
ring-closed (suc zero) h = cc
ring-closed (suc (suc zero)) h = cc
ring-closed (suc (suc (suc id))) h = grind (==_iff, arith)

resolve-path_of_example : resolve 1 ring 2 path_a_b ≡ ok (some 2)
resolve-path_of_example = resolve-path_of 0 ring 2 2 path_a_b ring-HasNames path_of_nested

path_of-Answers_example : Answers (path_of ring 3)
path_of-Answers_example = path_of-Answers ring 3

recount-IsCounted_example : (st' : FileState) × (recount ring ≡ ok st') × IsCounted st'
recount-IsCounted_example = recount-IsCounted ring _ refl ring-closed
