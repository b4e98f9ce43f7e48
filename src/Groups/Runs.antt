-- ===== src/Groups/Runs.antt =====
-- Runs of the operations of a group, from a new file.
use hdf5_rs.Prelude.{
  ℕ, zero, suc, ◌+◌, ◌≡◌, refl, ==_iff, arith, [], ◌∷◌, true, none, some, ok, All,
}
use hdf5_rs.Arena.{Text, same, FileState, new_empty, find, find_index, find_link, try_get}
use hdf5_rs.Arena.Paths.{resolve, components, split, drop_empty, drop_dots, walk}
use hdf5_rs.Arena.Counts.{IsCounted, refs, total, root_ref, nothing_owed}
use hdf5_rs.Groups.{
  create_group, create_loop, add_child, push_link, bump, touch, link_hard, locate, rsplit,
}
use hdf5_rs.Groups.Removal.{unlink, relink, take_link, link_exists}
use hdf5_rs.Groups.Tally.{After, Counted, create_group-Counted, link_hard-Counted}
use hdf5_rs.Groups.Tally.Removed.{unlink-Counted, relink-Counted}
use hdf5_rs.Groups.Created.{resolve-create_group, NotDot}

new_empty_at :
    (id : ℕ)
    → refs (try_get new_empty id) + nothing_owed id
      ≡ total id new_empty.objects + root_ref new_empty id + nothing_owed id
new_empty_at zero = refl
new_empty_at (suc id) = grind (==_iff, arith)

new_empty-IsCounted : IsCounted new_empty
new_empty-IsCounted = record { at = new_empty_at }

abbrev name_a : Text
name_a = b'a' ∷ []

abbrev name_c : Text
name_c = b'c' ∷ []

abbrev path_a_b : Text
path_a_b = b'a' ∷ b'/' ∷ b'b' ∷ []

abbrev with_groups : FileState
with_groups = (create_group 5 new_empty 0 path_a_b).0

create_group_twice : (create_group 5 with_groups 0 path_a_b).1 ≡ ok 2
unfolding create_group create_loop add_child push_link bump touch split drop_empty same find
create_group_twice = refl

link_exists_nested : link_exists 1 with_groups 0 path_a_b ≡ ok true
unfolding link_exists rsplit resolve components walk drop_dots create_group create_loop add_child
    push_link bump touch split drop_empty same find
link_exists_nested = refl

-- A destination that is missing loses the link: the error comes after the change.
relink_missing :
    find_link (relink 1 with_groups 0 name_a (b'x' ∷ b'/' ∷ b'y' ∷ [])).0 0 name_a ≡ none
unfolding relink take_link locate rsplit resolve components walk drop_dots create_group create_loop
    add_child push_link bump touch split drop_empty same find find_index
relink_missing = refl

-- A component `.` is a name for `create_group`, and no component for `resolve`.
create_group_dot : (create_group 5 new_empty 0 (b'.' ∷ b'/' ∷ name_a)).1 ≡ ok 2
unfolding create_group create_loop add_child push_link bump touch split drop_empty same find
create_group_dot = refl

resolve_dot :
    resolve 1 (create_group 5 new_empty 0 (b'.' ∷ b'/' ∷ name_a)).0 0 (b'.' ∷ b'/' ∷ name_a)
    ≡ ok none
unfolding resolve components walk drop_dots create_group create_loop add_child push_link bump touch
    split drop_empty same find
resolve_dot = refl

with_groups-IsCounted : IsCounted with_groups
unfolding create_group create_loop add_child push_link bump touch split drop_empty same find
with_groups-IsCounted = create_group-Counted 5 new_empty 0 path_a_b new_empty-IsCounted

create_group-Counted_example : After Counted IsCounted (create_group 5 new_empty 0 path_a_b)
create_group-Counted_example = create_group-Counted 5 new_empty 0 path_a_b new_empty-IsCounted

link_hard-Counted_example : After Counted IsCounted (link_hard 1 with_groups 0 path_a_b name_c)
link_hard-Counted_example = link_hard-Counted 1 with_groups 0 path_a_b name_c with_groups-IsCounted

unlink-Counted_example : After Counted IsCounted (unlink with_groups 0 name_a)
unlink-Counted_example = unlink-Counted with_groups 0 name_a with_groups-IsCounted

relink-Counted_example : After Counted (λ _. Unit {0}) (relink 1 with_groups 0 name_a name_c)
relink-Counted_example = relink-Counted 1 with_groups 0 name_a name_c with_groups-IsCounted

path_a_b-NotDot : All NotDot (drop_empty (split path_a_b))
unfolding split drop_empty same
path_a_b-NotDot = (refl, (refl, tt))

created : create_group 5 new_empty 0 path_a_b ≡ (with_groups, ok 2)
unfolding create_group create_loop add_child push_link bump touch split drop_empty same find
created = refl

resolve-create_group_example : resolve 1 with_groups 0 path_a_b ≡ ok (some 2)
resolve-create_group_example =
    resolve-create_group 5 0 new_empty with_groups 0 2 path_a_b path_a_b-NotDot created
