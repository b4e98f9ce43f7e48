-- ===== src/Groups/Removal.antt =====
-- The operations of a group that take a link away: `unlink` and `relink`, and `link_exists`.
use hdf5_rs.Prelude.{
  ℕ, zero, suc, ◌-◌, List, [], ◌∷◌, Bool, true, false, if◌then◌else◌, Option, none, some, Result,
  ok, err, panic, ◌>>=◌,
}
use hdf5_rs.Arena.{
  Text, LinkTarget, hard, soft, external, Link, GroupData, find, find_index, ObjectKind, group,
  dataset, named_type, unsupported, ObjectNode, FileState, try_get, find_link, put_node,
}
use hdf5_rs.Arena.Paths.{resolve}
use hdf5_rs.Groups.{Outcome, ◌>=>◌, push_link, locate, rsplit, dir_or_root}

-- `Vec::remove`, for an index of the list
abbrev pub remove : List Link → ℕ → List Link
remove [] i = []
remove (l ∷ ls) zero = ls
remove (l ∷ ls) (suc i) = l ∷ remove ls i

-- `g.links.remove(idx)`, with the link that was there
abbrev pub taken :
    FileState → ℕ → ObjectNode → GroupData → Text → Option ℕ → Option Link → Outcome Link
taken st id node g name (some i) (some link) =
    (put_node st id (record node { kind = group (record g { links = remove g.links i }) }), ok link)
taken st id node g name (some i) none = (st, panic)
taken st id node g name none link = (st, err "link not found")

abbrev pub take_kind : FileState → ℕ → ObjectNode → ObjectKind → Text → Outcome Link
take_kind st id node (group g) name =
    taken st id node g name (find_index g.links name) (find g.links name)
take_kind st id node (dataset d) name = (st, err "link not found")
take_kind st id node named_type name = (st, err "link not found")
take_kind st id node (unsupported t) name = (st, err "link not found")

abbrev pub take_at : FileState → ℕ → Option ObjectNode → Text → Outcome Link
take_at st id none name = (st, err "link not found")
take_at st id (some node) name = take_kind st id node node.kind name

-- `find_index` in the group and the removal of the link at that index.
unfoldable pub take_link : FileState → ℕ → Text → Outcome Link
take_link st id name = take_at st id (try_get st id) name

-- `refcount.saturating_sub(1)` at the target of a hard link
abbrev pub lower_at : FileState → ℕ → Option ObjectNode → Outcome (Unit {0})
lower_at st id none = (st, panic)
lower_at st id (some node) = (put_node st id (record node { refcount = node.refcount - 1 }), ok tt)

abbrev pub release : FileState → LinkTarget → Outcome (Unit {0})
release st (hard id) = lower_at st id (try_get st id)
release st (soft path) = (st, ok tt)
release st (external file path) = (st, ok tt)

unfoldable pub unlink : FileState → ℕ → Text → Outcome (Unit {0})
unfolding take_link
unlink st start name =
    if st.read_only
    then (st, err "unable to unlink: file is read-only")
    else (take_link st start name >=> λ st' link. release st' link.target)

-- The link is taken away before the place that it goes to is looked up.
unfoldable pub relink : ℕ → FileState → ℕ → (name path : Text) → Outcome (Unit {0})
unfolding take_link locate push_link
relink depth st start name path =
    if st.read_only
    then (st, err "unable to relink: file is read-only")
    else (take_link st start name >=> λ st' link. locate depth st' start path >=> λ st'' place.
        push_link "target parent is not a group" st'' place.0 (record link { name = place.1 }))

abbrev pub has_link : Option Link → Bool
has_link none = false
has_link (some l) = true

abbrev pub exists_at : FileState → Text → Option ℕ → Bool
exists_at st leaf none = false
exists_at st leaf (some id) = has_link (find_link st id leaf)

abbrev pub exists_by : ℕ → FileState → ℕ → Text → Option (Text × Text) → Result Bool
exists_by depth st start name none = ok (has_link (find_link st start name))
exists_by depth st start name (some (dir, leaf)) =
    resolve depth st start (dir_or_root dir) >>= λ r. ok (exists_at st leaf r)

unfoldable pub link_exists : ℕ → FileState → ℕ → Text → Result Bool
unfolding rsplit
link_exists depth st start name = exists_by depth st start name (rsplit name)
