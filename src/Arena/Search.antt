-- ===== src/Arena/Search.antt =====
-- `path_of`: a breadth-first search from the root for one path to an object.
pub mod Sound
pub mod Ends
use hdf5_rs.Prelude.{
  ℕ, zero, suc, ◌+◌, List, [], ◌∷◌, ◌++◌, length, get_elem?, get_or, set, replicate, Bool, true,
  false, ◌&&◌, ◌||◌, not, ltb, ◌==◌, if◌then◌else◌, Option, none, some, Result, ok, err, panic,
  out_of_fuel, ◌>>=◌,
}
use hdf5_rs.Arena.{
  Text, same, LinkTarget, hard, soft, external, Link, GroupData, find, ObjectKind, ObjectNode,
  FileState, try_get, is_group, group_data, node_group, find_link,
}
use hdf5_rs.Arena.Paths.{slash}

-- `path_of`: the queue of groups with their paths, and the set of groups seen.
abbrev pub Queue : Type 0
Queue = List (ℕ × Text)

unfoldable pub contains : List ℕ → ℕ → Bool
contains [] id = false
contains (s ∷ seen) id = s == id || contains seen id

-- `if is_group(id) && seen.insert(id) { queue.push_back((id, path)) }`
unfoldable pub enqueue : FileState → ℕ → Text → Queue × List ℕ → Queue × List ℕ
unfolding contains
enqueue st id path (queue, seen) =
    if is_group st id && not (contains seen id)
    then (queue ++ ((id, path) ∷ []), id ∷ seen)
    else (queue, seen)

pub data Scan : Type 0 where
  found : Text → Scan
  searched : Queue × List ℕ → Scan

abbrev pub scan_link : ℕ → ℕ → Text → Scan → Scan
scan_link target id path rest = if id == target then found path else rest

abbrev pub child_path : Text → Text → Text
child_path prefix name = prefix ++ (slash ∷ name)

-- One link; `next` scans the others.
unfoldable pub scan_target :
    FileState → ℕ → Text → LinkTarget → (Queue × List ℕ → Scan) → Queue × List ℕ → Scan
unfolding enqueue
scan_target st target path (hard id) next s = scan_link target id path (next (enqueue st id path s))
scan_target st target path (soft to) next s = next s
scan_target st target path (external file to) next s = next s

-- `for link in &g.links`
unfoldable pub scan_links : FileState → ℕ → Text → List Link → Queue × List ℕ → Scan
unfolding scan_target
scan_links st target prefix [] s = searched s
scan_links st target prefix (l ∷ ls) s =
    scan_target st target (child_path prefix l.name) l.target (scan_links st target prefix ls) s

unfoldable pub scan_group : FileState → ℕ → Text → Option GroupData → Queue × List ℕ → Scan
unfolding scan_links
scan_group st target prefix none s = searched s
scan_group st target prefix (some g) s = scan_links st target prefix g.links s

abbrev pub after_scan : (Queue → List ℕ → Result (Option Text)) → Scan → Result (Option Text)
after_scan next (found path) = ok (some path)
after_scan next (searched (queue, seen)) = next queue seen

-- `while let Some((cur, prefix)) = queue.pop_front()`
unfoldable pub search_loop : ℕ → FileState → ℕ → Queue → List ℕ → Result (Option Text)
unfolding scan_group
search_loop fuel st target [] seen = ok none
search_loop zero st target ((cur, prefix) ∷ queue) seen = out_of_fuel
search_loop (suc fuel) st target ((cur, prefix) ∷ queue) seen =
    after_scan (search_loop fuel st target)
      (scan_group st target prefix (group_data st cur) (queue, seen))

-- A group is queued once, and the root at the start.
unfoldable pub path_of : FileState → ℕ → Result (Option Text)
unfolding search_loop
path_of st target =
    let searched_path =
      search_loop (length st.objects + 1) st target ((st.root, []) ∷ []) (st.root ∷ []) in
    if target == st.root then ok (some (slash ∷ [])) else searched_path
