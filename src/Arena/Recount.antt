-- ===== src/Arena/Recount.antt =====
-- `recount`: the counts of hard links, computed afresh.
pub mod Laws
use hdf5_rs.Prelude.{
  ℕ, zero, suc, ◌+◌, List, [], ◌∷◌, ◌++◌, length, get_elem?, get_or, set, replicate, Bool, true,
  false, ◌&&◌, ◌||◌, not, ltb, ◌==◌, if◌then◌else◌, Option, none, some, Result, ok, err, panic,
  out_of_fuel, ◌>>=◌,
}
use hdf5_rs.Prelude.Bytes.{put}
use hdf5_rs.Arena.{
  Text, same, LinkTarget, hard, soft, external, Link, GroupData, find, ObjectKind, ObjectNode,
  FileState, try_get, is_group, group_data, node_group, find_link,
}

-- `recount`: one more for each hard link to an object of the arena.
abbrev pub count_one : ℕ → LinkTarget → List ℕ → List ℕ
count_one n (hard id) counts = if ltb id n then set counts id (get_or counts id 0 + 1) else counts
count_one n (soft path) counts = counts
count_one n (external file path) counts = counts

unfoldable pub count_links : ℕ → List Link → List ℕ → List ℕ
count_links n [] counts = counts
count_links n (l ∷ ls) counts = count_links n ls (count_one n l.target counts)

abbrev pub count_group : ℕ → Option GroupData → List ℕ → List ℕ
count_group n none counts = counts
count_group n (some g) counts = count_links n g.links counts

unfoldable pub count_nodes : ℕ → List (Option ObjectNode) → List ℕ → List ℕ
unfolding count_links
count_nodes n [] counts = counts
count_nodes n (o ∷ os) counts = count_nodes n os (count_group n (node_group o) counts)

abbrev pub store_count : Option ObjectNode → ℕ → Option ObjectNode
store_count none k = none
store_count (some node) k = some (record node { refcount = k })

unfoldable pub store_counts : List (Option ObjectNode) → List ℕ → List (Option ObjectNode)
store_counts [] counts = []
store_counts (o ∷ os) [] = o ∷ os
store_counts (o ∷ os) (k ∷ ks) = store_count o k ∷ store_counts os ks

unfoldable pub recount : FileState → Result FileState
unfolding count_nodes store_counts
recount st = do
  let n = length st.objects
  counts ← put (replicate n 0) st.root 1
  ok (record st { objects = store_counts st.objects (count_nodes n st.objects counts) })
