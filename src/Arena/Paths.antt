-- ===== src/Arena/Paths.antt =====
-- `resolve`: a path is cut at its slashes and followed link by link.
pub mod Split
use hdf5_rs.Prelude.{
  ℕ, zero, suc, ◌+◌, List, [], ◌∷◌, ◌++◌, length, get_elem?, get_or, set, replicate, Bool, true,
  false, ◌&&◌, ◌||◌, not, ltb, ◌==◌, if◌then◌else◌, Option, none, some, Result, ok, err, panic,
  out_of_fuel, ◌>>=◌,
}
use hdf5_rs.Arena.{
  Text, same, LinkTarget, hard, soft, external, Link, GroupData, find, ObjectKind, ObjectNode,
  FileState, try_get, is_group, group_data, node_group, find_link,
}

-- `split('/')`, in front of the first part the characters already read.
abbrev pub slash : ℕ
slash = b'/'

abbrev pub prepend : ℕ → List Text → List Text
prepend c [] = (c ∷ []) ∷ []
prepend c (p ∷ ps) = (c ∷ p) ∷ ps

unfoldable pub split : Text → List Text
split [] = [] ∷ []
split (c ∷ cs) = let rest = split cs in if c == slash then [] ∷ rest else prepend c rest

abbrev pub is_empty : Text → Bool
is_empty [] = true
is_empty (c ∷ cs) = false

abbrev pub dot : Text
dot = b'.' ∷ []

unfoldable pub drop_empty : List Text → List Text
drop_empty [] = []
drop_empty (p ∷ ps) = let rest = drop_empty ps in if is_empty p then rest else p ∷ rest

unfoldable pub drop_dots : List Text → List Text
unfolding same
drop_dots [] = []
drop_dots (p ∷ ps) = let rest = drop_dots ps in if same p dot then rest else p ∷ rest

-- `split('/').filter(|s| !s.is_empty() && *s != ".")`
unfoldable pub components : Text → List Text
unfolding split drop_empty drop_dots
components path = drop_dots (drop_empty (split path))

abbrev pub is_absolute : Text → Bool
is_absolute [] = false
is_absolute (c ∷ cs) = c == slash

abbrev pub first_group : FileState → ℕ → Text → ℕ
first_group st start path = if is_absolute path then st.root else start

-- Where a link leads; `at_root` is `resolve` from the root.
abbrev pub follow : (Text → Result (Option ℕ)) → LinkTarget → Result (Option ℕ)
follow at_root (hard id) = ok (some id)
follow at_root (soft path) = at_root path
follow at_root (external file path) = ok none

abbrev pub step_link : (Text → Result (Option ℕ)) → Option Link → Result (Option ℕ)
step_link at_root none = ok none
step_link at_root (some l) = follow at_root l.target

abbrev pub go_on : (ℕ → Result (Option ℕ)) → Option ℕ → Result (Option ℕ)
go_on next none = ok none
go_on next (some id) = next id

-- The loop over the components.
unfoldable pub walk : (Text → Result (Option ℕ)) → FileState → ℕ → List Text → Result (Option ℕ)
walk at_root st cur [] = ok (some cur)
walk at_root st cur (c ∷ cs) =
    step_link at_root (find_link st cur c) >>= go_on (λ id. walk at_root st id cs)

-- `FileState::resolve`, with the depth of the soft links that may be followed as fuel: the source
-- has no such bound.
unfoldable pub resolve : ℕ → FileState → ℕ → Text → Result (Option ℕ)
unfolding components walk
resolve zero st start path = out_of_fuel
resolve (suc depth) st start path =
    walk (resolve depth st st.root) st (first_group st start path) (components path)
