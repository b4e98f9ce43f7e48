-- ===== src/Arena/Counts.antt =====
-- The hard links to an object, counted over the arena, against the counts that its objects keep.
use hdf5_rs.Prelude.{
  ℕ, zero, suc, ◌+◌, ◌≡◌, ◌≢◌, refl, ap, subst, arith, List, [], ◌∷◌, ◌++◌, length, get_elem?, set,
  ◌==◌, if◌then◌else◌, Option, none, some, ℕ_discrete,
}
use hdf5_rs.Arena.{
  LinkTarget, hard, soft, external, Link, GroupData, ObjectKind, group, ObjectNode, new_node,
  FileState, flatten, try_get, put_node, node_group, no_links, alloc,
}

-- 1 for a hard link to the object.
abbrev pub points_to : ℕ → LinkTarget → ℕ
points_to id (hard j) = if j == id then 1 else 0
points_to id (soft path) = 0
points_to id (external file path) = 0

abbrev pub tally : ℕ → List Link → ℕ
tally id [] = 0
tally id (l ∷ ls) = points_to id l.target + tally id ls

abbrev pub group_tally : ℕ → Option GroupData → ℕ
group_tally id none = 0
group_tally id (some g) = tally id g.links

abbrev pub total : ℕ → List (Option ObjectNode) → ℕ
total id [] = 0
total id (o ∷ os) = group_tally id (node_group o) + total id os

abbrev pub refs : Option ObjectNode → ℕ
refs none = 0
refs (some n) = n.refcount

-- The file itself refers to the root.
abbrev pub root_ref : FileState → ℕ → ℕ
root_ref st id = if st.root == id then 1 else 0

-- Each object's count and what it is owed are the links to it and what is to be taken off.
pub record Balanced (owed spare : ℕ → ℕ) (st : FileState) : Type 0 where
  pub at :
      (id : ℕ) → refs (try_get st id) + owed id ≡ total id st.objects + root_ref st id + spare id

abbrev pub nothing_owed : ℕ → ℕ
nothing_owed id = 0

-- Each object's count is the number of hard links to it, and one more for the root; an id with no
-- object has no link to it.
abbrev pub IsCounted : FileState → Type 0
IsCounted st = Balanced nothing_owed nothing_owed st

pub tally-append :
    (id : ℕ) (ls : List Link) (l : Link)
    → tally id (ls ++ (l ∷ [])) ≡ tally id ls + points_to id l.target
tally-append id [] l = omega arith
tally-append id (k ∷ ks) l = omega (arith, tally-append id ks l)

total-append :
    (id : ℕ) (os : List (Option ObjectNode)) (o : Option ObjectNode)
    → total id (os ++ (o ∷ [])) ≡ total id os + group_tally id (node_group o)
total-append id [] o = omega arith
total-append id (p ∷ os) o = omega (arith, total-append id os o)

pub total-set :
    (id i : ℕ) (os : List (Option ObjectNode)) (old new : ObjectNode)
    → flatten (get_elem? os i) ≡ some old
    → total id (set os i (some new)) + group_tally id (node_group (some old))
      ≡ total id os + group_tally id (node_group (some new))
total-set id i [] old new h = cc
total-set id zero (o ∷ os) old new h =
    let e : group_tally id (node_group o) ≡ group_tally id (node_group (some old)) =
      ap (λ t. group_tally id (node_group t)) h in
    omega arith
total-set id (suc i) (o ∷ os) old new h = omega (arith, total-set id i os old new h)

get_elem?-set_self :
    (i : ℕ) (os : List (Option ObjectNode)) (old new : ObjectNode)
    → flatten (get_elem? os i) ≡ some old
    → flatten (get_elem? (set os i (some new)) i) ≡ some new
get_elem?-set_self i [] old new h = cc
get_elem?-set_self zero (o ∷ os) old new h = refl
get_elem?-set_self (suc i) (o ∷ os) old new h = get_elem?-set_self i os old new h

get_elem?-set_ne :
    (i j : ℕ) (os : List (Option ObjectNode)) (new : Option ObjectNode)
    → i ≢ j
    → get_elem? (set os i new) j ≡ get_elem? os j
get_elem?-set_ne i j [] new h = refl
get_elem?-set_ne zero zero (o ∷ os) new h = absurd (h refl)
get_elem?-set_ne zero (suc j) (o ∷ os) new h = refl
get_elem?-set_ne (suc i) zero (o ∷ os) new h = refl
get_elem?-set_ne (suc i) (suc j) (o ∷ os) new h = get_elem?-set_ne i j os new (λ e. h (ap suc e))

pub try_get-put_self :
    (st : FileState) (i : ℕ) (old new : ObjectNode)
    → try_get st i ≡ some old
    → try_get (put_node st i new) i ≡ some new
try_get-put_self st i old new h = get_elem?-set_self i st.objects old new h

pub try_get-put_ne :
    (st : FileState) (i j : ℕ) (new : ObjectNode)
    → i ≢ j
    → try_get (put_node st i new) j ≡ try_get st j
try_get-put_ne st i j new h = ap flatten (get_elem?-set_ne i j st.objects (some new) h)

-- Appending an object leaves the others, and the new one was no object before.
get_elem?-append_end :
    (os : List (Option ObjectNode)) (o : Option ObjectNode) (j : ℕ)
    → j ≢ length os
    → get_elem? (os ++ (o ∷ [])) j ≡ get_elem? os j
get_elem?-append_end [] o zero h = absurd (h refl)
get_elem?-append_end [] o (suc j) h = refl
get_elem?-append_end (p ∷ os) o zero h = refl
get_elem?-append_end (p ∷ os) o (suc j) h = get_elem?-append_end os o j (λ e. h (ap suc e))

get_elem?-append_here :
    (os : List (Option ObjectNode)) (o : Option ObjectNode)
    → get_elem? (os ++ (o ∷ [])) (length os) ≡ some o
get_elem?-append_here [] o = refl
get_elem?-append_here (p ∷ os) o = get_elem?-append_here os o

get_elem?-end : (os : List (Option ObjectNode)) → get_elem? os (length os) ≡ none
get_elem?-end [] = refl
get_elem?-end (o ∷ os) = get_elem?-end os

pub try_get-alloc_self :
    (k : ObjectKind) (st : FileState)
    → try_get (alloc k st).0 (length st.objects) ≡ some (new_node k)
try_get-alloc_self k st = ap flatten (get_elem?-append_here st.objects (some (new_node k)))

pub try_get-alloc_ne :
    (k : ObjectKind) (st : FileState) (j : ℕ)
    → j ≢ length st.objects
    → try_get (alloc k st).0 j ≡ try_get st j
try_get-alloc_ne k st j h = ap flatten (get_elem?-append_end st.objects (some (new_node k)) j h)

pub try_get-end : (st : FileState) → try_get st (length st.objects) ≡ none
try_get-end st = ap flatten (get_elem?-end st.objects)

-- A new object without links, and without a link to it, keeps the balance.
pub alloc-Balanced :
    (owed spare : ℕ → ℕ) (st : FileState)
    → Balanced owed spare st
    → Balanced owed spare (alloc (group no_links) st).0
alloc-Balanced owed spare st b = record {
  at = λ id.
      let added = total-append id st.objects (some (new_node (group no_links))) in
      elim (ℕ_discrete id (length st.objects)) [
        | yes e ↦
            rw (e, try_get-alloc_self (group no_links) st)
              (omega (
                arith,
                subst
                    (λ k.
                      total k (st.objects ++ (some (new_node (group no_links)) ∷ []))
                      ≡ total k st.objects + 0)
                    e added,
                ap refs (try_get-end st),
                b.at (length st.objects),
              ))
        | no ne ↦ rw (try_get-alloc_ne (group no_links) st id ne) (omega (arith, added, b.at id))
      ];
}

-- Storing an object with other links and the same count.
pub relinked-Balanced :
    (owed spare owed' spare' : ℕ → ℕ) (st : FileState) (i : ℕ) (old new : ObjectNode)
    → try_get st i ≡ some old
    → new.refcount ≡ old.refcount
    → ((id : ℕ)
        → owed' id + group_tally id (node_group (some old)) + spare id
          ≡ owed id + group_tally id (node_group (some new)) + spare' id)
    → Balanced owed spare st
    → Balanced owed' spare' (put_node st i new)
relinked-Balanced owed spare owed' spare' st i old new h same change b = record {
  at = λ id.
      let moved = total-set id i st.objects old new h in
      elim (ℕ_discrete i id) [
        | yes e ↦
            subst
              (λ k.
                refs (try_get (put_node st i new) k) + owed' k
                ≡ total k (put_node st i new).objects + root_ref st k + spare' k)
              e
              (rw (try_get-put_self st i old new h) (
                omega
                  (arith, same, change i, b.at i, ap refs h, total-set i i st.objects old new h)))
        | no ne ↦ rw (try_get-put_ne st i id new ne) (omega (arith, moved, change id, b.at id))
      ];
}

-- Storing an object with the same links and another count.
pub recounted-Balanced :
    (owed spare owed' spare' : ℕ → ℕ) (st : FileState) (i : ℕ) (old new : ObjectNode)
    → try_get st i ≡ some old
    → node_group (some new) ≡ node_group (some old)
    → new.refcount + owed' i + spare i ≡ old.refcount + owed i + spare' i
    → ((id : ℕ) → i ≢ id → owed' id + spare id ≡ owed id + spare' id)
    → Balanced owed spare st
    → Balanced owed' spare' (put_node st i new)
recounted-Balanced owed spare owed' spare' st i old new h same here there b = record {
  at = λ id.
      let links = ap (group_tally id) same in
      let moved = total-set id i st.objects old new h in
      elim (ℕ_discrete i id) [
        | yes e ↦
            subst
              (λ k.
                refs (try_get (put_node st i new) k) + owed' k
                ≡ total k (put_node st i new).objects + root_ref st k + spare' k)
              e
              (rw (try_get-put_self st i old new h) (
                omega (
                  arith,
                  here,
                  b.at i,
                  ap refs h,
                  total-set i i st.objects old new h,
                  ap (group_tally i) same,
                )))
        | no ne ↦
            rw (try_get-put_ne st i id new ne) (omega (arith, moved, links, there id ne, b.at id))
      ];
}
