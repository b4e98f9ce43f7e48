-- ===== src/Arena/Recount/Laws.antt =====
-- `recount` makes the counts exact, from whatever they were.
use hdf5_rs.Prelude.{
  ℕ, zero, suc, ◌+◌, ◌<◌, ◌≡◌, refl, sym, ap, subst, ◌∙◌, arith, List, [], ◌∷◌, length, get_elem?,
  get_or, set, replicate, ltb, lt→ltb, ◌==◌, ==_iff, ==_refl, if◌then◌else◌, Option, none, some,
  Bool-cases, Option-cases, ℕ_discrete, false, inl, inr, ok, length-set, length-replicate,
  get_or-set_self, get_or-set_ne,
}
use hdf5_rs.Arena.{
  LinkTarget, hard, soft, external, Link, GroupData, ObjectNode, FileState, flatten, try_get,
  node_group,
}
use hdf5_rs.Arena.Counts.{points_to, tally, group_tally, total, refs, root_ref, IsCounted}
use hdf5_rs.Arena.Recount.{
  count_one, count_links, count_group, count_nodes, store_count, store_counts, recount,
}

module _ (n id : ℕ) (below : id < n) where
  count_one-points_to :
      (t : LinkTarget) (counts : List ℕ)
      → length counts ≡ n
      → get_or (count_one n t counts) id 0 ≡ get_or counts id 0 + points_to id t
  count_one-points_to (soft path) counts e = omega arith
  count_one-points_to (external file path) counts e = omega arith
  count_one-points_to (hard j) counts e = elim (ℕ_discrete j id) [
    | yes q ↦
        subst
          (λ k.
            get_or (if ltb k n then set counts k (get_or counts k 0 + 1) else counts) id 0
            ≡ get_or counts id 0 + (if k == id then 1 else 0))
          (sym q)
          (rw (lt→ltb id n below, ==_refl id)
            (get_or-set_self counts id (get_or counts id 0 + 1) 0 (omega arith)))
    | no q ↦
        let other : (j == id) ≡ false = ground (arith, ==_iff j id) in
        elim (Bool-cases (ltb j n)) [
          | inl b ↦
              rw (b, other) (get_or-set_ne counts j id (get_or counts j 0 + 1) 0 q ∙ omega arith)
          | inr b ↦ rw (b, other) (omega arith)
        ]
  ]

length-count_one :
    (n : ℕ) (t : LinkTarget) (counts : List ℕ) → length (count_one n t counts) ≡ length counts
length-count_one n (soft path) counts = refl
length-count_one n (external file path) counts = refl
length-count_one n (hard j) counts = elim (Bool-cases (ltb j n)) [
  | inl b ↦ rw b (length-set counts j (get_or counts j 0 + 1))
  | inr b ↦ rw b refl
]

length-count_links :
    (n : ℕ) (ls : List Link) (counts : List ℕ) → length (count_links n ls counts) ≡ length counts
unfolding count_links
length-count_links n [] counts = refl
length-count_links n (l ∷ ls) counts =
    length-count_links n ls (count_one n l.target counts) ∙ length-count_one n l.target counts

length-count_group :
    (n : ℕ) (g : Option GroupData) (counts : List ℕ)
    → length (count_group n g counts) ≡ length counts
length-count_group n none counts = refl
length-count_group n (some g) counts = length-count_links n g.links counts

length-count_nodes :
    (n : ℕ) (os : List (Option ObjectNode)) (counts : List ℕ)
    → length (count_nodes n os counts) ≡ length counts
unfolding count_nodes
length-count_nodes n [] counts = refl
length-count_nodes n (o ∷ os) counts =
    length-count_nodes n os (count_group n (node_group o) counts)
    ∙ length-count_group n (node_group o) counts

module _ (n id : ℕ) (below : id < n) where
  count_links-tally :
      (ls : List Link) (counts : List ℕ)
      → length counts ≡ n
      → get_or (count_links n ls counts) id 0 ≡ get_or counts id 0 + tally id ls
  unfolding count_links
  count_links-tally [] counts e = omega arith
  count_links-tally (l ∷ ls) counts e = omega (
    arith,
    count_links-tally ls (count_one n l.target counts) (length-count_one n l.target counts ∙ e),
    count_one-points_to n id below l.target counts e,
  )

  count_group-tally :
      (g : Option GroupData) (counts : List ℕ)
      → length counts ≡ n
      → get_or (count_group n g counts) id 0 ≡ get_or counts id 0 + group_tally id g
  count_group-tally none counts e = omega arith
  count_group-tally (some g) counts e = count_links-tally g.links counts e

  count_nodes-total :
      (os : List (Option ObjectNode)) (counts : List ℕ)
      → length counts ≡ n
      → get_or (count_nodes n os counts) id 0 ≡ get_or counts id 0 + total id os
  unfolding count_nodes
  count_nodes-total [] counts e = omega arith
  count_nodes-total (o ∷ os) counts e = omega (
    arith,
    count_nodes-total os (count_group n (node_group o) counts)
        (length-count_group n (node_group o) counts ∙ e),
    count_group-tally (node_group o) counts e,
  )

-- Storing counts leaves the links alone.
group_tally-store_count :
    (id : ℕ) (o : Option ObjectNode) (k : ℕ)
    → group_tally id (node_group (store_count o k)) ≡ group_tally id (node_group o)
group_tally-store_count id none k = refl
group_tally-store_count id (some node) k = refl

total-store_counts :
    (id : ℕ) (os : List (Option ObjectNode)) (ks : List ℕ)
    → total id (store_counts os ks) ≡ total id os
unfolding store_counts
total-store_counts id [] ks = refl
total-store_counts id (o ∷ os) [] = refl
total-store_counts id (o ∷ os) (k ∷ ks) =
    omega (arith, group_tally-store_count id o k, total-store_counts id os ks)

-- An object has the count stored at its id.
stored_some :
    (os : List (Option ObjectNode)) (ks : List ℕ) (id : ℕ) (node : ObjectNode)
    → length ks ≡ length os
    → flatten (get_elem? os id) ≡ some node
    → refs (flatten (get_elem? (store_counts os ks) id)) ≡ get_or ks id 0
unfolding store_counts
stored_some [] ks id node e h = cc
stored_some (o ∷ os) [] id node e h = absurd (omega arith)
stored_some (none ∷ os) (k ∷ ks) zero node e h = cc
stored_some (some m ∷ os) (k ∷ ks) zero node e h = refl
stored_some (o ∷ os) (k ∷ ks) (suc id) node e h = stored_some os ks id node (omega arith) h

stored_none :
    (os : List (Option ObjectNode)) (ks : List ℕ) (id : ℕ)
    → length ks ≡ length os
    → flatten (get_elem? os id) ≡ none
    → refs (flatten (get_elem? (store_counts os ks) id)) ≡ 0
unfolding store_counts
stored_none [] ks id e h = refl
stored_none (o ∷ os) [] id e h = absurd (omega arith)
stored_none (none ∷ os) (k ∷ ks) zero e h = refl
stored_none (some m ∷ os) (k ∷ ks) zero e h = cc
stored_none (o ∷ os) (k ∷ ks) (suc id) e h = stored_none os ks id (omega arith) h

present-lt :
    (os : List (Option ObjectNode)) (id : ℕ) (node : ObjectNode)
    → flatten (get_elem? os id) ≡ some node
    → id < length os
present-lt [] id node h = cc
present-lt (o ∷ os) zero node h = omega arith
present-lt (o ∷ os) (suc id) node h = omega (arith, present-lt os id node h)

abbrev zeros : ℕ → List ℕ
zeros n = replicate n 0

get_or-zeros : (n i : ℕ) → get_or (zeros n) i 0 ≡ 0
get_or-zeros zero i = refl
get_or-zeros (suc n) zero = refl
get_or-zeros (suc n) (suc i) = get_or-zeros n i

get_or-root :
    (n root id : ℕ) → root < n → get_or (set (zeros n) root 1) id 0 ≡ (if root == id then 1 else 0)
get_or-root n root id h = elim (ℕ_discrete root id) [
  | yes q ↦
      subst (λ k. get_or (set (zeros n) root 1) k 0 ≡ (if root == k then 1 else 0)) q
        (rw (==_refl root)
          (get_or-set_self (zeros n) root 1 0 (omega (arith, length-replicate {A = ℕ} n 0))))
  | no q ↦
      let other : (root == id) ≡ false = ground (arith, ==_iff root id) in
      rw other (get_or-set_ne (zeros n) root id 1 0 q ∙ get_or-zeros n id)
]

absent_root :
    (st : FileState) (id : ℕ) (top : ObjectNode)
    → try_get st st.root ≡ some top
    → try_get st id ≡ none
    → root_ref st id ≡ 0
absent_root st id top h e = elim (Bool-cases (st.root == id)) [
  | inl b ↦
      let q : st.root ≡ id = (==_iff st.root id).0 b in
      let c : some top ≡ none = sym h ∙ ap (try_get st) q ∙ e in cc
  | inr b ↦ rw b refl
]

-- Where the root and the target of every hard link are objects, `recount` succeeds and makes the
-- counts exact, whatever they were.
pub recount-IsCounted :
    (st : FileState) (top : ObjectNode)
    → try_get st st.root ≡ some top
    → ((id : ℕ) → try_get st id ≡ none → total id st.objects ≡ 0)
    → (st' : FileState) × (recount st ≡ ok st') × IsCounted st'
unfolding recount
recount-IsCounted st top h dangling =
    let n = length st.objects in
    let first = set (zeros n) st.root 1 in
    let counts = count_nodes n st.objects first in
    let below = present-lt st.objects st.root top h in
    let len : length first ≡ n = length-set (zeros n) st.root 1 ∙ length-replicate n 0 in
    let all : length counts ≡ n = length-count_nodes n st.objects first ∙ len in
    (
      record st { objects = store_counts st.objects counts },
      rw (length-replicate {A = ℕ} n 0, lt→ltb st.root n below) refl,
      record {
        at = λ id. elim (Option-cases (try_get st id)) [
          | inl e ↦ omega (
            arith,
            stored_none st.objects counts id all e,
            total-store_counts id st.objects counts,
            dangling id e,
            absent_root st id top h e,
          )
          | inr (node, e) ↦
              let lt = present-lt st.objects id node e in
              omega (
                arith,
                stored_some st.objects counts id node all e,
                total-store_counts id st.objects counts,
                count_nodes-total n id lt st.objects first len,
                get_or-root n st.root id below,
              )
        ];
      },
    )
