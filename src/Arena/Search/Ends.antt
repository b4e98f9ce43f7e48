-- ===== src/Arena/Search/Ends.antt =====
-- The search of `path_of` ends: a group enters the queue once.
use hdf5_rs.Prelude.{
  ℕ, zero, suc, ◌+◌, ◌<◌, ◌≤◌, ◌≡◌, ◌≢◌, refl, ap, subst, arith, List, [], ◌∷◌, length,
  length-append, ◌==◌, ==_iff, if◌then◌else◌, ◌&&◌, not, Bool, Bool-cases, true, false, inl, inr,
  Option, none, some, Answers, and_true, get_elem?,
}
use hdf5_rs.Arena.{
  Text, LinkTarget, hard, soft, external, Link, GroupData, FileState, ObjectNode, flatten, is_group,
  node_is_group, group_data,
}
use hdf5_rs.Arena.Search.{
  Queue, contains, enqueue, Scan, found, searched, scan_link, scan_target, child_path, scan_links,
  scan_group, after_scan, search_loop, path_of,
}

-- The ids below `n` that are not in the list.
unseen : List ℕ → ℕ → ℕ
unseen seen zero = 0
unseen seen (suc n) = unseen seen n + (if contains seen n then 0 else 1)

unseen-le : (seen : List ℕ) (n : ℕ) → unseen seen n ≤ n
unfolding unseen
unseen-le seen zero = omega arith
unseen-le seen (suc n) = elim (Bool-cases (contains seen n)) [
  | inl b ↦ rw b (omega (arith, unseen-le seen n))
  | inr b ↦ rw b (omega (arith, unseen-le seen n))
]

unseen_above : (seen : List ℕ) (id n : ℕ) → n ≤ id → unseen (id ∷ seen) n ≡ unseen seen n
unfolding unseen contains
unseen_above seen id zero h = refl
unseen_above seen id (suc n) h =
    let ne : (id == n) ≡ false = ground arith in
    rw ne (ap (λ k. k + (if contains seen n then 0 else 1)) (unseen_above seen id n (omega arith)))

differs : (a b : ℕ) → (a == b) ≡ false → a ≢ b
differs a b h e = ground arith

unseen_below :
    (seen : List ℕ) (id n : ℕ)
    → id < n
    → contains seen id ≡ false
    → unseen (id ∷ seen) n + 1 ≡ unseen seen n
unfolding unseen contains
unseen_below seen id zero h c = absurd (omega arith)
unseen_below seen id (suc n) h c = elim (Bool-cases (id == n)) [
  | inl b ↦
      let e : id ≡ n = (==_iff id n).0 b in
      let c' : contains seen n ≡ false = subst (λ k. contains seen k ≡ false) e c in
      rw (b, c') (omega (arith, unseen_above seen id n (omega arith)))
  | inr b ↦
      let ne : id ≢ n = λ e. differs id n b e in
      rw b (omega (arith, unseen_below seen id n (omega arith) c))
]

not-true : (b : Bool) → not b ≡ true → b ≡ false
not-true true h = cc
not-true false h = refl

group-lt :
    (os : List (Option ObjectNode)) (id : ℕ)
    → node_is_group (flatten (get_elem? os id)) ≡ true
    → id < length os
group-lt [] id h = cc
group-lt (o ∷ os) zero h = omega arith
group-lt (o ∷ os) (suc id) h = omega (arith, group-lt os id h)

module _ (st : FileState) where
  -- What is still to come: the queue and the groups that may enter it.
  ahead : Queue × List ℕ → ℕ
  ahead (queue, seen) = length queue + unseen seen (length st.objects)

  enqueue-ahead :
      (id : ℕ) (path : Text) (s : Queue × List ℕ) → ahead (enqueue st id path s) ≡ ahead s
  unfolding ahead enqueue
  enqueue-ahead id path (queue, seen) =
      elim (Bool-cases (is_group st id && not (contains seen id))) [
        | inl b ↦
            let both = and_true (is_group st id) (not (contains seen id)) b in
            let new : contains seen id ≡ false = not-true (contains seen id) both.1 in
            rw b (
              omega (
                arith,
                length-append queue ((id, path) ∷ []),
                unseen_below seen id (length st.objects) (group-lt st.objects id both.0) new,
              ))
        | inr b ↦ rw b refl
      ]

  abbrev Bounded : ℕ → Scan → Type 0
  Bounded n (found path) = Unit {0}
  Bounded n (searched s) = ahead s ≤ n

  scan_link-Bounded :
      (n target id : ℕ) (path : Text) (rest : Scan)
      → Bounded n rest
      → Bounded n (scan_link target id path rest)
  scan_link-Bounded n target id path rest h = elim (Bool-cases (id == target)) [
    | inl b ↦ rw b tt
    | inr b ↦ rw b h
  ]

  scan_target-Bounded :
      (n target : ℕ) (path : Text) (t : LinkTarget) (next : Queue × List ℕ → Scan)
      (s : Queue × List ℕ)
      → ((s' : Queue × List ℕ) → ahead s' ≤ n → Bounded n (next s'))
      → ahead s ≤ n
      → Bounded n (scan_target st target path t next s)
  unfolding scan_target
  scan_target-Bounded n target path (soft to) next s more h = more s h
  scan_target-Bounded n target path (external file to) next s more h = more s h
  scan_target-Bounded n target path (hard id) next s more h =
      scan_link-Bounded n target id path (next (enqueue st id path s))
        (more (enqueue st id path s) (omega (arith, enqueue-ahead id path s)))

  scan_links-Bounded :
      (n target : ℕ) (prefix : Text) (ls : List Link) (s : Queue × List ℕ)
      → ahead s ≤ n
      → Bounded n (scan_links st target prefix ls s)
  unfolding scan_links
  scan_links-Bounded n target prefix [] s h = h
  scan_links-Bounded n target prefix (l ∷ ls) s h =
      scan_target-Bounded n target (child_path prefix l.name) l.target
        (scan_links st target prefix ls) s (λ s' h'. scan_links-Bounded n target prefix ls s' h') h

  scan_group-Bounded :
      (n target : ℕ) (prefix : Text) (o : Option GroupData) (s : Queue × List ℕ)
      → ahead s ≤ n
      → Bounded n (scan_group st target prefix o s)
  unfolding scan_group
  scan_group-Bounded n target prefix none s h = h
  scan_group-Bounded n target prefix (some g) s h = scan_links-Bounded n target prefix g.links s h

  after_scan-Answers :
      (fuel target : ℕ) (r : Scan)
      → ((q : Queue) (seen : List ℕ)
          → ahead (q, seen) ≤ fuel
          → Answers (search_loop fuel st target q seen))
      → Bounded fuel r
      → Answers (after_scan (search_loop fuel st target) r)
  after_scan-Answers fuel target (found path) next h = tt
  after_scan-Answers fuel target (searched (q, seen)) next h = next q seen h

  search_loop-Answers :
      (fuel target : ℕ) (queue : Queue) (seen : List ℕ)
      → ahead (queue, seen) ≤ fuel
      → Answers (search_loop fuel st target queue seen)
  unfolding search_loop ahead
  search_loop-Answers zero target [] seen h = tt
  search_loop-Answers (suc fuel) target [] seen h = tt
  search_loop-Answers zero target ((cur, prefix) ∷ queue) seen h = absurd (omega arith)
  search_loop-Answers (suc fuel) target ((cur, prefix) ∷ queue) seen h =
      after_scan-Answers fuel target (scan_group st target prefix (group_data st cur) (queue, seen))
        (λ q s k. search_loop-Answers fuel target q s k)
        (scan_group-Bounded fuel target prefix (group_data st cur) (queue, seen) (omega arith))

starts : (st : FileState) → ahead st ((st.root, []) ∷ [], st.root ∷ []) ≤ length st.objects + 1
unfolding ahead
starts st = omega (arith, unseen-le (st.root ∷ []) (length st.objects))

-- `path_of` ends on every state, also where groups hold one another in a circle: the number of
-- objects and one is fuel enough.
pub path_of-Answers : (st : FileState) (target : ℕ) → Answers (path_of st target)
unfolding path_of
path_of-Answers st target = elim (Bool-cases (target == st.root)) [
  | inl b ↦ rw b tt
  | inr b ↦ rw b (
      search_loop-Answers st (length st.objects + 1) target ((st.root, []) ∷ []) (st.root ∷ [])
        (starts st))
]
