-- ===== src/Arena/Search/Sound.antt =====
-- The path that `path_of` returns leads to the object, and the search ends.
use hdf5_rs.Prelude.{
  ℕ, zero, suc, ◌+◌, ◌≡◌, refl, sym, ap, subst, ◌∙◌, List, [], ◌∷◌, ◌++◌, length, All, ◌==◌, ==_iff,
  ◌&&◌, not, Bool-cases, true, inl, inr, ◌⊎◌, Option, none, some, some_inj, Result, ok, ok_inj,
}
use hdf5_rs.Arena.{
  Text, LinkTarget, hard, soft, external, Link, GroupData, find, find_in, FileState, is_group,
  group_data, find_link,
}
use hdf5_rs.Arena.Paths.{slash, components, walk, resolve, is_absolute, first_group}
use hdf5_rs.Arena.Paths.Split.{IsName, components-child, walk-snoc}
use hdf5_rs.Arena.Search.{
  Queue, contains, enqueue, Scan, found, searched, scan_link, scan_target, child_path, scan_links,
  scan_group, after_scan, search_loop, path_of,
}

-- In each group a link is found by its name, and the name is one component of a path.
abbrev pub HasNames : FileState → Type 0
HasNames st =
    (id : ℕ) (g : GroupData)
    → group_data st id ≡ some g
    → All (λ (l : Link). (find g.links l.name ≡ some l) × IsName l.name) g.links

All-mono : {P Q : Link → Type 0} → ((l : Link) → P l → Q l) → (ls : List Link) → All P ls → All Q ls
All-mono f [] h = tt
All-mono f (l ∷ ls) (h, hs) = (f l h, All-mono f ls hs)

module _ (st : FileState) where
  -- The path leads to the object from the root, whatever soft links would do.
  abbrev pub LeadsFromRoot : ℕ → Text → Type 0
  LeadsFromRoot id path =
      (at_root : Text → Result (Option ℕ))
      → walk at_root st st.root (components path) ≡ ok (some id)

  abbrev Rooted : Text → Type 0
  Rooted path = (path ≡ []) ⊎ (is_absolute path ≡ true)

  abbrev GoodEntry : ℕ × Text → Type 0
  GoodEntry e = LeadsFromRoot e.0 e.1 × Rooted e.1

  child-Rooted : (prefix name : Text) → Rooted prefix → is_absolute (child_path prefix name) ≡ true
  child-Rooted [] name r = refl
  child-Rooted (c ∷ cs) name (inl e) = cc
  child-Rooted (c ∷ cs) name (inr e) = e

  All-append :
      (q : Queue) (e : ℕ × Text) → All GoodEntry q → GoodEntry e → All GoodEntry (q ++ (e ∷ []))
  All-append [] e h g = (g, tt)
  All-append (x ∷ xs) e (h, hs) g = (h, All-append xs e hs g)

  enqueue-Good :
      (id : ℕ) (path : Text) (s : Queue × List ℕ)
      → All GoodEntry s.0
      → GoodEntry (id, path)
      → All GoodEntry (enqueue st id path s).0
  unfolding enqueue
  enqueue-Good id path (queue, seen) h g =
      elim (Bool-cases (is_group st id && not (contains seen id))) [
        | inl b ↦ rw b (All-append queue (id, path) h g)
        | inr b ↦ rw b h
      ]

  -- A scan that finds the object returns a path to it; otherwise the queue stays good.
  abbrev GoodScan : ℕ → Scan → Type 0
  GoodScan target (found path) = LeadsFromRoot target path × (is_absolute path ≡ true)
  GoodScan target (searched s) = All GoodEntry s.0

  scan_link-Good :
      (target id : ℕ) (path : Text) (rest : Scan)
      → LeadsFromRoot id path
      → is_absolute path ≡ true
      → GoodScan target rest
      → GoodScan target (scan_link target id path rest)
  scan_link-Good target id path rest w a h = elim (Bool-cases (id == target)) [
    | inl b ↦
        let e : id ≡ target = (==_iff id target).0 b in
        rw b (subst (λ k. LeadsFromRoot k path) e w, a)
    | inr b ↦ rw b h
  ]

  child-LeadsFromRoot :
      (cur id : ℕ) (prefix : Text) (l : Link)
      → LeadsFromRoot cur prefix
      → find_link st cur l.name ≡ some l
      → IsName l.name
      → l.target ≡ hard id
      → LeadsFromRoot id (child_path prefix l.name)
  child-LeadsFromRoot cur id prefix l w h n e at_root =
      ap (walk at_root st st.root) (components-child prefix l.name n)
      ∙ walk-snoc at_root st st.root cur id (components prefix) l.name l (w at_root) h e

  module _ (target cur : ℕ) (prefix : Text) (w : LeadsFromRoot cur prefix) (r : Rooted prefix) where
    scan_target-Good :
        (l : Link) (t : LinkTarget) (next : Queue × List ℕ → Scan) (s : Queue × List ℕ)
        → l.target ≡ t
        → find_link st cur l.name ≡ some l
        → IsName l.name
        → ((s' : Queue × List ℕ) → All GoodEntry s'.0 → GoodScan target (next s'))
        → All GoodEntry s.0
        → GoodScan target (scan_target st target (child_path prefix l.name) t next s)
    unfolding scan_target
    scan_target-Good l (hard id) next s e f n more h =
        let path = child_path prefix l.name in
        let leads = child-LeadsFromRoot cur id prefix l w f n e in
        let a = child-Rooted prefix l.name r in
        scan_link-Good target id path (next (enqueue st id path s)) leads a
          (more (enqueue st id path s) (enqueue-Good id path s h (leads, inr a)))
    scan_target-Good l (soft to) next s e f n more h = more s h
    scan_target-Good l (external file to) next s e f n more h = more s h

    scan_links-Good :
        (ls : List Link) (s : Queue × List ℕ)
        → All (λ (l : Link). (find_link st cur l.name ≡ some l) × IsName l.name) ls
        → All GoodEntry s.0
        → GoodScan target (scan_links st target prefix ls s)
    unfolding scan_links
    scan_links-Good [] s names h = h
    scan_links-Good (l ∷ ls) s ((f, n), names) h =
        scan_target-Good l l.target (scan_links st target prefix ls) s refl f n
          (λ s' h'. scan_links-Good ls s' names h') h

  module _ (named : HasNames st) where
    scan_group-Good :
        (target cur : ℕ) (prefix : Text) (o : Option GroupData) (s : Queue × List ℕ)
        → group_data st cur ≡ o
        → LeadsFromRoot cur prefix
        → Rooted prefix
        → All GoodEntry s.0
        → GoodScan target (scan_group st target prefix o s)
    unfolding scan_group
    scan_group-Good target cur prefix none s e w r h = h
    scan_group-Good target cur prefix (some g) s e w r h =
        scan_links-Good target cur prefix w r g.links s
          (All-mono (λ l p. (ap (λ o. find_in o l.name) e ∙ p.0, p.1)) g.links (named cur g e)) h

    abbrev GoodPath : ℕ → Result (Option Text) → Type 0
    GoodPath target (ok (some path)) = LeadsFromRoot target path × (is_absolute path ≡ true)
    GoodPath target r = Unit {0}

    after_scan-Good :
        (fuel target : ℕ) (r : Scan)
        → ((q : Queue) (seen : List ℕ)
            → All GoodEntry q
            → GoodPath target (search_loop fuel st target q seen))
        → GoodScan target r
        → GoodPath target (after_scan (search_loop fuel st target) r)
    after_scan-Good fuel target (found path) next h = h
    after_scan-Good fuel target (searched (q, seen)) next h = next q seen h

    search_loop-Good :
        (fuel target : ℕ) (queue : Queue) (seen : List ℕ)
        → All GoodEntry queue
        → GoodPath target (search_loop fuel st target queue seen)
    unfolding search_loop
    search_loop-Good zero target [] seen h = tt
    search_loop-Good (suc fuel) target [] seen h = tt
    search_loop-Good zero target ((cur, prefix) ∷ queue) seen h = tt
    search_loop-Good (suc fuel) target ((cur, prefix) ∷ queue) seen ((w, r), hs) =
        after_scan-Good fuel target (scan_group st target prefix (group_data st cur) (queue, seen))
          (λ q s g. search_loop-Good fuel target q s g)
          (scan_group-Good target cur prefix (group_data st cur) (queue, seen) refl w r hs)

-- The empty path and `/` stay at the root.
root-LeadsFromRoot : (st : FileState) → LeadsFromRoot st st.root []
unfolding walk components
root-LeadsFromRoot st at_root = refl

slash-LeadsFromRoot : (st : FileState) → LeadsFromRoot st st.root (slash ∷ [])
unfolding walk components
slash-LeadsFromRoot st at_root = refl

path_of-LeadsFromRoot :
    (st : FileState) (target : ℕ) (path : Text)
    → HasNames st
    → path_of st target ≡ ok (some path)
    → LeadsFromRoot st target path × (is_absolute path ≡ true)
unfolding path_of
path_of-LeadsFromRoot st target path named h = elim (Bool-cases (target == st.root)) [
  | inl b ↦
      let e : target ≡ st.root = (==_iff target st.root).0 b in
      let p : some (slash ∷ []) ≡ some path = ok_inj _ _ (rw b at h) in
      subst (λ t. LeadsFromRoot st target t × (is_absolute t ≡ true)) (some_inj p)
        (subst (λ k. LeadsFromRoot st k (slash ∷ [])) (sym e) (slash-LeadsFromRoot st), refl)
  | inr b ↦
      let h' : search_loop (length st.objects + 1) st target ((st.root, []) ∷ []) (st.root ∷ [])
          ≡ ok (some path) =
        rw b at h in
      subst (GoodPath st named target) h' (
        search_loop-Good st named (length st.objects + 1) target ((st.root, []) ∷ []) (st.root ∷ [])
          ((root-LeadsFromRoot st, inl refl), tt))
]

-- Where `path_of` returns a path to an object, `resolve` finds the object by it from any group,
-- with no soft link followed, if each link of a group is the first of its name and has a name
-- that is one component of a path.
pub resolve-path_of :
    (depth : ℕ) (st : FileState) (start target : ℕ) (path : Text)
    → HasNames st
    → path_of st target ≡ ok (some path)
    → resolve (suc depth) st start path ≡ ok (some target)
unfolding resolve
resolve-path_of depth st start target path named h =
    let leads = path_of-LeadsFromRoot st target path named h in
    let from : first_group st start path ≡ st.root = rw leads.1 refl in
    ap (λ k. walk (resolve depth st st.root) st k (components path)) from
    ∙ leads.0 (resolve depth st st.root)
