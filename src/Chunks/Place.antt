-- ===== src/Chunks/Place.antt =====
-- Where the element at a position of a chunk stands in the array: the two computations come to one
-- description, and this to coordinates.
use hdf5_rs.Prelude.{
  ◌^◌, All, lt→ltb, ℕ, suc, ◌+◌, ◌*◌, ◌%◌, ◌<◌, ◌≤◌, ◌≡◌, refl, ap, sym, subst, ◌∙◌, arith, List,
  [], ◌∷◌, length, false, Bool-cases, inl, inr, leb, not_leb→lt, if◌then◌else◌, Option,
  Option-cases, none, some, ok, ◌>>=◌,
}
use native.Mathlib.Nat.{mul_assoc}
use hdf5_rs.Datatype.{checked}
use hdf5_rs.Prelude.Arith.{index-lt}
use hdf5_rs.Selection.Linear.{product, row_major_strides, dot}
use hdf5_rs.Selection.Linear.Strides.{
  Inside, row_major_strides-cons, unravel, unravel-dot, Inside-unravel,
}
use hdf5_rs.Chunks.Copy.{
  plus, checked_product, gather_at, scatter_at, gather_element, scatter_element, gather_strides,
  gather_index, scatter_strides, scatter_index,
}
use hdf5_rs.Chunks.Gathered.{some_inj, cell_fits}

-- The row-major index of an element, none outside the array
abbrev pub inside : (dims strides base coord : List ℕ) → Option ℕ
inside [] strides base coord = some 0
inside (d ∷ ds) (s ∷ ss) (b ∷ bs) (c ∷ cs) =
    let rest = inside ds ss bs cs in if leb d (b + c) then none else plus ((b + c) * s) rest
inside (d ∷ ds) (s ∷ ss) (b ∷ bs) [] = none
inside (d ∷ ds) (s ∷ ss) [] coord = none
inside (d ∷ ds) [] base coord = none

unfoldable pub place : (dims chunk_dims base : List ℕ) → ℕ → Option ℕ
unfolding row_major_strides
place dims chunk_dims base lin =
    inside dims (row_major_strides dims) base (unravel (row_major_strides chunk_dims) lin)

-- The coordinates in the array of coordinates in a chunk with this corner
abbrev pub moved : (base coord : List ℕ) → List ℕ
moved [] cs = []
moved (b ∷ bs) [] = []
moved (b ∷ bs) (c ∷ cs) = (b + c) ∷ moved bs cs

abbrev pub IsWord : ℕ → Type 0
IsWord n = n < 2 ^ 64

checked-word : (n : ℕ) → IsWord n → checked n ≡ ok n
checked-word n h = rw (lt→ltb n (2 ^ 64) h) refl

pos-product : (cs : List ℕ) → All (λ c. 1 ≤ c) cs → 1 ≤ product cs
pos-product [] h = omega arith
pos-product (c ∷ cs) (h, hs) = let rest = pos-product cs hs in grind arith

grows : (n p : ℕ) → 1 ≤ p → n ≤ n * p
grows n p h = grind arith

checked_product_from :
    (total : ℕ) (cs : List ℕ)
    → All (λ c. 1 ≤ c) cs
    → total * product cs < 2 ^ 64
    → checked_product total cs ≡ ok (total * product cs)
checked_product_from total [] h k = ap (λ n. ok n) (omega arith)
checked_product_from total (c ∷ cs) (h, hs) k =
    let split : total * (c * product cs) ≡ (total * c) * product cs =
      sym (mul_assoc total c (product cs)) in
    let more = grows (total * c) (product cs) (pos-product cs hs) in
    rw (checked-word (total * c) (omega (arith, more, split, k))) (
      checked_product_from (total * c) cs hs (omega (arith, split, k)) ∙ ap (λ n. ok n) (sym split))

-- No partial product is larger than the whole, if no factor is 0.
pub checked_product_lem :
    (cs : List ℕ)
    → All (λ c. 1 ≤ c) cs
    → IsWord (product cs)
    → checked_product 1 cs ≡ ok (product cs)
checked_product_lem cs h k =
    checked_product_from 1 cs h (omega (arith, k)) ∙ ap (λ n. ok n) (omega arith)

pub gather_strides_lem :
    (d : ℕ) (ds cs : List ℕ)
    → length cs ≡ length (d ∷ ds)
    → All IsWord (row_major_strides cs)
    → gather_strides (d ∷ ds) cs ≡ ok (row_major_strides cs)
unfolding gather_strides row_major_strides
gather_strides_lem d [] [] h words = absurd (omega arith)
gather_strides_lem d [] (c ∷ []) h words = refl
gather_strides_lem d [] (c ∷ k ∷ cs) h words = absurd (omega arith)
gather_strides_lem d (e ∷ ds) [] h words = absurd (omega arith)
gather_strides_lem d (e ∷ ds) (c ∷ []) h words = absurd (omega arith)
gather_strides_lem d (e ∷ ds) (c ∷ k ∷ cs) h (word, words) =
    rw (gather_strides_lem e ds (k ∷ cs) (omega arith) words) (rw (checked-word _ word) refl)

pub gather_index-inside :
    (ds ss bs cs : List ℕ)
    → length ss ≡ length ds
    → length bs ≡ length ds
    → length cs ≡ length ds
    → All IsWord (moved bs cs)
    → gather_index ds ss bs cs ≡ ok (inside ds ss bs cs)
unfolding gather_index
gather_index-inside [] ss bs cs h k l words = refl
gather_index-inside (d ∷ ds) [] bs cs h k l words = absurd (omega arith)
gather_index-inside (d ∷ ds) (s ∷ ss) [] cs h k l words = absurd (omega arith)
gather_index-inside (d ∷ ds) (s ∷ ss) (b ∷ bs) [] h k l words = absurd (omega arith)
gather_index-inside (d ∷ ds) (s ∷ ss) (b ∷ bs) (c ∷ cs) h k l (word, words) =
    let rest = gather_index-inside ds ss bs cs (omega arith) (omega arith) (omega arith) words in
    elim (Bool-cases (leb d (b + c))) [
      | inl out ↦ rw (checked-word (b + c) word) (rw out refl)
      | inr in_it ↦ rw (checked-word (b + c) word) (rw (in_it, rest) refl)
    ]

pub scatter_strides_lem :
    (d : ℕ) (ds cs : List ℕ)
    → length cs ≡ length (d ∷ ds)
    → All IsWord (row_major_strides cs)
    → scatter_strides (d ∷ ds) cs ≡ ok (row_major_strides cs)
unfolding scatter_strides row_major_strides
scatter_strides_lem d [] [] h words = absurd (omega arith)
scatter_strides_lem d [] (c ∷ []) h words = refl
scatter_strides_lem d [] (c ∷ k ∷ cs) h words = absurd (omega arith)
scatter_strides_lem d (e ∷ ds) [] h words = absurd (omega arith)
scatter_strides_lem d (e ∷ ds) (c ∷ []) h words = absurd (omega arith)
scatter_strides_lem d (e ∷ ds) (c ∷ k ∷ cs) h (word, words) =
    rw (scatter_strides_lem e ds (k ∷ cs) (omega arith) words) (rw (checked-word _ word) refl)

pub scatter_index-inside :
    (ds ss bs cs : List ℕ)
    → length ss ≡ length ds
    → length bs ≡ length ds
    → length cs ≡ length ds
    → All IsWord (moved bs cs)
    → scatter_index ds ss bs cs ≡ ok (inside ds ss bs cs)
unfolding scatter_index
scatter_index-inside [] ss bs cs h k l words = refl
scatter_index-inside (d ∷ ds) [] bs cs h k l words = absurd (omega arith)
scatter_index-inside (d ∷ ds) (s ∷ ss) [] cs h k l words = absurd (omega arith)
scatter_index-inside (d ∷ ds) (s ∷ ss) (b ∷ bs) [] h k l words = absurd (omega arith)
scatter_index-inside (d ∷ ds) (s ∷ ss) (b ∷ bs) (c ∷ cs) h k l (word, words) =
    let rest = scatter_index-inside ds ss bs cs (omega arith) (omega arith) (omega arith) words in
    elim (Bool-cases (leb d (b + c))) [
      | inl out ↦ rw (checked-word (b + c) word) (rw out refl)
      | inr in_it ↦ rw (checked-word (b + c) word) (rw (in_it, rest) refl)
    ]

none-ne-some : {A : Type 0} {a : A} → none ≡ some a → ⊥
none-ne-some e = cc

-- Coordinates in the array have its row-major index.
inside-moved :
    (ds bs cs : List ℕ)
    → Inside (moved bs cs) ds
    → inside ds (row_major_strides ds) bs cs ≡ some (dot (moved bs cs) (row_major_strides ds))
unfolding row_major_strides
inside-moved [] [] cs h = refl
inside-moved [] (b ∷ bs) [] h = refl
inside-moved [] (b ∷ bs) (c ∷ cs) h = elim h [ ]
inside-moved (d ∷ ds) [] cs h = elim h [ ]
inside-moved (d ∷ ds) (b ∷ bs) [] h = elim h [ ]
inside-moved (d ∷ ds) (b ∷ bs) (c ∷ cs) (h, hs) =
    let within : leb d (b + c) ≡ false = ground arith in
    rw (row_major_strides-cons d ds) (rw within (rw (inside-moved ds bs cs hs) refl))

-- An index that is found along this axis and the others
axis-inside :
    {P : Type 0} (d n p g : ℕ) (rest : Option ℕ)
    → ((r : ℕ) → rest ≡ some r → P)
    → (if leb d n then none else plus (n * p) rest) ≡ some g
    → (n < d) × P
axis-inside {P} d n p g rest ih e = elim (Bool-cases (leb d n)) [
  | inl out ↦ let no_such : none ≡ some g = rw out at e in absurd (none-ne-some no_such)
  | inr within ↦
      let e' : plus (n * p) rest ≡ some g = rw within at e in
      elim (Option-cases rest) [
        | inl out ↦ let no_such : none ≡ some g = rw out at e' in absurd (none-ne-some no_such)
        | inr (r, hit) ↦ (not_leb→lt d n within, ih r hit)
      ]
]

-- An index that is found is that of coordinates in the array.
moved-inside :
    (ds bs cs : List ℕ) (g : ℕ)
    → length bs ≡ length ds
    → length cs ≡ length ds
    → inside ds (row_major_strides ds) bs cs ≡ some g
    → Inside (moved bs cs) ds
moved-inside [] [] cs g h k e = tt
moved-inside [] (b ∷ bs) cs g h k e = absurd (omega arith)
moved-inside (d ∷ ds) [] cs g h k e = absurd (omega arith)
moved-inside (d ∷ ds) (b ∷ bs) [] g h k e = absurd (omega arith)
moved-inside (d ∷ ds) (b ∷ bs) (c ∷ cs) g h k e =
    axis-inside d (b + c) (product ds) g (inside ds (row_major_strides ds) bs cs)
      (λ r q. moved-inside ds bs cs r (omega arith) (omega arith) q)
      (subst (λ ss. inside (d ∷ ds) ss (b ∷ bs) (c ∷ cs) ≡ some g) (row_major_strides-cons d ds) e)

inside_axis :
    (d n p : ℕ) (rest : Option ℕ) (g : ℕ)
    → ((r : ℕ) → rest ≡ some r → r < p)
    → (if leb d n then none else plus (n * p) rest) ≡ some g
    → g < d * p
inside_axis d n p rest g small e = elim (Bool-cases (leb d n)) [
  | inl out ↦ let no_such : none ≡ some g = rw out at e in absurd (none-ne-some no_such)
  | inr within ↦
      let e' : plus (n * p) rest ≡ some g = rw within at e in
      elim (Option-cases rest) [
        | inl out ↦ let no_such : none ≡ some g = rw out at e' in absurd (none-ne-some no_such)
        | inr (r, hit) ↦
            let sum : some (n * p + r) ≡ some g = rw hit at e' in
            let g_is : n * p + r ≡ g = some_inj sum in
            omega (arith, index-lt n r p d (not_leb→lt d n within) (small r hit))
      ]
]

inside_cons :
    (d : ℕ) (ds base coord : List ℕ) (g : ℕ)
    → ((bs cs : List ℕ) (r : ℕ) → inside ds (row_major_strides ds) bs cs ≡ some r → r < product ds)
    → inside (d ∷ ds) (product ds ∷ row_major_strides ds) base coord ≡ some g
    → g < d * product ds
inside_cons d ds [] coord g ih e = absurd (none-ne-some e)
inside_cons d ds (b ∷ bs) [] g ih e = absurd (none-ne-some e)
inside_cons d ds (b ∷ bs) (c ∷ cs) g ih e =
    inside_axis d (b + c) (product ds) (inside ds (row_major_strides ds) bs cs) g (ih bs cs) e

-- An element that is inside has an index below the number of elements.
inside-lt :
    (dims base coord : List ℕ) (g : ℕ)
    → inside dims (row_major_strides dims) base coord ≡ some g
    → g < product dims
inside-lt [] base coord g e = let zero_is : 0 ≡ g = some_inj e in omega arith
inside-lt (d ∷ ds) base coord g e =
    inside_cons d ds base coord g (inside-lt ds)
      (subst (λ ss. inside (d ∷ ds) ss base coord ≡ some g) (row_major_strides-cons d ds) e)

pub place-within :
    (d : ℕ) (ds chunk_dims base : List ℕ) (es : ℕ) (bytes : List ℕ)
    → length bytes ≡ product (d ∷ ds) * es
    → (lin g : ℕ) → place (d ∷ ds) chunk_dims base lin ≡ some g
    → g * es + es ≤ length bytes
unfolding place
place-within d ds chunk_dims base es bytes whole lin g e =
    let below = inside-lt (d ∷ ds) base _ g e in
    omega (arith, cell_fits es g (product (d ∷ ds)) below)

length-strides : (ds : List ℕ) → length (row_major_strides ds) ≡ length ds
unfolding row_major_strides
length-strides [] = refl
length-strides (d ∷ ds) = rw (row_major_strides-cons d ds) (ap suc (length-strides ds))

length-unravel : (ss : List ℕ) (n : ℕ) → length (unravel ss n) ≡ length ss
length-unravel [] n = refl
length-unravel (s ∷ ss) n = ap suc (length-unravel ss (n % s))

module _ (dims chunk_dims base : List ℕ) (h : length chunk_dims ≡ length dims)
    (k : length base ≡ length dims)
    (words : (cs : List ℕ) → Inside cs chunk_dims → All IsWord (moved base cs)) where
  full : (lin : ℕ) → length (unravel (row_major_strides chunk_dims) lin) ≡ length dims
  full lin = length-unravel (row_major_strides chunk_dims) lin ∙ length-strides chunk_dims ∙ h

  pub gather_element-place :
      (es : ℕ) (bytes : List ℕ) (lin : ℕ) (out : List ℕ)
      → lin < product chunk_dims
      → gather_element bytes dims
          (row_major_strides dims)
          base
          es
          (row_major_strides chunk_dims)
          lin
          out
        ≡ gather_at es bytes (place dims chunk_dims base lin) lin out
  unfolding gather_element place
  gather_element-place es bytes lin out below =
      ap (λ r. r >>= λ g. gather_at es bytes g lin out)
        (gather_index-inside dims _ base _ (length-strides dims) k (full lin)
          (words _ (Inside-unravel chunk_dims lin below)))

  pub scatter_element-place :
      (es : ℕ) (chunk : List ℕ) (lin : ℕ) (out : List ℕ)
      → lin < product chunk_dims
      → scatter_element chunk dims
          (row_major_strides dims)
          base
          es
          (row_major_strides chunk_dims)
          lin
          out
        ≡ scatter_at es chunk (place dims chunk_dims base lin) lin out
  unfolding scatter_element place
  scatter_element-place es chunk lin out below =
      ap (λ r. r >>= λ g. scatter_at es chunk g lin out)
        (scatter_index-inside dims _ base _ (length-strides dims) k (full lin)
          (words _ (Inside-unravel chunk_dims lin below)))

  -- The place of coordinates in the chunk
  pub place-dot :
      (cs : List ℕ)
      → Inside cs chunk_dims
      → Inside (moved base cs) dims
      → place dims chunk_dims base (dot cs (row_major_strides chunk_dims))
        ≡ some (dot (moved base cs) (row_major_strides dims))
  unfolding place
  place-dot cs here there =
      ap (inside dims (row_major_strides dims) base) (unravel-dot cs chunk_dims here)
      ∙ inside-moved dims base cs there

  -- A place that is found is that of coordinates in the chunk.
  pub dot-place :
      (lin e : ℕ)
      → lin < product chunk_dims
      → place dims chunk_dims base lin ≡ some e
      → (cs : List ℕ) × Inside cs chunk_dims
        × Inside (moved base cs) dims
        × (dot (moved base cs) (row_major_strides dims) ≡ e)
  unfolding place
  dot-place lin e below found =
      let cs = unravel (row_major_strides chunk_dims) lin in
      let there = moved-inside dims base cs e k (full lin) found in
      (
        cs,
        Inside-unravel chunk_dims lin below,
        there,
        some_inj (sym (inside-moved dims base cs there) ∙ found),
      )
