-- ===== src/Chunks/Offsets.antt =====
-- The chunk grid: indices and chunk coordinates determine each other, and a chunk that is not
-- empty starts inside the dataset.
use hdf5_rs.Prelude.{
  ℕ, zero, suc, ◌+◌, ◌-◌, ◌*◌, ◌/◌, ◌%◌, ◌<◌, ◌≤◌, ◌≡◌, refl, arith, max, List, [], ◌∷◌, some, ok,
  false, ◌==◌, leb, All,
}
use native.Mathlib.Nat.{div-mul-le_self}
use hdf5_rs.Selection.Linear.{product, row_major_strides, dot}
use hdf5_rs.Selection.Linear.Strides.{Inside, row_major_strides-cons, dot-lt, unravel, unravel-dot}
use hdf5_rs.Chunks.{chunk_counts, chunk_strides, chunk_offset, chunk_info}
use hdf5_rs.Prelude.Arith.{div_ceil}

-- Every chunk dimension is at least 1, and there is one for each axis.
abbrev pub IsGrid : List ℕ → List ℕ → Type 0
IsGrid [] [] = Unit {0}
IsGrid [] (c ∷ cs) = ⊥
IsGrid (d ∷ ds) [] = ⊥
IsGrid (d ∷ ds) (c ∷ cs) = (1 ≤ c) × IsGrid ds cs

-- The number of chunks along each axis, at least one.
abbrev pub grid : List ℕ → List ℕ → List ℕ
grid [] cs = []
grid (d ∷ ds) [] = []
grid (d ∷ ds) (c ∷ cs) = max (div_ceil d c) 1 ∷ grid ds cs

-- The first element of the chunk at given chunk coordinates.
abbrev pub corner : List ℕ → List ℕ → List ℕ
corner [] cs = []
corner (k ∷ ks) [] = []
corner (k ∷ ks) (c ∷ cs) = (k * c) ∷ corner ks cs

not_zero : (n : ℕ) → 1 ≤ n → (n == 0) ≡ false
not_zero n h = ground arith

counts-grid : (ds cs : List ℕ) → IsGrid ds cs → chunk_counts ds cs ≡ ok (grid ds cs)
unfolding chunk_counts
counts-grid [] [] h = refl
counts-grid [] (c ∷ cs) h = elim h [ ]
counts-grid (d ∷ ds) [] h = elim h [ ]
counts-grid (d ∷ ds) (c ∷ cs) (h, hs) = rw (not_zero c h, counts-grid ds cs hs) refl

strides-same : (ns : List ℕ) → chunk_strides ns ≡ row_major_strides ns
unfolding chunk_strides row_major_strides
strides-same [] = refl
strides-same (n ∷ []) = refl
strides-same (n ∷ m ∷ ns) = rw (strides-same (m ∷ ns)) refl

grid-positive : (ds cs : List ℕ) → 1 ≤ product (grid ds cs)
grid-positive [] cs = omega arith
grid-positive (d ∷ ds) [] = omega arith
grid-positive (d ∷ ds) (c ∷ cs) = grind (arith, grid-positive ds cs)

offset-corner :
    (ds cs : List ℕ) (n : ℕ)
    → IsGrid ds cs
    → chunk_offset (row_major_strides (grid ds cs)) cs n
      ≡ ok (corner (unravel (row_major_strides (grid ds cs)) n) cs)
unfolding chunk_offset row_major_strides
offset-corner [] [] n h = refl
offset-corner [] (c ∷ cs) n h = elim h [ ]
offset-corner (d ∷ ds) [] n h = elim h [ ]
offset-corner (d ∷ ds) (c ∷ cs) n (h, hs) =
    let p = product (grid ds cs) in
    let nonzero = not_zero p (grid-positive ds cs) in
    rw
      (
        row_major_strides-cons (max (div_ceil d c) 1) (grid ds cs),
        nonzero,
        offset-corner ds cs (n % p) hs,
      )
      refl

lt→not_leb : (a b : ℕ) → b < a → leb a b ≡ false
lt→not_leb a b h = ground arith

-- For chunk coordinates inside the grid, `chunk_info` at their row-major index gives the corner of
-- that chunk, no filter skipped, no address, and the size of a chunk in bytes, where every chunk
-- dimension is at least 1.
pub chunk_info-dot :
    (dims chunk_dims coords : List ℕ) (esize : ℕ)
    → IsGrid dims chunk_dims
    → Inside coords (grid dims chunk_dims)
    → chunk_info dims chunk_dims esize (dot coords (row_major_strides (grid dims chunk_dims)))
      ≡ ok (
          some (record {
            offset = corner coords chunk_dims;
            filter_mask = 0;
            addr = 0;
            size = product chunk_dims * esize;
          }))
unfolding chunk_info
chunk_info-dot dims chunk_dims coords esize h ins =
    let g = grid dims chunk_dims in
    let n = dot coords (row_major_strides g) in
    rw
      (
        counts-grid dims chunk_dims h,
        lt→not_leb (product g) n (dot-lt coords g ins),
        strides-same g,
        offset-corner dims chunk_dims n h,
        unravel-dot coords g ins,
      )
      refl

ceiling-lt : (k d c : ℕ) → 1 ≤ c → 1 ≤ d → k < max (div_ceil d c) 1 → k * c < d
ceiling-lt zero d c hc hd h = omega arith
ceiling-lt (suc k) d c hc hd h =
    let q : (d + c - 1) / c * c ≤ d + c - 1 = div-mul-le_self (d + c - 1) c in grind arith

-- In a dataset without an axis of dimension 0, the corner of every chunk of the grid is the
-- coordinates of an element.
pub Inside-corner :
    (dims chunk_dims coords : List ℕ)
    → IsGrid dims chunk_dims
    → All (λ d. 1 ≤ d) dims
    → Inside coords (grid dims chunk_dims)
    → Inside (corner coords chunk_dims) dims
Inside-corner [] [] [] h p q = tt
Inside-corner [] [] (k ∷ ks) h p q = elim q [ ]
Inside-corner [] (c ∷ cs) coords h p q = elim h [ ]
Inside-corner (d ∷ ds) [] coords h p q = elim h [ ]
Inside-corner (d ∷ ds) (c ∷ cs) [] h p q = elim q [ ]
Inside-corner (d ∷ ds) (c ∷ cs) (k ∷ ks) (h, hs) (p, ps) (q, qs) =
    (ceiling-lt k d c h p q, Inside-corner ds cs ks hs ps qs)
