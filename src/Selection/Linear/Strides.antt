-- ===== src/Selection/Linear/Strides.antt =====
-- Coordinates inside a shape and their row-major positions: the numbering is one to one.
use hdf5_rs.Prelude.{
  ℕ, zero, suc, ◌+◌, ◌*◌, ◌/◌, ◌%◌, ◌<◌, ◌≡◌, refl, ap, ap₂, ◌∙◌, List, [], ◌∷◌, arith,
}
use hdf5_rs.Prelude.Arith.{index-lt, column, row, split_index, row-lt, column-lt}
use hdf5_rs.Selection.Linear.{product, row_major_strides, dot}

-- A coordinate for each axis, below its dimension.
abbrev pub Inside : List ℕ → List ℕ → Type 0
Inside [] [] = Unit {0}
Inside [] (d ∷ ds) = ⊥
Inside (c ∷ cs) [] = ⊥
Inside (c ∷ cs) (d ∷ ds) = (c < d) × Inside cs ds

-- The stride of an axis is the number of elements of the axes right of it.
pub row_major_strides-cons :
    (d : ℕ) (ds : List ℕ) → row_major_strides (d ∷ ds) ≡ product ds ∷ row_major_strides ds
unfolding row_major_strides
row_major_strides-cons d [] = refl
row_major_strides-cons d (e ∷ ds) =
    rw (row_major_strides-cons e ds) (ap (λ n. n ∷ product ds ∷ row_major_strides ds) (grind arith))

pub dot-cons :
    (c d : ℕ) (cs ds : List ℕ)
    → dot (c ∷ cs) (row_major_strides (d ∷ ds)) ≡ c * product ds + dot cs (row_major_strides ds)
dot-cons c d cs ds = rw (row_major_strides-cons d ds) refl

-- The position of coordinates inside the shape is one of the array.
pub dot-lt : (cs ds : List ℕ) → Inside cs ds → dot cs (row_major_strides ds) < product ds
dot-lt [] [] h = omega arith
dot-lt [] (d ∷ ds) h = elim h [ ]
dot-lt (c ∷ cs) [] h = elim h [ ]
dot-lt (c ∷ cs) (d ∷ ds) (h, hs) =
    rw (dot-cons c d cs ds)
      (index-lt c (dot cs (row_major_strides ds)) (product ds) d h (dot-lt cs ds hs))

-- Division and remainder by one stride after the other.
abbrev pub unravel : List ℕ → ℕ → List ℕ
unravel [] n = []
unravel (s ∷ ss) n = (n / s) ∷ unravel ss (n % s)

pub unravel-dot :
    (cs ds : List ℕ)
    → Inside cs ds
    → unravel (row_major_strides ds) (dot cs (row_major_strides ds)) ≡ cs
unfolding row_major_strides
unravel-dot [] [] h = refl
unravel-dot [] (d ∷ ds) h = elim h [ ]
unravel-dot (c ∷ cs) [] h = elim h [ ]
unravel-dot (c ∷ cs) (d ∷ ds) (h, hs) =
    let r = dot cs (row_major_strides ds) in
    rw (row_major_strides-cons d ds) (
      ap₂ ◌∷◌ (row c r (product ds) (dot-lt cs ds hs)) (
        ap (unravel (row_major_strides ds)) (column c r (product ds) (dot-lt cs ds hs))
        ∙ unravel-dot cs ds hs))

factor-pos : (d p n : ℕ) → n < d * p → 0 < p
factor-pos d zero n h = absurd (omega arith)
factor-pos d (suc p) n h = omega arith

pub Inside-unravel :
    (ds : List ℕ) (n : ℕ) → n < product ds → Inside (unravel (row_major_strides ds) n) ds
unfolding row_major_strides
Inside-unravel [] n h = tt
Inside-unravel (d ∷ ds) n h =
    let pos : 0 < product ds = factor-pos d (product ds) n h in
    rw (row_major_strides-cons d ds)
      (row-lt n d (product ds) h, Inside-unravel ds (n % product ds) (column-lt n (product ds) pos))

pub dot-unravel :
    (ds : List ℕ) (n : ℕ)
    → n < product ds
    → dot (unravel (row_major_strides ds) n) (row_major_strides ds) ≡ n
unfolding row_major_strides
dot-unravel [] n h = omega arith
dot-unravel (d ∷ ds) n h =
    let pos : 0 < product ds = factor-pos d (product ds) n h in
    rw (row_major_strides-cons d ds) (
      rw (dot-unravel ds (n % product ds) (column-lt n (product ds) pos))
        (split_index n (product ds)))
