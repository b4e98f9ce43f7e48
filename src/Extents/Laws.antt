-- ===== src/Extents/Laws.antt =====
-- The number of elements by the code's two ways, and what making a dataspace resizable keeps.
use hdf5_rs.Prelude.{
  ℕ, ◌*◌, ◌≡◌, refl, ap, sym, ◌∙◌, arith, List, [], ◌∷◌, length, true, Bool-cases, inl, inr, all,
  le→leb, Option,
}
use hdf5_rs.Selection.Linear.{product}
use hdf5_rs.Extents.{
  SimpleExtents, simple_dims, simple_resizable, fold_size, simple_size, extent_is_valid, Extents,
  null, scalar, simple, from_simple, dims, size, is_resizable, simple_is_resizable, resizable,
  Shape, zip_extents, dataset_extents, num_elements,
}

fold-product : (acc : ℕ) (s : SimpleExtents) → fold_size acc s ≡ acc * product (simple_dims s)
fold-product acc [] = omega arith
fold-product acc (e ∷ es) = fold-product (acc * e.dim) es ∙ grind arith

zip-dims :
    (ds : List ℕ) (ms : List (Option ℕ))
    → length ds ≡ length ms
    → simple_dims (zip_extents ds ms) ≡ ds
zip-dims [] ms e = refl
zip-dims (d ∷ ds) [] e = absurd (omega arith)
zip-dims (d ∷ ds) (m ∷ ms) e = ap (◌∷◌ d) (zip-dims ds ms (omega arith))

-- The elements that a dataset counts are as many as its extents have, where it has a limit for
-- each dimension.
pub size-dataset_extents :
    (d : Shape) → length d.dims ≡ length d.maxdims → size (dataset_extents d) ≡ num_elements d
unfolding size dataset_extents num_elements
size-dataset_extents d e = elim (Bool-cases d.is_null) [
  | inl n ↦ rw n refl
  | inr n ↦ elim (Bool-cases d.is_scalar) [
    | inl s ↦ rw (n, s) refl
    | inr s ↦
        rw (n, s)
          (fold-product 1 (zip_extents d.dims d.maxdims)
            ∙ ap (λ t. 1 * product t) (zip-dims d.dims d.maxdims e)
            ∙ omega arith)
  ]
]

resized_dims : (ds : List ℕ) → simple_dims (simple_resizable ds) ≡ ds
resized_dims [] = refl
resized_dims (d ∷ ds) = ap (◌∷◌ d) (resized_dims ds)

resized_valid : (ds : List ℕ) → all extent_is_valid (simple_resizable ds) ≡ true
resized_valid [] = refl
resized_valid (d ∷ ds) = rw (le→leb d d (omega arith)) (resized_valid ds)

from_simple-dims : (s : SimpleExtents) → dims (from_simple s) ≡ simple_dims s
unfolding from_simple
from_simple-dims [] = refl
from_simple-dims (e ∷ es) = refl

from_simple-size : (s : SimpleExtents) → size (from_simple s) ≡ simple_size s
unfolding from_simple size
from_simple-size [] = refl
from_simple-size (e ∷ es) = refl

from_resized-is_resizable : (ds : List ℕ) → is_resizable (from_simple (simple_resizable ds)) ≡ true
unfolding is_resizable simple_is_resizable from_simple
from_resized-is_resizable [] = refl
from_resized-is_resizable (d ∷ ds) = refl

-- `resizable` makes any extents resizable and keeps their dimensions and their size.
pub resizable_lem :
    (x : Extents)
    → (is_resizable (resizable x) ≡ true)
      × ((dims (resizable x) ≡ dims x) × (size (resizable x) ≡ size x))
unfolding resizable is_resizable size
resizable_lem null = (refl, (refl, refl))
resizable_lem scalar = (refl, (refl, refl))
resizable_lem (simple s) =
    let ds = simple_dims s in
    (
      from_resized-is_resizable ds,
      (
        from_simple-dims (simple_resizable ds) ∙ resized_dims ds,
        from_simple-size (simple_resizable ds)
            ∙ fold-product 1 (simple_resizable ds)
            ∙ ap (λ t. 1 * product t) (resized_dims ds)
            ∙ sym (fold-product 1 s),
      ),
    )
