-- ===== src/Selection/Linear/Axis.antt =====
-- The coordinates of one axis: the blocks of the slice, in order, where they fit the axis.
use hdf5_rs.Prelude.{
  ℕ, zero, suc, ◌+◌, ◌*◌, ◌<◌, ◌≤◌, ◌≡◌, sym, ap, ◌∙◌, List, [], ◌∷◌, ◌++◌, append_assoc,
  append-nil, arith, ltb, lt→ltb, ltb→lt, All, ok, Safe, ensure-Safe,
}
use hdf5_rs.Prelude.Loops.{for_each, for_each-Safe}
use hdf5_rs.Selection.{RawSlice}
use hdf5_rs.Selection.Linear.{range_from, block_step, axis_coords}

-- `count` blocks of `block` coordinates, `step` apart.
abbrev pub blocks : ℕ → ℕ → ℕ → ℕ → List ℕ
blocks zero base step block = []
blocks (suc count) base step block = range_from block base ++ blocks count (base + step) step block

-- The last block ends on the axis.
abbrev pub Fits : ℕ → ℕ → ℕ → ℕ → ℕ → Type 0
Fits zero base step block dim = Unit {0}
Fits (suc n) base step block dim = base + n * step + block ≤ dim

block_loop :
    (block j dim base : ℕ) (coords : List ℕ)
    → base + j + block ≤ dim
    → for_each block j (block_step dim base) coords ≡ ok (coords ++ range_from block (base + j))
unfolding for_each
block_loop zero j dim base coords h = ap ok (sym (append-nil coords))
block_loop (suc n) j dim base coords h =
    rw
      (
        lt→ltb (base + j) dim (omega arith),
        block_loop n (suc j) dim base (coords ++ ((base + j) ∷ [])) (omega arith),
      )
      (ap ok (
        append_assoc coords ((base + j) ∷ []) (range_from n (base + suc j))
        ∙ ap (λ k. coords ++ ((base + j) ∷ range_from n k)) (omega arith)))

Fits-first : (n base step block dim : ℕ) → Fits (suc n) base step block dim → base + block ≤ dim
Fits-first n base step block dim h = omega arith

Fits-rest :
    (n base step block dim : ℕ)
    → Fits (suc n) base step block dim
    → Fits n (base + step) step block dim
Fits-rest zero base step block dim h = tt
Fits-rest (suc n) base step block dim h = grind arith

axis_loop :
    (n i base dim : ℕ) (s : RawSlice) (coords : List ℕ)
    → base ≡ s.start + i * s.step
    → Fits n base s.step s.block dim
    → for_each n i
        (λ i coords. for_each s.block 0 (block_step dim (s.start + i * s.step)) coords)
        coords
      ≡ ok (coords ++ blocks n base s.step s.block)
unfolding for_each
axis_loop zero i base dim s coords e h = ap ok (sym (append-nil coords))
axis_loop (suc n) i base dim s coords e h =
    rw
      (
        ← e,
        block_loop s.block 0 dim base coords
            (omega (arith, Fits-first n base s.step s.block dim h)),
      )
      (axis_loop n (suc i) (base + s.step) dim s (coords ++ range_from s.block (base + 0))
          (grind arith) (Fits-rest n base s.step s.block dim h)
        ∙ ap ok (
            append_assoc coords (range_from s.block (base + 0))
              (blocks n (base + s.step) s.step s.block)
            ∙ ap (λ k. coords ++ (range_from s.block k ++ blocks n (base + s.step) s.step s.block))
                (omega arith)))

pub axis_coords-blocks :
    (s : RawSlice) (count dim : ℕ)
    → Fits count s.start s.step s.block dim
    → axis_coords s count dim ≡ ok (blocks count s.start s.step s.block)
unfolding axis_coords
axis_coords-blocks s count dim h = axis_loop count 0 s.start dim s [] (omega arith) h

All-snoc :
    (dim c : ℕ) (coords : List ℕ)
    → All (λ c. c < dim) coords
    → c < dim
    → All (λ c. c < dim) (coords ++ (c ∷ []))
All-snoc dim c [] h q = (q, tt)
All-snoc dim c (x ∷ xs) (h, hs) q = (h, All-snoc dim c xs hs q)

-- Every coordinate that comes out lies on the axis.
pub axis_coords-Safe :
    (s : RawSlice) (count dim : ℕ) → Safe (All (λ c. c < dim)) (axis_coords s count dim)
unfolding axis_coords
axis_coords-Safe s count dim =
    let P : List ℕ → Type 0 = All (λ c. c < dim) in
    for_each-Safe P _ count 0 count []
      (λ i coords hi h.
        for_each-Safe P (block_step dim (s.start + i * s.step)) s.block 0 s.block coords
          (λ j cs hj hc.
            ensure-Safe P (ltb (s.start + i * s.step + j) dim) "selection out of bounds"
              (ok (cs ++ ((s.start + i * s.step + j) ∷ [])))
              (λ t. All-snoc dim (s.start + i * s.step + j) cs hc (ltb→lt _ _ t)))
          (omega arith) h)
      (omega arith) tt
