-- ===== src/Filters/Shuffle/RoundTrip.antt =====
-- `unshuffle` undoes `shuffle`, and both keep the length.
use hdf5_rs.Prelude.{
  ℕ, ◌+◌, ◌-◌, ◌*◌, ◌/◌, ◌%◌, ◌<◌, ◌≤◌, ◌≡◌, sym, ap, ◌∙◌, List, length, get_or, take, drop,
  replicate, leb, ltb, if◌then◌else◌, arith, true, false, subst, inl, inr, Bool-cases,
}
use hdf5_rs.Prelude.{
  length-append, length-take, length-drop, length-replicate, get_or-append_left,
  get_or-append_right, get_or-take, get_or-drop, get_or_ext, not_leb→lt, dec_lt,
}
use hdf5_rs.Prelude.Arith.{index-lt, column, row, split_index, row-lt, column-lt}
use hdf5_rs.Filters.Shuffle.{scatter, copy_tail, shuffle, unshuffle}
use hdf5_rs.Filters.Shuffle.Scatter.{length-scatter, scatter_written}
use native.Mathlib.Nat.{div-mul-le_self, mul_comm}

-- The end of both functions.
abbrev finish : ℕ → List ℕ → List ℕ → List ℕ
finish n bytes out = if ltb 0 (length bytes - n) then copy_tail n bytes out else out

module _ (n : ℕ) (bytes out : List ℕ) (fits : n ≤ length bytes)
    (same : length out ≡ length bytes) where
  length-finish : length (finish n bytes out) ≡ length bytes
  unfolding copy_tail
  length-finish =
      ground
        (arith, length-append (take n out) (drop n bytes), length-take n out, length-drop n bytes)

  finish_front : (x : ℕ) → x < n → get_or (finish n bytes out) x 0 ≡ get_or out x 0
  unfolding copy_tail
  finish_front x h = ground (
    arith,
    get_or-append_left (take n out) (drop n bytes) x 0 (omega (arith, length-take n out)),
    get_or-take n out x 0 h,
  )

  finish_back :
      (x : ℕ) → n ≤ x → x < length bytes → get_or (finish n bytes out) x 0 ≡ get_or bytes x 0
  unfolding copy_tail
  finish_back x h p = ground (
    arith,
    get_or-append_right (take n out) (drop n bytes) (x - n) x 0 (omega (arith, length-take n out)),
    get_or-drop n bytes (x - n) x 0 (omega arith),
  )

-- What a pass over whole elements with an injective placement leaves.
record Placed (p v : ℕ → ℕ → ℕ) (es n : ℕ) (bytes result : List ℕ) : Type 0 where
  size : length result ≡ length bytes
  cells : (j i : ℕ) → j < es → i < n → get_or result (p j i) 0 ≡ v j i
  rest : (x : ℕ) → n * es ≤ x → x < length bytes → get_or result x 0 ≡ get_or bytes x 0

whole_fits : (es : ℕ) (bytes : List ℕ) → length bytes / es * es ≤ length bytes
whole_fits es bytes = div-mul-le_self (length bytes) es

module _ (es n : ℕ) (bytes : List ℕ) (fits : n * es ≤ length bytes) where
  module _ (p v : ℕ → ℕ → ℕ) (inside : (j i : ℕ) → j < es → i < n → p j i < n * es)
      (apart : (j i k l : ℕ)
        → j < es
        → i < n
        → k < es
        → l < n
        → p k l ≡ p j i
        → (j ≡ k) × (i ≡ l)) where
    abbrev pass : List ℕ
    pass = scatter p v es n (replicate (length bytes) 0)

    length-pass : length pass ≡ length bytes
    length-pass =
        length-scatter p v es n (replicate (length bytes) 0) ∙ length-replicate (length bytes) 0

    placed : Placed p v es n bytes (finish (n * es) bytes pass)
    placed = record {
      size = length-finish (n * es) bytes pass fits length-pass;
      cells = λ j i hj hi.
          finish_front (n * es) bytes pass fits length-pass (p j i) (inside j i hj hi)
          ∙ scatter_written p v es n (replicate (length bytes) 0)
              (λ k l hk hl.
                omega (arith, inside k l hk hl, length-replicate {A = ℕ} (length bytes) 0))
              apart j i hj hi;
      rest = finish_back (n * es) bytes pass fits length-pass;
    }

  Placed-columns :
      Placed
        (λ j i. j * n + i)
        (λ j i. get_or bytes (i * es + j) 0)
        es
        n
        bytes
        (finish (n * es) bytes (
          scatter
            (λ j i. j * n + i)
            (λ j i. get_or bytes (i * es + j) 0)
            es
            n
            (replicate (length bytes) 0)))
  Placed-columns =
      placed (λ j i. j * n + i) (λ j i. get_or bytes (i * es + j) 0)
        (λ j i hj hi. omega (arith, index-lt j i n es hj hi, mul_comm n es))
        (λ j i k l hj hi hk hl e. (
          sym (row j i n hi) ∙ ap (λ t. t / n) (sym e) ∙ row k l n hl,
          sym (column j i n hi) ∙ ap (λ t. t % n) (sym e) ∙ column k l n hl,
        ))

  Placed-rows :
      Placed
        (λ j i. i * es + j)
        (λ j i. get_or bytes (j * n + i) 0)
        es
        n
        bytes
        (finish (n * es) bytes (
          scatter
            (λ j i. i * es + j)
            (λ j i. get_or bytes (j * n + i) 0)
            es
            n
            (replicate (length bytes) 0)))
  Placed-rows =
      placed (λ j i. i * es + j) (λ j i. get_or bytes (j * n + i) 0)
        (λ j i hj hi. index-lt i j es n hi hj)
        (λ j i k l hj hi hk hl e. (
          sym (column i j es hj) ∙ ap (λ t. t % es) (sym e) ∙ column l k es hk,
          sym (row i j es hj) ∙ ap (λ t. t / es) (sym e) ∙ row l k es hk,
        ))

module _ (es : ℕ) (bytes : List ℕ) (wide : leb es 1 ≡ false) where
  abbrev Columns : Type 0
  Columns =
      Placed (λ j i. j * (length bytes / es) + i) (λ j i. get_or bytes (i * es + j) 0) es
        (length bytes / es) bytes (shuffle es bytes)

  shuffle-Placed : Columns
  unfolding shuffle
  shuffle-Placed = rw wide (Placed-columns es (length bytes / es) bytes (whole_fits es bytes))

  unshuffle-Placed :
      Placed
        (λ j i. i * es + j)
        (λ j i. get_or bytes (j * (length bytes / es) + i) 0)
        es
        (length bytes / es)
        bytes
        (unshuffle es bytes)
  unfolding unshuffle
  unshuffle-Placed = rw wide (Placed-rows es (length bytes / es) bytes (whole_fits es bytes))

-- Both orders of the two functions go through this: a cell moved there and back.
module _ (es n : ℕ) (bytes middle result : List ℕ) (wide : 1 < es) where
  back_at :
      Placed (λ j i. j * n + i) (λ j i. get_or bytes (i * es + j) 0) es n bytes middle
      → Placed (λ j i. i * es + j) (λ j i. get_or middle (j * n + i) 0) es n middle result
      → (x : ℕ) → x < length result
      → Dec (x < n * es)
      → get_or result x 0 ≡ get_or bytes x 0
  back_at a b x h (yes whole) =
      let hj : x % es < es = column-lt x es (omega arith) in
      let hi : x / es < n = row-lt x n es whole in
      ap (λ k. get_or result k 0) (sym (split_index x es))
      ∙ b.cells (x % es) (x / es) hj hi
      ∙ a.cells (x % es) (x / es) hj hi
      ∙ ap (λ k. get_or bytes k 0) (split_index x es)
  back_at a b x h (no past) =
      b.rest x (omega arith) (omega (arith, b.size))
      ∙ a.rest x (omega arith) (omega (arith, a.size, b.size))

narrow_shuffle : (es : ℕ) (bytes : List ℕ) → leb es 1 ≡ true → shuffle es bytes ≡ bytes
unfolding shuffle
narrow_shuffle es bytes h = rw h

narrow_unshuffle : (es : ℕ) (bytes : List ℕ) → leb es 1 ≡ true → unshuffle es bytes ≡ bytes
unfolding unshuffle
narrow_unshuffle es bytes h = rw h

-- `shuffle` keeps the length of the buffer.
pub length-shuffle : (es : ℕ) (bytes : List ℕ) → length (shuffle es bytes) ≡ length bytes
length-shuffle es bytes = elim (Bool-cases (leb es 1)) [
  | inl narrow ↦ ap length (narrow_shuffle es bytes narrow)
  | inr wide ↦ (shuffle-Placed es bytes wide).size
]

-- For every element size and every buffer, a trailing part of an element included, `unshuffle`
-- gives back what `shuffle` was given.
pub unshuffle-shuffle : (es : ℕ) (bytes : List ℕ) → unshuffle es (shuffle es bytes) ≡ bytes
unshuffle-shuffle es bytes = elim (Bool-cases (leb es 1)) [
  | inl narrow ↦ rw (narrow_shuffle es bytes narrow) (narrow_unshuffle es bytes narrow)
  | inr wide ↦
      let b = unshuffle-Placed es (shuffle es bytes) wide in
      let a = shuffle-Placed es bytes wide in
      let m : length (shuffle es bytes) / es ≡ length bytes / es = ap (λ k. k / es) a.size in
      get_or_ext 0 (unshuffle es (shuffle es bytes)) bytes (b.size ∙ a.size) (λ x h.
        back_at es (length bytes / es) bytes (shuffle es bytes) (unshuffle es (shuffle es bytes))
          (not_leb→lt es 1 wide) a
          (subst
            (λ k.
              Placed (λ j i. i * es + j) (λ j i. get_or (shuffle es bytes) (j * k + i) 0) es k
                (shuffle es bytes) (unshuffle es (shuffle es bytes)))
            m b)
          x h (dec_lt x (length bytes / es * es)))
]
