-- ===== src/Szip/Interleave.antt =====
-- `deinterleave` undoes `interleave` on whole words.
use hdf5_rs.Prelude.{
  ℕ, ◌+◌, ◌*◌, ◌/◌, ◌%◌, ◌<◌, ◌≡◌, sym, ap, subst, ◌∙◌, arith, List, length, get_or, replicate,
  length-replicate, get_or_ext,
}
use hdf5_rs.Prelude.Arith.{index-lt, column, row, split_index, row-lt, column-lt}
use hdf5_rs.Filters.Shuffle.{scatter}
use hdf5_rs.Filters.Shuffle.Scatter.{length-scatter, scatter_written}
use hdf5_rs.Szip.{interleave, deinterleave}
use native.Mathlib.Nat.{mul_comm}

module _ (src : List ℕ) (ws words : ℕ) (wide : 0 < ws) (whole : length src ≡ words * ws) where
  abbrev columns : List ℕ
  columns =
      scatter (λ i j. j * words + i) (λ i j. get_or src (i * ws + j) 0) words ws
        (replicate (length src) 0)

  length-columns : length columns ≡ length src
  length-columns =
      length-scatter (λ i j. j * words + i) (λ i j. get_or src (i * ws + j) 0) words ws
        (replicate (length src) 0)
      ∙ length-replicate (length src) 0

  columns_at :
      (i j : ℕ) → i < words → j < ws → get_or columns (j * words + i) 0 ≡ get_or src (i * ws + j) 0
  columns_at i j hi hj =
      scatter_written (λ i j. j * words + i) (λ i j. get_or src (i * ws + j) 0) words ws
        (replicate (length src) 0)
        (λ k l hk hl. omega (
          arith,
          index-lt l k words ws hl hk,
          mul_comm ws words,
          length-replicate {A = ℕ} (length src) 0,
        ))
        (λ k l m n hk hl hm hn e. (
          sym (column l k words hk) ∙ ap (λ t. t % words) (sym e) ∙ column n m words hm,
          sym (row l k words hk) ∙ ap (λ t. t / words) (sym e) ∙ row n m words hm,
        ))
        i j hi hj

  abbrev rows : List ℕ
  rows =
      scatter (λ i j. i * ws + j) (λ i j. get_or columns (j * words + i) 0) words ws
        (replicate (length src) 0)

  rows_at : (i j : ℕ) → i < words → j < ws → get_or rows (i * ws + j) 0 ≡ get_or src (i * ws + j) 0
  rows_at i j hi hj =
      scatter_written (λ i j. i * ws + j) (λ i j. get_or columns (j * words + i) 0) words ws
        (replicate (length src) 0)
        (λ k l hk hl.
          omega (arith, index-lt k l ws words hk hl, length-replicate {A = ℕ} (length src) 0))
        (λ k l m n hk hl hm hn e. (
          sym (row k l ws hl) ∙ ap (λ t. t / ws) (sym e) ∙ row m n ws hn,
          sym (column k l ws hl) ∙ ap (λ t. t % ws) (sym e) ∙ column m n ws hn,
        ))
        i j hi hj
      ∙ columns_at i j hi hj

  length-rows : length rows ≡ length src
  length-rows =
      length-scatter (λ i j. i * ws + j) (λ i j. get_or columns (j * words + i) 0) words ws
        (replicate (length src) 0)
      ∙ length-replicate (length src) 0

  rows_same : rows ≡ src
  rows_same = get_or_ext 0 rows src length-rows λ x h.
      let place = split_index x ws in
      subst (λ y. get_or rows y 0 ≡ get_or src y 0) place
        (rows_at (x / ws) (x % ws) (row-lt x words ws (omega (arith, h, length-rows)))
          (column-lt x ws wide))

-- Where the data is whole words, `deinterleave` gives back what `interleave` was given.
pub deinterleave-interleave :
    (src : List ℕ) (ws words : ℕ)
    → 0 < ws
    → length src ≡ words * ws
    → deinterleave (interleave src ws) ws ≡ src
unfolding deinterleave interleave
deinterleave-interleave src ws words wide whole =
    let count : length src / ws ≡ words =
      ap (λ t. t / ws) (whole ∙ omega arith) ∙ row words 0 ws wide in
    rw (count, length-columns src ws words wide whole, count) (rows_same src ws words wide whole)
