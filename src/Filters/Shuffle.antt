-- ===== src/Filters/Shuffle.antt =====
-- `shuffle` and `unshuffle`: the i-th bytes of all elements stand together.
pub mod Scatter
pub mod RoundTrip
use hdf5_rs.Prelude.{
  ℕ, ◌+◌, ◌-◌, ◌*◌, ◌/◌, List, ◌++◌, length, get_or, set, take, drop, replicate, leb, ltb,
  if◌then◌else◌,
}
use hdf5_rs.Prelude.Loops.{for_range}

-- The two nested loops: `out[p j i] = v j i` for every j below `rows` and i below `n`.
unfoldable pub scatter : (p v : ℕ → ℕ → ℕ) → ℕ → ℕ → List ℕ → List ℕ
unfolding for_range
scatter p v rows n out =
    for_range rows 0 (λ j t. for_range n 0 (λ i s. set s (p j i) (v j i)) t) out

-- Bytes past the last whole element are copied as they are.
unfoldable pub copy_tail : ℕ → List ℕ → List ℕ → List ℕ
copy_tail n data' out = take n out ++ drop n data'

unfoldable pub shuffle : ℕ → List ℕ → List ℕ
unfolding scatter copy_tail
shuffle element_size bytes =
    if leb element_size 1
    then bytes
    else let n = length bytes / element_size in
      let out =
        scatter (λ j i. j * n + i) (λ j i. get_or bytes (i * element_size + j) 0) element_size n
          (replicate (length bytes) 0) in
      if ltb 0 (length bytes - n * element_size)
      then copy_tail (n * element_size) bytes out
      else out

unfoldable pub unshuffle : ℕ → List ℕ → List ℕ
unfolding scatter copy_tail
unshuffle element_size bytes =
    if leb element_size 1
    then bytes
    else let n = length bytes / element_size in
      let out =
        scatter (λ j i. i * element_size + j) (λ j i. get_or bytes (j * n + i) 0) element_size n
          (replicate (length bytes) 0) in
      if ltb 0 (length bytes - n * element_size)
      then copy_tail (n * element_size) bytes out
      else out
