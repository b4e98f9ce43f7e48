-- ===== src/Chunks/Copy.antt =====
-- The elements of a chunk, taken out of the array of a dataset and put back: `gather_chunk` of
-- hdf5/src/format/writer.rs and `scatter_chunk` of hdf5/src/format/reader.rs, which
-- have the same computation of indices twice. Out of range of `chunk_dims` or `base` they panic.
-- The sums of coordinates, the strides and the number of elements panic above 64 bits. No stride is
-- 0 where one is divided by, since a chunk with a dimension of 0 has no element.
use hdf5_rs.Prelude.{
  ℕ, ◌+◌, ◌*◌, min, List, [], ◌∷◌, length, take, drop, ◌&&◌, leb, if◌then◌else◌, Option, none, some,
  Result, ok, panic, ◌>>=◌, get_or,
}
use hdf5_rs.Prelude.Bytes.{write_at}
use hdf5_rs.Prelude.Loops.{for_each}
use hdf5_rs.Datatype.{checked}
use hdf5_rs.Selection.Linear.Strides.{unravel}

abbrev pub plus : ℕ → Option ℕ → Option ℕ
plus n none = none
plus n (some m) = some (n + m)

-- `product` of an iterator
abbrev pub checked_product : (total : ℕ) → List ℕ → Result ℕ
checked_product total [] = ok total
checked_product total (c ∷ cs) = checked (total * c) >>= λ next. checked_product next cs

-- `strides` and `cstrides` of `gather_chunk`: an entry for each axis of the array, the first argument
unfoldable pub gather_strides : (dims chunk_dims : List ℕ) → Result (List ℕ)
gather_strides [] chunk_dims = ok []
gather_strides (d ∷ []) chunk_dims = ok (1 ∷ [])
gather_strides (d ∷ e ∷ ds) (c ∷ k ∷ cs) = gather_strides (e ∷ ds) (k ∷ cs) >>= λ rest.
    checked (get_or rest 0 1 * k) >>= λ stride. ok (stride ∷ rest)
gather_strides (d ∷ e ∷ ds) (c ∷ []) = panic
gather_strides (d ∷ e ∷ ds) [] = panic

-- The loop of `gather_chunk` over the axes: the row-major index of the element, none outside the array
unfoldable pub gather_index : (dims strides base coord : List ℕ) → Result (Option ℕ)
gather_index [] strides base coord = ok (some 0)
gather_index (d ∷ ds) (s ∷ ss) (b ∷ bs) (c ∷ cs) =
    let rest = gather_index ds ss bs cs in
    checked (b + c) >>= λ g. if leb d g then ok none else (rest >>= λ r. ok (plus (g * s) r))
gather_index (d ∷ ds) (s ∷ ss) (b ∷ bs) [] = panic
gather_index (d ∷ ds) (s ∷ ss) [] coord = panic
gather_index (d ∷ ds) [] base coord = panic

-- `strides` and `cstrides` of `scatter_chunk`: an entry for each axis of the array, the first argument
unfoldable pub scatter_strides : (dims chunk_dims : List ℕ) → Result (List ℕ)
scatter_strides [] chunk_dims = ok []
scatter_strides (d ∷ []) chunk_dims = ok (1 ∷ [])
scatter_strides (d ∷ e ∷ ds) (c ∷ k ∷ cs) = scatter_strides (e ∷ ds) (k ∷ cs) >>= λ rest.
    checked (get_or rest 0 1 * k) >>= λ stride. ok (stride ∷ rest)
scatter_strides (d ∷ e ∷ ds) (c ∷ []) = panic
scatter_strides (d ∷ e ∷ ds) [] = panic

-- The loop of `scatter_chunk` over the axes: the row-major index of the element, none outside the array
unfoldable pub scatter_index : (dims strides base coord : List ℕ) → Result (Option ℕ)
scatter_index [] strides base coord = ok (some 0)
scatter_index (d ∷ ds) (s ∷ ss) (b ∷ bs) (c ∷ cs) =
    let rest = scatter_index ds ss bs cs in
    checked (b + c) >>= λ g. if leb d g then ok none else (rest >>= λ r. ok (plus (g * s) r))
scatter_index (d ∷ ds) (s ∷ ss) (b ∷ bs) [] = panic
scatter_index (d ∷ ds) (s ∷ ss) [] coord = panic
scatter_index (d ∷ ds) [] base coord = panic

-- The element at a position
abbrev pub cell : (elem_size : ℕ) → List ℕ → ℕ → List ℕ
cell elem_size xs i = take elem_size (drop (i * elem_size) xs)

abbrev pub gather_at : (elem_size : ℕ) → List ℕ → Option ℕ → ℕ → List ℕ → Result (List ℕ)
gather_at elem_size bytes none lin out = ok out
gather_at elem_size bytes (some g) lin out =
    if leb (g * elem_size + elem_size) (length bytes)
    then write_at out (lin * elem_size) (cell elem_size bytes g)
    else ok out

abbrev pub scatter_at : (elem_size : ℕ) → List ℕ → Option ℕ → ℕ → List ℕ → Result (List ℕ)
scatter_at elem_size chunk none lin out = ok out
scatter_at elem_size chunk (some g) lin out =
    if leb (lin * elem_size + elem_size) (length chunk)
      && leb (g * elem_size + elem_size) (length out)
    then write_at out (g * elem_size) (cell elem_size chunk lin)
    else ok out

-- A scalar has one element, and no chunk to speak of.
abbrev pub copy_scalar : ℕ → List ℕ → List ℕ → Result (List ℕ)
copy_scalar elem_size from out =
    write_at out 0 (take (min (min elem_size (length from)) (length out)) from)

-- The body of the loop of `gather_chunk`: the element at position `lin` of the chunk
unfoldable pub gather_element :
    (bytes dims strides base : List ℕ)
    → (elem_size : ℕ) → (cstrides : List ℕ) → ℕ
    → List ℕ
    → Result (List ℕ)
unfolding gather_index
gather_element bytes dims strides base elem_size cstrides lin out =
    gather_index dims strides base (unravel cstrides lin) >>= λ g.
    gather_at elem_size bytes g lin out

unfoldable pub gather_chunk :
    (bytes dims chunk_dims base : List ℕ) → (elem_size : ℕ) → List ℕ → Result (List ℕ)
unfolding gather_strides gather_element
gather_chunk bytes [] chunk_dims base elem_size out = copy_scalar elem_size bytes out
gather_chunk bytes (d ∷ ds) chunk_dims base elem_size out =
    gather_strides (d ∷ ds) (d ∷ ds) >>= λ strides.
    gather_strides (d ∷ ds) chunk_dims >>= λ cstrides. checked_product 1 chunk_dims >>= λ total.
    for_each total 0 (λ lin. gather_element bytes (d ∷ ds) strides base elem_size cstrides lin) out

-- The body of the loop of `scatter_chunk`: the element at position `lin` of the chunk
unfoldable pub scatter_element :
    (chunk dims strides base : List ℕ)
    → (elem_size : ℕ) → (cstrides : List ℕ) → ℕ
    → List ℕ
    → Result (List ℕ)
unfolding scatter_index
scatter_element chunk dims strides base elem_size cstrides lin out =
    scatter_index dims strides base (unravel cstrides lin) >>= λ g.
    scatter_at elem_size chunk g lin out

unfoldable pub scatter_chunk :
    (chunk dims chunk_dims base : List ℕ) → (elem_size : ℕ) → List ℕ → Result (List ℕ)
unfolding scatter_strides scatter_element
scatter_chunk chunk [] chunk_dims base elem_size out = copy_scalar elem_size chunk out
scatter_chunk chunk (d ∷ ds) chunk_dims base elem_size out =
    scatter_strides (d ∷ ds) (d ∷ ds) >>= λ strides.
    scatter_strides (d ∷ ds) chunk_dims >>= λ cstrides. checked_product 1 chunk_dims >>= λ total.
    for_each total 0 (λ lin. scatter_element chunk (d ∷ ds) strides base elem_size cstrides lin) out
