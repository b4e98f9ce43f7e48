-- ===== src/Chunks.antt =====
-- hdf5/src/hl/chunks.rs: where the chunk with a given index starts. The size of an element on disk
-- comes from the datatype, which is not modelled: it is an argument.
pub mod Offsets
pub mod Copy
pub mod Cells
pub mod Gathered
pub mod Place
pub mod Scattered
mod Runs
use hdf5_rs.Prelude.{
  ℕ, zero, suc, ◌+◌, ◌-◌, ◌*◌, ◌/◌, ◌%◌, ◌^◌, max, List, [], ◌∷◌, map, length, leb, ltb, Option,
  none, some, if◌then◌else◌, get_or, Result, ok, panic, ◌>>=◌, ◌>>◌, assert, all, Bool, not, ◌==◌,
  bit_and, replicate,
}
use hdf5_rs.Prelude.Arith.{div_ceil}
use hdf5_rs.Selection.Linear.{product, range_from}

pub record ChunkInfo : Type 0 where
  pub offset : List ℕ
  pub filter_mask : ℕ
  pub addr : ℕ
  pub size : ℕ

-- The chunks along each axis; the lists go on as long as both do.
unfoldable pub chunk_counts : List ℕ → List ℕ → Result (List ℕ)
chunk_counts [] chunk_dims = ok []
chunk_counts (d ∷ ds) [] = ok []
chunk_counts (d ∷ ds) (c ∷ cs) = do
  assert (not (c == 0))
  rest ← chunk_counts ds cs
  ok (max (div_ceil d c) 1 ∷ rest)

-- `strides[i] = strides[i + 1] * nchunks[i + 1]`, from the last axis on
unfoldable pub chunk_strides : List ℕ → List ℕ
chunk_strides [] = []
chunk_strides (n ∷ []) = 1 ∷ []
chunk_strides (n ∷ m ∷ ns) = let rest = chunk_strides (m ∷ ns) in (get_or rest 0 1 * m) ∷ rest

-- The decomposition of a row-major index. Out of range of `chunk_dims` the code panics.
unfoldable pub chunk_offset : List ℕ → List ℕ → ℕ → Result (List ℕ)
chunk_offset [] chunk_dims rem = ok []
chunk_offset (s ∷ ss) [] rem = panic
chunk_offset (s ∷ ss) (c ∷ cs) rem = do
  assert (not (s == 0))
  rest ← chunk_offset ss cs (rem % s)
  ok (rem / s * c ∷ rest)

-- `chunk_info` on the dimensions of a chunked dataset.
unfoldable pub chunk_info : (dims chunk_dims : List ℕ) (esize index : ℕ) → Result (Option ChunkInfo)
unfolding chunk_counts chunk_strides chunk_offset
chunk_info dims chunk_dims esize index = do
  nchunks ← chunk_counts dims chunk_dims
  if leb (product nchunks) index then ok none else (do
    offset ← chunk_offset (chunk_strides nchunks) chunk_dims index
    ok (
        some (record {
          offset = offset;
          filter_mask = 0;
          addr = 0;
          size = product chunk_dims * esize;
        })))

-- `disabled_filters`: the bits of the mask that are set.
abbrev keep_set : ℕ → List ℕ → List ℕ
keep_set mask [] = []
keep_set mask (i ∷ is) =
    let rest = keep_set mask is in if bit_and mask (2 ^ i) == 0 then rest else (i ∷ rest)

unfoldable pub disabled_filters : ℕ → List ℕ
disabled_filters mask = keep_set mask (range_from 32 0)
