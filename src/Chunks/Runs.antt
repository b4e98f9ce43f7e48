-- ===== src/Chunks/Runs.antt =====
-- A dataset of 5 by 4 elements in chunks of 2 by 3.
use hdf5_rs.Prelude.{panic, All, ◌<◌, ◌^◌, ℕ, ◌≡◌, refl, arith, List, [], ◌∷◌, replicate, some, ok}
use hdf5_rs.Selection.Linear.{row_major_strides, dot}
use hdf5_rs.Selection.Linear.Strides.{Inside}
use hdf5_rs.Chunks.{
  ChunkInfo, chunk_info, chunk_counts, chunk_strides, chunk_offset, disabled_filters,
}
use hdf5_rs.Prelude.Loops.{for_each}
use hdf5_rs.Chunks.Copy.{gather_chunk}
use hdf5_rs.Chunks.Place.{moved}
use hdf5_rs.Chunks.Scattered.{Restored, Fits, scatter_chunk-gather_chunk}
use hdf5_rs.Chunks.Offsets.{grid, corner, chunk_info-dot, Inside-corner}

abbrev dims : List ℕ
dims = 5 ∷ 4 ∷ []

abbrev chunk_dims : List ℕ
chunk_dims = 2 ∷ 3 ∷ []

abbrev coords : List ℕ
coords = 2 ∷ 1 ∷ []

abbrev last : ChunkInfo
last = record { offset = 4 ∷ 3 ∷ []; filter_mask = 0; addr = 0; size = 48 }

last_run : chunk_info dims chunk_dims 8 5 ≡ ok (some last)
unfolding chunk_info chunk_counts chunk_strides chunk_offset
last_run = refl

disabled_run : disabled_filters 0b1010_0000 ≡ 5 ∷ 7 ∷ []
unfolding disabled_filters
disabled_run = refl

chunk_info-dot_example :
    chunk_info dims chunk_dims 8 (dot coords (row_major_strides (grid dims chunk_dims)))
    ≡ ok (some last)
chunk_info-dot_example =
    chunk_info-dot dims chunk_dims coords 8 (omega arith, (omega arith, tt))
      (omega arith, (omega arith, tt))

Inside-corner_example : Inside (corner coords chunk_dims) dims
Inside-corner_example =
    Inside-corner dims chunk_dims coords (omega arith, (omega arith, tt))
      (omega arith, (omega arith, tt)) (omega arith, (omega arith, tt))

-- The last chunk of the table, of which one element lies in it
abbrev table : List ℕ
table =
    1 ∷ 2 ∷ 3 ∷ 4 ∷ 5 ∷ 6 ∷ 7 ∷ 8 ∷ 9 ∷ 10 ∷ 11 ∷ 12 ∷ 13 ∷ 14 ∷ 15 ∷ 16 ∷ 17 ∷ 18 ∷ 19 ∷ 20 ∷ []

gathered_run :
    gather_chunk table dims chunk_dims (4 ∷ 3 ∷ []) 1 (replicate 6 0)
    ≡ ok (20 ∷ 0 ∷ 0 ∷ 0 ∷ 0 ∷ 0 ∷ [])
unfolding gather_chunk for_each
gathered_run = refl

middle_words : (cs : List ℕ) → Inside cs chunk_dims → All (λ n. n < 2 ^ 64) (moved (2 ∷ 0 ∷ []) cs)
middle_words [] h = tt
middle_words (c ∷ []) h = elim h.1 [ ]
middle_words (c ∷ k ∷ []) (h, (q, t)) = (omega arith, (omega arith, tt))
middle_words (c ∷ k ∷ l ∷ cs) h = elim h.1.1 [ ]

middle-Fits : Fits dims chunk_dims (2 ∷ 0 ∷ [])
unfolding row_major_strides
middle-Fits = record {
  strides = (omega arith, (omega arith, tt));
  cstrides = (omega arith, (omega arith, tt));
  positive = (omega arith, (omega arith, tt));
  total = omega arith;
  elements = omega arith;
  moved_words = middle_words;
}

-- A corner that has no entry for the second axis
corner_missing : gather_chunk table dims chunk_dims (4 ∷ []) 1 (replicate 6 0) ≡ panic
unfolding gather_chunk for_each
corner_missing = refl

scatter_chunk-gather_chunk_example : Restored dims chunk_dims (2 ∷ 0 ∷ []) 1 table (replicate 20 0)
scatter_chunk-gather_chunk_example =
    scatter_chunk-gather_chunk 5 (4 ∷ []) chunk_dims (2 ∷ 0 ∷ []) 1 table (replicate 20 0) refl refl
      middle-Fits refl refl
