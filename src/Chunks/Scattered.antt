-- ===== src/Chunks/Scattered.antt =====
-- What gather_chunk takes of an array, scatter_chunk puts back in its place.
use hdf5_rs.Prelude.{
  All, ℕ, suc, ◌+◌, ◌*◌, ◌<◌, ◌≤◌, ◌≡◌, ◌≢◌, refl, ap, sym, ◌∙◌, arith, List, ◌∷◌, length,
  replicate, length-replicate, inl, inr, le→leb, Option, Option-cases, some, ok, ℕ_discrete,
}
use hdf5_rs.Selection.Linear.{product, row_major_strides, dot}
use hdf5_rs.Selection.Linear.Strides.{Inside, dot-lt}
use hdf5_rs.Chunks.Copy.{
  cell, scatter_at, gather_element, scatter_element, gather_chunk, scatter_chunk,
}
use hdf5_rs.Chunks.Place.{
  IsWord, checked_product_lem, place, place-within, moved, gather_strides_lem, scatter_strides_lem,
  gather_element-place, scatter_element-place, place-dot, dot-place,
}
use hdf5_rs.Chunks.Cells.{
  written, write_at-written, length-written, cell-written_same, cell-written_other,
}
use hdf5_rs.Chunks.Gathered.{
  for_each_runs, some_inj, length-cell, cell_fits, Gathered, older, step-Gathered,
}

module _ (es total : ℕ) (bytes chunk start : List ℕ) (at : ℕ → Option ℕ)
    (within : (lin g : ℕ) → at lin ≡ some g → g * es + es ≤ length bytes)
    (taken : Gathered es total bytes at within total chunk)
    (alike : length start ≡ length bytes) where
  -- The first `k` elements of the chunk are put back; `start` was there before.
  record Scattered (k : ℕ) (out : List ℕ) : Type 0 where
    size : length out ≡ length start
    back : (lin g : ℕ) → lin < k → at lin ≡ some g → cell es out g ≡ cell es bytes g
    rest : (e : ℕ) → ((lin : ℕ) → lin < k → at lin ≢ some e) → cell es out e ≡ cell es start e

  scatter_some :
      (k g : ℕ) (t : List ℕ)
      → k * es + es ≤ length chunk
      → g * es + es ≤ length t
      → scatter_at es chunk (some g) k t ≡ ok (written t (g * es) (cell es chunk k))
  scatter_some k g t there room =
      let whole = length-cell es chunk k there in
      rw (le→leb (k * es + es) (length chunk) there, le→leb (g * es + es) (length t) room)
        (write_at-written t (cell es chunk k) (g * es) (omega arith))

  step-Scattered :
      (k : ℕ) (t : List ℕ)
      → k < total
      → Scattered k t
      → (u : List ℕ) × (scatter_at es chunk (at k) k t ≡ ok u) × Scattered (suc k) u
  step-Scattered k t lt h = elim (Option-cases (at k)) [
    | inl out ↦ (
      t,
      rw out refl,
      record {
        size = h.size;
        back = λ lin g below here.
            h.back lin g (older es total bytes at within k lin g below here out) here;
        rest = λ e never. h.rest e (λ lin below. never lin (omega arith));
      },
    )
    | inr (g, hit) ↦
        let room : g * es + es ≤ length t = omega (arith, within k g hit, h.size) in
        let inside : k * es + es ≤ length chunk =
          omega (arith, cell_fits es k total lt, taken.size) in
        let new = cell es chunk k in
        let whole : length new ≡ es = length-cell es chunk k inside in
        let next = written t (g * es) new in
        let own : cell es next g ≡ cell es bytes g =
          cell-written_same es t new g whole room ∙ taken.kept k g lt hit in
        (
          next,
          rw hit (scatter_some k g t inside room),
          record {
            size = length-written t new (g * es) (omega arith) ∙ h.size;
            back = λ lin e below here. elim (ℕ_discrete e g) [
              | yes same ↦ ap (cell es next) same ∙ own ∙ ap (cell es bytes) (sym same)
              | no ne ↦
                  let earlier : lin ≢ k = λ q. ne (some_inj (sym here ∙ ap at q ∙ hit)) in
                  cell-written_other es t new g whole room e ne
                  ∙ h.back lin e (omega (arith, earlier)) here
            ];
            rest = λ e never.
                let ne : e ≢ g = λ q. never k (omega arith) (hit ∙ ap (λ i. some i) (sym q)) in
                cell-written_other es t new g whole room e ne
                ∙ h.rest e (λ lin below. never lin (omega arith));
          },
        )
  ]

-- The chunk with this corner is taken out of `bytes` and put back into `start`: what the chunk holds,
-- which elements of what comes out are those of `bytes`, and which are still those of `start`.
abbrev pub Restored : (dims chunk_dims base : List ℕ) → ℕ → (bytes start : List ℕ) → Type 0
Restored dims chunk_dims base es bytes start =
    (chunk : List ℕ) × (gather_chunk bytes dims chunk_dims base es
        (replicate (product chunk_dims * es) 0)
      ≡ ok chunk)
    × (out : List ℕ) × (scatter_chunk chunk dims chunk_dims base es start ≡ ok out)
    × (length out ≡ length start)
    × ((cs : List ℕ)
        → Inside cs chunk_dims
        → Inside (moved base cs) dims
        → (cell es chunk (dot cs (row_major_strides chunk_dims))
            ≡ cell es bytes (dot (moved base cs) (row_major_strides dims)))
          × (cell es out (dot (moved base cs) (row_major_strides dims))
              ≡ cell es bytes (dot (moved base cs) (row_major_strides dims))))
    × ((e : ℕ)
        → ((cs : List ℕ)
            → Inside cs chunk_dims
            → Inside (moved base cs) dims
            → dot (moved base cs) (row_major_strides dims) ≢ e)
        → cell es out e ≡ cell es start e)

-- What the code computes of coordinates fits in 64 bits: the strides, the number of elements of the
-- chunk and of the array, and the coordinates of the elements of the chunk in the array.
pub record Fits (dims chunk_dims base : List ℕ) : Type 0 where
  pub strides : All IsWord (row_major_strides dims)
  pub cstrides : All IsWord (row_major_strides chunk_dims)
  pub positive : All (λ c. 1 ≤ c) chunk_dims
  pub total : IsWord (product chunk_dims)
  pub elements : IsWord (product dims)
  pub moved_words : (cs : List ℕ) → Inside cs chunk_dims → All IsWord (moved base cs)

-- A chunk of zeros that gather_chunk fills from an array, and that scatter_chunk writes into an array
-- of the same length, where the chunk and its corner have an entry for each axis of the array, no
-- dimension of the chunk is 0, and strides, counts and coordinates fit in 64 bits: no step panics. The element at coordinates in the chunk, in row-major order, is the one of the first
-- array at the corner plus these coordinates; this element of what comes out is what it was in the
-- first array, and each element that has no coordinates in the chunk is what it was in the second.
pub scatter_chunk-gather_chunk :
    (d : ℕ) (ds chunk_dims base : List ℕ) (es : ℕ) (bytes start : List ℕ)
    → length chunk_dims ≡ length (d ∷ ds)
    → length base ≡ length (d ∷ ds)
    → Fits (d ∷ ds) chunk_dims base
    → length bytes ≡ product (d ∷ ds) * es
    → length start ≡ length bytes
    → Restored (d ∷ ds) chunk_dims base es bytes start
unfolding gather_chunk scatter_chunk
scatter_chunk-gather_chunk d ds chunk_dims base es bytes start same_rank corner fits whole alike =
    let dims = d ∷ ds in
    let total = product chunk_dims in
    let at = place dims chunk_dims base in
    let within = place-within d ds chunk_dims base es bytes whole in
    let gathered =
      for_each_runs (Gathered es total bytes at within)
        (λ lin.
          gather_element bytes dims (row_major_strides dims) base es (row_major_strides chunk_dims)
            lin)
        total 0 total (replicate (total * es) 0)
        (λ k t lt inv.
          let (u, run, after) = step-Gathered es total bytes at within k t lt inv in
          (
            u,
            gather_element-place dims chunk_dims base same_rank corner fits.moved_words es bytes k t
                  lt
                ∙ run,
            after,
          ))
        (omega arith)
        (record {
          size = length-replicate (total * es) 0;
          kept = λ lin g below here. absurd (omega arith);
        }) in
    let taken = gathered.2 in
    let scattered =
      for_each_runs (Scattered es total bytes gathered.0 start at within taken alike)
        (λ lin.
          scatter_element gathered.0 dims (row_major_strides dims) base es
            (row_major_strides chunk_dims) lin)
        total 0 total start
        (λ k t lt inv.
          let (u, run, after) =
            step-Scattered es total bytes gathered.0 start at within taken alike k t lt inv in
          (
            u,
            scatter_element-place dims chunk_dims base same_rank corner fits.moved_words es
                  gathered.0 k t lt
                ∙ run,
            after,
          ))
        (omega arith)
        (record {
          size = refl;
          back = λ lin g below here. absurd (omega arith);
          rest = λ e never. refl;
        }) in
    let put = scattered.2 in
    let product_runs = checked_product_lem chunk_dims fits.positive fits.total in
    (
      gathered.0,
      rw
          (
            gather_strides_lem d ds dims refl fits.strides,
            gather_strides_lem d ds chunk_dims same_rank fits.cstrides,
            product_runs,
          )
          gathered.1,
      scattered.0,
      rw
          (
            scatter_strides_lem d ds dims refl fits.strides,
            scatter_strides_lem d ds chunk_dims same_rank fits.cstrides,
            product_runs,
          )
          scattered.1,
      put.size,
      (λ cs here there.
          let lin = dot cs (row_major_strides chunk_dims) in
          let g = dot (moved base cs) (row_major_strides dims) in
          let below : lin < total = dot-lt cs chunk_dims here in
          let found : at lin ≡ some g =
            place-dot dims chunk_dims base same_rank corner fits.moved_words cs here there in
          (taken.kept lin g below found, put.back lin g below found)),
      (λ e never. put.rest e λ lin below found.
          let (cs, here, there, same) =
            dot-place dims chunk_dims base same_rank corner fits.moved_words lin e below found in
          never cs here there same),
    )
