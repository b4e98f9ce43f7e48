-- ===== src/Chunks/Gathered.antt =====
-- Scattering what was gathered.
use hdf5_rs.Prelude.{
  ℕ, zero, suc, ◌+◌, ◌*◌, ◌<◌, ◌≤◌, ◌≡◌, refl, ap, sym, subst, ◌∙◌, arith, List, length,
  length-take, length-drop, drop, inl, inr, le→leb, Option, Option-cases, none, some, Result, ok,
  ℕ_discrete,
}
use hdf5_rs.Prelude.Loops.{for_each}
use hdf5_rs.Chunks.Copy.{cell, gather_at}
use hdf5_rs.Chunks.Cells.{
  written, write_at-written, length-written, cell-written_same, cell-written_other,
}

-- A loop that never fails and keeps an invariant
pub for_each_runs :
    {S : Type 0} (Inv : ℕ → S → Type 0) (body : ℕ → S → Result S) (n i total : ℕ) (s : S)
    → ((k : ℕ) (t : S) → k < total → Inv k t → (u : S) × (body k t ≡ ok u) × Inv (suc k) u)
    → i + n ≡ total
    → Inv i s
    → (u : S) × (for_each n i body s ≡ ok u) × Inv total u
unfolding for_each
for_each_runs Inv body zero i total s step e h =
    let same : i ≡ total = omega arith in (s, refl, subst (λ k. Inv k s) same h)
for_each_runs Inv body (suc n) i total s step e h =
    let one = step i s (omega arith) h in
    let rest = for_each_runs Inv body n (suc i) total one.0 step (omega arith) one.2 in
    (rest.0, rw one.1 rest.1, rest.2)

pub some_inj : {a b : ℕ} → some a ≡ some b → a ≡ b
some_inj e = cc

pub length-cell :
    (es : ℕ) (xs : List ℕ) (i : ℕ) → i * es + es ≤ length xs → length (cell es xs i) ≡ es
length-cell es xs i h = omega (arith, length-take es (drop (i * es) xs), length-drop (i * es) xs)

pub cell_fits : (es i n : ℕ) → i < n → i * es + es ≤ n * es
cell_fits es i n h = grind arith

module _ (es total : ℕ) (bytes : List ℕ) (at : ℕ → Option ℕ)
    (within : (lin g : ℕ) → at lin ≡ some g → g * es + es ≤ length bytes) where
  -- The first `k` elements are gathered.
  pub record Gathered (k : ℕ) (chunk : List ℕ) : Type 0 where
    pub size : length chunk ≡ total * es
    pub kept : (lin g : ℕ) → lin < k → at lin ≡ some g → cell es chunk lin ≡ cell es bytes g

  gather_some :
      (k g : ℕ) (t : List ℕ)
      → g * es + es ≤ length bytes
      → k * es + es ≤ length t
      → gather_at es bytes (some g) k t ≡ ok (written t (k * es) (cell es bytes g))
  gather_some k g t there room =
      let whole = length-cell es bytes g there in
      rw (le→leb (g * es + es) (length bytes) there)
        (write_at-written t (cell es bytes g) (k * es) (omega arith))

  -- A position that is some element is not one that is none.
  pub older : (k lin g : ℕ) → lin < suc k → at lin ≡ some g → at k ≡ none → lin < k
  older k lin g below here out = elim (ℕ_discrete lin k) [
    | yes e ↦ absurd (let no_such : ⊥ = cc in no_such)
    | no ne ↦ omega (arith, ne)
  ]

  pub step-Gathered :
      (k : ℕ) (t : List ℕ)
      → k < total
      → Gathered k t
      → (u : List ℕ) × (gather_at es bytes (at k) k t ≡ ok u) × Gathered (suc k) u
  step-Gathered k t lt h = elim (Option-cases (at k)) [
    | inl out ↦ (
      t,
      rw out refl,
      record {
        size = h.size;
        kept = λ lin g below here. h.kept lin g (older k lin g below here out) here;
      },
    )
    | inr (g, hit) ↦
        let there = within k g hit in
        let inside : k * es + es ≤ total * es = cell_fits es k total lt in
        let room : k * es + es ≤ length t = omega (arith, h.size) in
        let new = cell es bytes g in
        let whole : length new ≡ es = length-cell es bytes g there in
        let next = written t (k * es) new in
        (
          next,
          rw hit (gather_some k g t there room),
          record {
            size = length-written t new (k * es) (omega arith) ∙ h.size;
            kept = λ lin e below here. elim (ℕ_discrete lin k) [
              | yes same ↦
                  let elem : e ≡ g = some_inj (sym here ∙ ap at same ∙ hit) in
                  ap (cell es next) same
                  ∙ cell-written_same es t new k whole room
                  ∙ ap (cell es bytes) (sym elem)
              | no ne ↦
                  cell-written_other es t new k whole room lin ne
                  ∙ h.kept lin e (omega (arith, ne)) here
            ];
          },
        )
  ]
