-- ===== src/Filters/Shuffle/Scatter.antt =====
-- What the two nested loops leave in the buffer, when no position is written twice.
use hdf5_rs.Prelude.{ℕ, suc, ◌<◌, ◌≡◌, ◌≢◌, refl, ◌∙◌, List, length, get_or, set, arith}
use hdf5_rs.Prelude.{length-set, get_or-set_self, get_or-set_ne, ℕ_discrete}
use hdf5_rs.Filters.Shuffle.{scatter}
use hdf5_rs.Prelude.Loops.{for_range, for_range_inv}

-- The inner loop, at a row's positions `p` and values `v`.
row_loop : (p v : ℕ → ℕ) → ℕ → List ℕ → List ℕ
row_loop p v n out = for_range n 0 (λ i s. set s (p i) (v i)) out

length-row_loop : (p v : ℕ → ℕ) (n : ℕ) (out : List ℕ) → length (row_loop p v n out) ≡ length out
unfolding row_loop
length-row_loop p v n out =
    for_range_inv (λ _ s. length s ≡ length out) (λ i s. set s (p i) (v i)) n 0 n out
      (λ k t _ _ e. length-set t (p k) (v k) ∙ e) (omega arith) refl

row_loop_other :
    (p v : ℕ → ℕ) (n : ℕ) (out : List ℕ) (x : ℕ)
    → ((i : ℕ) → i < n → p i ≢ x)
    → get_or (row_loop p v n out) x 0 ≡ get_or out x 0
unfolding row_loop
row_loop_other p v n out x h =
    for_range_inv (λ _ s. get_or s x 0 ≡ get_or out x 0) (λ i s. set s (p i) (v i)) n 0 n out
      (λ k t _ q e. get_or-set_ne t (p k) x (v k) 0 (h k q) ∙ e) (omega arith) refl

-- Inside the loop: positions up to `k` are written, and the buffer has its length.
record WrittenSelection (p v : ℕ → ℕ) (out : List ℕ) (k : ℕ) (s : List ℕ) : Type 0 where
  size : length s ≡ length out
  holds : (i : ℕ) → i < k → get_or s (p i) 0 ≡ v i

row_loop_written :
    (p v : ℕ → ℕ) (n : ℕ) (out : List ℕ)
    → ((i : ℕ) → i < n → p i < length out)
    → ((i k : ℕ) → i < k → k < n → p k ≢ p i)
    → (i : ℕ) → i < n
    → get_or (row_loop p v n out) (p i) 0 ≡ v i
unfolding row_loop
row_loop_written p v n out inside apart =
    (for_range_inv (WrittenSelection p v out) (λ i s. set s (p i) (v i)) n 0 n out
      (λ k t _ q w. record {
        size = length-set t (p k) (v k) ∙ w.size;
        holds = λ i hi. step k t q w i hi (ℕ_discrete i k);
      })
      (omega arith) (record { size = refl; holds = λ i hi. absurd (omega arith) })).holds
  where
    step :
        (k : ℕ) (t : List ℕ)
        → k < n
        → WrittenSelection p v out k t
        → (i : ℕ) → i < suc k
        → Dec (i ≡ k)
        → get_or (set t (p k) (v k)) (p i) 0 ≡ v i
    step k t q w i hi (yes e) =
        rw e (get_or-set_self t (p k) (v k) 0 (omega (arith, inside k q, w.size)))
    step k t q w i hi (no ne) =
        let below : i < k = omega arith in
        get_or-set_ne t (p k) (p i) (v k) 0 (apart i k below q) ∙ w.holds i below

module _ (p v : ℕ → ℕ → ℕ) (rows n : ℕ) (out : List ℕ) where
  pub length-scatter : length (scatter p v rows n out) ≡ length out
  unfolding scatter row_loop
  length-scatter =
      for_range_inv (λ _ s. length s ≡ length out) (λ j t. row_loop (p j) (v j) n t) rows 0 rows out
        (λ k t _ _ e. length-row_loop (p k) (v k) n t ∙ e) (omega arith) refl

  -- A position outside the image of `p` keeps its byte.
  pub scatter_other :
      (x : ℕ)
      → ((j i : ℕ) → j < rows → i < n → p j i ≢ x)
      → get_or (scatter p v rows n out) x 0 ≡ get_or out x 0
  unfolding scatter row_loop
  scatter_other x h =
      for_range_inv (λ _ s. get_or s x 0 ≡ get_or out x 0) (λ j t. row_loop (p j) (v j) n t) rows 0
        rows out (λ k t _ q e. row_loop_other (p k) (v k) n t x (λ i hi. h k i q hi) ∙ e)
        (omega arith) refl

  record Rows (k : ℕ) (s : List ℕ) : Type 0 where
    size : length s ≡ length out
    holds : (j i : ℕ) → j < k → i < n → get_or s (p j i) 0 ≡ v j i

  -- Two positions inside the table are the same only at the same row and column.
  module _ (inside : (j i : ℕ) → j < rows → i < n → p j i < length out)
      (apart : (j i k l : ℕ)
        → j < rows
        → i < n
        → k < rows
        → l < n
        → p k l ≡ p j i
        → (j ≡ k) × (i ≡ l)) where
    next_row : (k : ℕ) (t : List ℕ) → k < rows → Rows k t → Rows (suc k) (row_loop (p k) (v k) n t)
    next_row k t q w = record {
      size = length-row_loop (p k) (v k) n t ∙ w.size;
      holds = λ j i hj hi. step j i hj hi (ℕ_discrete j k);
    }
      where
        step :
            (j i : ℕ)
            → j < suc k
            → i < n
            → Dec (j ≡ k)
            → get_or (row_loop (p k) (v k) n t) (p j i) 0 ≡ v j i
        step j i hj hi (yes e) = rw e (
            row_loop_written (p k) (v k) n t (λ m hm. omega (arith, inside k m q hm, w.size))
              (λ a b lt hb eq. absurd (omega (arith, (apart k a k b q (omega arith) q hb eq).1))) i
              hi)
        step j i hj hi (no ne) =
            let below : j < k = omega arith in
            row_loop_other (p k) (v k) n t (p j i)
              (λ m hm eq. ne (apart j i k m (omega arith) hi q hm eq).0)
            ∙ w.holds j i below hi

    pub scatter_written :
        (j i : ℕ) → j < rows → i < n → get_or (scatter p v rows n out) (p j i) 0 ≡ v j i
    unfolding scatter row_loop
    scatter_written =
        (for_range_inv Rows (λ j t. row_loop (p j) (v j) n t) rows 0 rows out
          (λ k t _ q w. next_row k t q w) (omega arith)
          (record { size = refl; holds = λ j i hj hi. absurd (omega arith) })).holds
