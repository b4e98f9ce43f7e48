-- ===== src/Checksum/Detection.antt =====
-- A changed block of 12 bytes is not undone by the blocks behind it.
use hdf5_rs.Prelude.{
  ℕ, zero, suc, ◌<◌, ◌≤◌, ◌≡◌, ◌≢◌, ap, ap₂, sym, ◌∙◌, arith, List, ◌++◌, All, take, drop, length,
  length-append, take-append, drop-append, ltb, lt→ltb, Bool-cases, inl, inr,
}
use hdf5_rs.Prelude.Bytes.{IsByte}
use hdf5_rs.Checksum.{Lanes, absorb, absorb_blocks}
use hdf5_rs.Checksum.Mix.{AreWords, absorb-AreWords, absorb_injective, absorb_separates}

-- The same bytes, absorbed into different lanes, leave different lanes.
same_bytes :
    (n : ℕ) (bytes : List ℕ) (s t : Lanes)
    → AreWords s
    → AreWords t
    → (absorb_blocks n bytes s).0 ≡ (absorb_blocks n bytes t).0
    → s ≡ t
unfolding absorb_blocks
same_bytes zero bytes s t hs ht e = e
same_bytes (suc n) bytes s t hs ht e = elim (Bool-cases (ltb 12 (length bytes))) [
  | inl b ↦ absorb_separates s t (take 12 bytes) hs ht (
      same_bytes n (drop 12 bytes) (absorb (take 12 bytes) s) (absorb (take 12 bytes) t)
        (absorb-AreWords (take 12 bytes) s) (absorb-AreWords (take 12 bytes) t) (rw b at e))
  | inr b ↦ rw b at e
]

first_block :
    (n : ℕ) (s : Lanes) (p rest : List ℕ)
    → length p ≡ 12
    → 1 ≤ length rest
    → absorb_blocks (suc n) (p ++ rest) s ≡ absorb_blocks n rest (absorb p s)
unfolding absorb_blocks
first_block n s p rest e h =
    let more : 12 < length (p ++ rest) = omega (arith, length-append p rest) in
    let front : take 12 (p ++ rest) ≡ p =
      ap (λ k. take k (p ++ rest)) (sym e) ∙ take-append p rest in
    let back : drop 12 (p ++ rest) ≡ rest =
      ap (λ k. drop k (p ++ rest)) (sym e) ∙ drop-append p rest in
    rw (lt→ltb 12 (length (p ++ rest)) more)
      (ap₂ (λ x y. absorb_blocks n x (absorb y s)) back front)

-- From any lanes, two messages of bytes that differ in their first 12 bytes alone, with more bytes
-- behind these, leave different lanes when all blocks of either are absorbed.
pub altered_block :
    (n : ℕ) (s : Lanes) (p q rest : List ℕ)
    → length p ≡ 12
    → length q ≡ 12
    → All IsByte p
    → All IsByte q
    → 1 ≤ length rest
    → p ≢ q
    → (absorb_blocks (suc n) (p ++ rest) s).0 ≢ (absorb_blocks (suc n) (q ++ rest) s).0
altered_block n s p q rest lp lq hp hq h differ e = differ (
    absorb_injective s p q lp lq hp hq (
      same_bytes n rest (absorb p s) (absorb q s) (absorb-AreWords p s) (absorb-AreWords q s) (
        ap (λ t. t.0) (sym (first_block n s p rest lp h))
        ∙ e
        ∙ ap (λ t. t.0) (first_block n s q rest lq h))))
