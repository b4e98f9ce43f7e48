-- ===== src/Checksum/Runs.antt =====
-- The values that the tests of checksum.rs state, and the theorems on blocks.
use hdf5_rs.Prelude.{ℕ, ◌≡◌, ◌≢◌, ap, refl, arith, List, [], ◌∷◌, ◌++◌, get_or}
use hdf5_rs.Checksum.{
  checksum, absorb_blocks, final_mix, start, absorb, mix, stir, stir_a, stir_b, stir_c, rot, settle,
  Lanes,
}
use hdf5_rs.Checksum.Detection.{altered_block}

-- "Four score and seven years ago"
abbrev four_score : List ℕ
four_score =
    70 ∷ 111 ∷ 117 ∷ 114 ∷ 32 ∷ 115 ∷ 99 ∷ 111 ∷ 114 ∷ 101 ∷ 32 ∷ 97 ∷ 110 ∷ 100 ∷ 32 ∷ 115 ∷ 101
    ∷ 118 ∷ 101 ∷ 110 ∷ 32 ∷ 121 ∷ 101 ∷ 97 ∷ 114 ∷ 115 ∷ 32 ∷ 97 ∷ 103 ∷ 111 ∷ []

known_vector : checksum four_score ≡ 0x1777_0551
unfolding checksum absorb_blocks final_mix start absorb mix stir stir_a stir_b stir_c rot settle
known_vector = refl

known_empty : checksum [] ≡ 0xdead_beef
unfolding checksum absorb_blocks final_mix start absorb mix stir stir_a stir_b stir_c rot settle
known_empty = refl

abbrev twelve : List ℕ
twelve = 1 ∷ 2 ∷ 3 ∷ 4 ∷ 5 ∷ 6 ∷ 7 ∷ 8 ∷ 9 ∷ 10 ∷ 11 ∷ 12 ∷ []

abbrev lanes : Lanes
lanes = record { a = 1; b = 2; c = 3 }

abbrev changed : List ℕ
changed = 1 ∷ 2 ∷ 3 ∷ 4 ∷ 5 ∷ 6 ∷ 7 ∷ 8 ∷ 9 ∷ 10 ∷ 11 ∷ 13 ∷ []

last_differs : ◌≢◌ {A = ℕ} 12 13
last_differs = omega arith

differ_at_end : twelve ≢ changed
differ_at_end e = last_differs (ap (λ l. get_or l 11 0) e)

altered_block_example :
    (absorb_blocks 14 (twelve ++ (7 ∷ 8 ∷ [])) lanes).0
    ≢ (absorb_blocks 14 (changed ++ (7 ∷ 8 ∷ [])) lanes).0
altered_block_example =
    altered_block 13 lanes twelve changed (7 ∷ 8 ∷ []) refl refl (omega arith) (omega arith)
      (omega arith) differ_at_end
