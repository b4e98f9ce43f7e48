-- ===== src/Messages/RoundTrip/Names.antt =====
-- Names that a zero ends.
use hdf5_rs.Prelude.{ℕ, ◌≤◌, ◌≡◌, refl, ap, arith, List, [], ◌∷◌, ◌++◌, false, ◌==◌, ==_iff, All}
use hdf5_rs.Messages.{before_zero, after_zero}

pub before_zero-ended : (cs pad : List ℕ) → All (λ c. 1 ≤ c) cs → before_zero (cs ++ (0 ∷ pad)) ≡ cs
unfolding before_zero
before_zero-ended [] pad h = refl
before_zero-ended (c ∷ cs) pad (h, hs) =
    let ne : (c == 0) ≡ false = grind (arith, ==_iff) in
    rw ne (ap (◌∷◌ c) (before_zero-ended cs pad hs))

pub after_zero-ended : (cs pad : List ℕ) → All (λ c. 1 ≤ c) cs → after_zero (cs ++ (0 ∷ pad)) ≡ pad
unfolding after_zero
after_zero-ended [] pad h = refl
after_zero-ended (c ∷ cs) pad (h, hs) =
    let ne : (c == 0) ≡ false = grind (arith, ==_iff) in rw ne (after_zero-ended cs pad hs)
