-- ===== src/Filters/Fletcher/Spec.antt =====
-- The two sums as plain numbers, with no wrap-around and no folding, and the word they are kept in.
use hdf5_rs.Prelude.{ℕ, ◌+◌, ◌*◌, List, [], ◌∷◌}

-- The sum of the big-endian words and the sum of its prefixes, from `p1` and `p2` on. A single last
-- byte is the high half of a word.
unfoldable pub plain : List ℕ → ℕ → ℕ → ℕ × ℕ
plain [] p1 p2 = (p1, p2)
plain (a ∷ []) p1 p2 = (p1 + a * 256, p2 + (p1 + a * 256))
plain (a ∷ b ∷ rest) p1 p2 = plain rest (p1 + (a * 256 + b)) (p2 + (p1 + (a * 256 + b)))

abbrev pub word_sum : List ℕ → ℕ
word_sum bytes = (plain bytes 0 0).0

abbrev pub prefix_sum : List ℕ → ℕ
prefix_sum bytes = (plain bytes 0 0).1
