-- ===== src/Datatype/Names.antt =====
-- `String::from_utf8_lossy` of the language's library: bytes that are no UTF-8 become U+FFFD, one
-- for each longest prefix of a character.
use hdf5_rs.Prelude.{
  ℕ, zero, suc, ◌≡◌, ◌<◌, ◌≤◌, refl, ap, lt→ltb, [], ◌∷◌, ◌++◌, All, Bool, ◌&&◌, leb, ltb,
  if◌then◌else◌,
}
use hdf5_rs.Arena.{Text}

-- What is read of a character: its bytes so far, how many follow after the next one, and the range
-- of the next one.
pub data Pending : Type 0 where
  start : Pending
  inside : (seen : Text) (more lo hi : ℕ) → Pending

abbrev pub replacement : Text
replacement = 0xef ∷ 0xbf ∷ 0xbd ∷ []

abbrev pub within : ℕ → ℕ → ℕ → Bool
within lo hi c = leb lo c && leb c hi

-- The first byte of a character: what it puts out and what is then pending.
unfoldable pub lead : ℕ → Text × Pending
lead c =
    let one : Text = c ∷ [] in
    if ltb c 0x80
    then (one, start)
    else (if within 0xc2 0xdf c
        then ([], inside one 0 0x80 0xbf)
        else (if within 0xe0 0xe0 c
            then ([], inside one 1 0xa0 0xbf)
            else (if within 0xe1 0xec c
                then ([], inside one 1 0x80 0xbf)
                else (if within 0xed 0xed c
                    then ([], inside one 1 0x80 0x9f)
                    else (if within 0xee 0xef c
                        then ([], inside one 1 0x80 0xbf)
                        else (if within 0xf0 0xf0 c
                            then ([], inside one 2 0x90 0xbf)
                            else (if within 0xf1 0xf3 c
                                then ([], inside one 2 0x80 0xbf)
                                else (if within 0xf4 0xf4 c
                                    then ([], inside one 2 0x80 0x8f)
                                    else (replacement, start)))))))))

abbrev pub accept : Text → ℕ → Text × Pending
accept seen zero = (seen, start)
accept seen (suc more) = ([], inside seen more 0x80 0xbf)

abbrev pub prefixed : Text → Text × Pending → Text × Pending
prefixed out (more, p) = (out ++ more, p)

abbrev pub next_byte : Pending → ℕ → Text × Pending
next_byte start c = lead c
next_byte (inside seen more lo hi) c =
    if within lo hi c then accept (seen ++ (c ∷ [])) more else prefixed replacement (lead c)

unfoldable pub lossy_from : Pending → Text → Text
unfolding lead
lossy_from start [] = []
lossy_from (inside seen more lo hi) [] = replacement
lossy_from p (c ∷ cs) = let (out, q) = next_byte p c in out ++ lossy_from q cs

unfoldable pub lossy : Text → Text
unfolding lossy_from
lossy cs = lossy_from start cs

-- A name that is read as it is written: UTF-8, and without the byte that ends a name.
pub record IsText (cs : Text) : Type 0 where
  pub utf8 : lossy cs ≡ cs
  pub no_end : All (λ c. 1 ≤ c) cs

lossy_ascii : (cs : Text) → All (λ c. c < 0x80) cs → lossy_from start cs ≡ cs
unfolding lossy_from lead
lossy_ascii [] h = refl
lossy_ascii (c ∷ cs) (h, hs) = rw (lt→ltb c 0x80 h) (ap (◌∷◌ c) (lossy_ascii cs hs))

-- Bytes of ASCII but the end of a name are such a name.
pub IsText-ascii : (cs : Text) → All (λ c. 1 ≤ c) cs → All (λ c. c < 0x80) cs → IsText cs
unfolding lossy
IsText-ascii cs full h = record { utf8 = lossy_ascii cs h; no_end = full }
