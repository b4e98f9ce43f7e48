-- ===== src/Checksum/Mix.antt =====
-- No step of `mix` loses anything: each can be taken back, so blocks that differ leave lanes that
-- differ.
use hdf5_rs.Prelude.{
  ℕ, ◌+◌, ◌-◌, ◌*◌, ◌/◌, ◌%◌, ◌^◌, ◌<◌, ◌≤◌, ◌≡◌, refl, ap, ap₂, sym, subst, ◌∙◌, arith, List,
  bit_xor, length, All, All-take, All-drop, take, drop, length-take, length-drop, take_all,
  take-append-drop, drop-add, ◌++◌,
}
use native.Mathlib.Nat.{div-le_self}
use hdf5_rs.Prelude.Bytes.{IsByte, from_le, to_le, to_le-from_le, from_le-lt}
use hdf5_rs.Prelude.Bits.{bit_or-lt, bit_xor-lt, bit_xor_cancel}
use hdf5_rs.Checksum.{
  wrapping_add, wrapping_sub, rot, Lanes, stir, stir_a, stir_b, stir_c, mix, add_words, word_at,
  absorb,
}

abbrev pub IsWord : ℕ → Type 0
IsWord x = x < 2 ^ 32

pub record AreWords (s : Lanes) : Type 0 where
  pub a : IsWord s.a
  pub b : IsWord s.b
  pub c : IsWord s.c

rot-IsWord : (x k : ℕ) → IsWord x → IsWord (rot x k)
unfolding rot
rot-IsWord x k h =
    bit_or-lt 32 (x * 2 ^ k % 2 ^ 32) (x / 2 ^ (32 - k)) (omega arith)
      (omega (arith, div-le_self x (2 ^ (32 - k))))

-- The lines of a step taken back: `z -= y; x ^= rot(z, k); x += z`.
unstir : (k x y z : ℕ) → ℕ × ℕ
unstir k x y z = let old = wrapping_sub z y in (wrapping_add (bit_xor x (rot old k)) old, old)

unstir-stir :
    (k x y z : ℕ)
    → IsWord x
    → IsWord y
    → IsWord z
    → unstir k (stir k x y z).0 y (stir k x y z).1 ≡ (x, z)
unfolding unstir stir
unstir-stir k x y z hx hy hz =
    let old : wrapping_sub (wrapping_add z y) y ≡ z = omega arith in
    let back : bit_xor (bit_xor (wrapping_sub x z) (rot z k)) (rot z k) ≡ wrapping_sub x z =
      bit_xor_cancel 32 (wrapping_sub x z) (rot z k) (omega arith) (rot-IsWord z k hz) in
    let whole : wrapping_add (wrapping_sub x z) z ≡ x = omega arith in
    rw (old, back) (ap (λ t. (t, z)) whole)

stir-IsWord : (k x y z : ℕ) → IsWord z → IsWord (stir k x y z).0 × IsWord (stir k x y z).1
unfolding stir
stir-IsWord k x y z hz =
    (bit_xor-lt 32 (wrapping_sub x z) (rot z k) (omega arith) (rot-IsWord z k hz), omega arith)

-- `mix` run backwards.
unstir_a : ℕ → Lanes → Lanes
unfolding unstir
unstir_a k s = let r = unstir k s.a s.b s.c in record { a = r.0; b = s.b; c = r.1 }

unstir_b : ℕ → Lanes → Lanes
unfolding unstir
unstir_b k s = let r = unstir k s.b s.c s.a in record { a = r.1; b = r.0; c = s.c }

unstir_c : ℕ → Lanes → Lanes
unfolding unstir
unstir_c k s = let r = unstir k s.c s.a s.b in record { a = s.a; b = r.1; c = r.0 }

unfoldable pub unmix : Lanes → Lanes
unfolding unstir_a unstir_b unstir_c
unmix s = unstir_a 4 (unstir_b 6 (unstir_c 8 (unstir_a 16 (unstir_b 19 (unstir_c 4 s)))))

unstir_a-stir_a : (k : ℕ) (s : Lanes) → AreWords s → unstir_a k (stir_a k s) ≡ s
unfolding unstir_a stir_a
unstir_a-stir_a k s h =
    ap (λ (t : ℕ × ℕ). record { a = t.0; b = s.b; c = t.1 }) (unstir-stir k s.a s.b s.c h.a h.b h.c)

unstir_b-stir_b : (k : ℕ) (s : Lanes) → AreWords s → unstir_b k (stir_b k s) ≡ s
unfolding unstir_b stir_b
unstir_b-stir_b k s h =
    ap (λ (t : ℕ × ℕ). record { a = t.1; b = t.0; c = s.c }) (unstir-stir k s.b s.c s.a h.b h.c h.a)

unstir_c-stir_c : (k : ℕ) (s : Lanes) → AreWords s → unstir_c k (stir_c k s) ≡ s
unfolding unstir_c stir_c
unstir_c-stir_c k s h =
    ap (λ (t : ℕ × ℕ). record { a = s.a; b = t.1; c = t.0 }) (unstir-stir k s.c s.a s.b h.c h.a h.b)

stir_a-AreWords : (k : ℕ) (s : Lanes) → AreWords s → AreWords (stir_a k s)
unfolding stir_a
stir_a-AreWords k s h =
    let r = stir-IsWord k s.a s.b s.c h.c in record { a = r.0; b = h.b; c = r.1 }

stir_b-AreWords : (k : ℕ) (s : Lanes) → AreWords s → AreWords (stir_b k s)
unfolding stir_b
stir_b-AreWords k s h =
    let r = stir-IsWord k s.b s.c s.a h.a in record { a = r.1; b = r.0; c = h.c }

stir_c-AreWords : (k : ℕ) (s : Lanes) → AreWords s → AreWords (stir_c k s)
unfolding stir_c
stir_c-AreWords k s h =
    let r = stir-IsWord k s.c s.a s.b h.b in record { a = h.a; b = r.1; c = r.0 }

-- `mix` loses nothing: on lanes of 32 bits a function takes it back.
unmix-mix : (s : Lanes) → AreWords s → unmix (mix s) ≡ s
unfolding unmix mix
unmix-mix s h =
    let h1 = stir_a-AreWords 4 s h in
    let h2 = stir_b-AreWords 6 _ h1 in
    let h3 = stir_c-AreWords 8 _ h2 in
    let h4 = stir_a-AreWords 16 _ h3 in
    let h5 = stir_b-AreWords 19 _ h4 in
    ap (λ t. unstir_a 4 (unstir_b 6 (unstir_c 8 (unstir_a 16 (unstir_b 19 t)))))
      (unstir_c-stir_c 4 _ h5)
    ∙ ap (λ t. unstir_a 4 (unstir_b 6 (unstir_c 8 (unstir_a 16 t)))) (unstir_b-stir_b 19 _ h4)
    ∙ ap (λ t. unstir_a 4 (unstir_b 6 (unstir_c 8 t))) (unstir_a-stir_a 16 _ h3)
    ∙ ap (λ t. unstir_a 4 (unstir_b 6 t)) (unstir_c-stir_c 8 _ h2)
    ∙ ap (unstir_a 4) (unstir_b-stir_b 6 _ h1)
    ∙ unstir_a-stir_a 4 s h

add_words-AreWords : (u v w : ℕ) (s : Lanes) → AreWords (add_words u v w s)
add_words-AreWords u v w s = record { a = omega arith; b = omega arith; c = omega arith }

word_injective : (x u v : ℕ) → IsWord u → IsWord v → wrapping_add x u ≡ wrapping_add x v → u ≡ v
word_injective x u v hu hv e = omega arith

from_le-injective :
    (xs ys : List ℕ)
    → All IsByte xs
    → All IsByte ys
    → length xs ≡ length ys
    → from_le xs ≡ from_le ys
    → xs ≡ ys
from_le-injective xs ys hx hy e h = sym (to_le-from_le xs hx) ∙ ap₂ to_le e h ∙ to_le-from_le ys hy

mix-injective : (s t : Lanes) → AreWords s → AreWords t → mix s ≡ mix t → s ≡ t
mix-injective s t hs ht e = sym (unmix-mix s hs) ∙ ap unmix e ∙ unmix-mix t ht

-- Four bytes of a block are determined by the lane that their word went into.
quarter :
    (at x : ℕ) (p q : List ℕ)
    → at + 4 ≤ length p
    → length p ≡ length q
    → All IsByte p
    → All IsByte q
    → wrapping_add x (word_at p at) ≡ wrapping_add x (word_at q at)
    → take 4 (drop at p) ≡ take 4 (drop at q)
quarter at x p q h e hp hq w =
    let lp : length (take 4 (drop at p)) ≡ 4 =
      omega (arith, length-take 4 (drop at p), length-drop at p) in
    let lq : length (take 4 (drop at q)) ≡ 4 =
      omega (arith, length-take 4 (drop at q), length-drop at q) in
    let bp = All-take IsByte 4 (drop at p) (All-drop IsByte at p hp) in
    let bq = All-take IsByte 4 (drop at q) (All-drop IsByte at q hq) in
    from_le-injective (take 4 (drop at p)) (take 4 (drop at q)) bp bq (lp ∙ sym lq) (
      word_injective x (word_at p at) (word_at q at)
        (subst (λ n. from_le (take 4 (drop at p)) < 256 ^ n) lp
          (from_le-lt (take 4 (drop at p)) bp))
        (subst (λ n. from_le (take 4 (drop at q)) < 256 ^ n) lq
          (from_le-lt (take 4 (drop at q)) bq))
        w)

quarters :
    (p : List ℕ) → length p ≡ 12 → p ≡ take 4 (drop 0 p) ++ (take 4 (drop 4 p) ++ take 4 (drop 8 p))
quarters p e =
    let rest : drop 8 p ≡ drop 4 (drop 4 p) = drop-add 4 4 8 p refl in
    let last : take 4 (drop 8 p) ≡ drop 8 p =
      take_all 4 (drop 8 p) (omega (arith, length-drop 8 p)) in
    sym (take-append-drop 4 p)
    ∙ ap (◌++◌ (take 4 p))
        (sym (take-append-drop 4 (drop 4 p)) ∙ ap (◌++◌ (take 4 (drop 4 p))) (sym rest ∙ sym last))

lane_injective : (x y u : ℕ) → IsWord x → IsWord y → wrapping_add x u ≡ wrapping_add y u → x ≡ y
lane_injective x y u hx hy e = omega arith

same_lanes : (s t : Lanes) → s.a ≡ t.a → s.b ≡ t.b → s.c ≡ t.c → s ≡ t
same_lanes s t ha hb hc = λ i. record { a = ha i; b = hb i; c = hc i }

-- Absorbing is injective in the block, and in the lanes.
pub absorb_injective :
    (s : Lanes) (p q : List ℕ)
    → length p ≡ 12
    → length q ≡ 12
    → All IsByte p
    → All IsByte q
    → absorb p s ≡ absorb q s
    → p ≡ q
unfolding absorb
absorb_injective s p q lp lq hp hq e =
    let same = mix-injective _ _ (add_words-AreWords _ _ _ s) (add_words-AreWords _ _ _ s) e in
    let pq = lp ∙ sym lq in
    quarters p lp
    ∙ ap₂ ◌++◌ (quarter 0 s.a p q (omega arith) pq hp hq (ap (λ (t : Lanes). t.a) same)) (
        ap₂ ◌++◌ (quarter 4 s.b p q (omega arith) pq hp hq (ap (λ (t : Lanes). t.b) same))
          (quarter 8 s.c p q (omega arith) pq hp hq (ap (λ (t : Lanes). t.c) same)))
    ∙ sym (quarters q lq)

pub absorb_separates :
    (s t : Lanes) (p : List ℕ) → AreWords s → AreWords t → absorb p s ≡ absorb p t → s ≡ t
unfolding absorb
absorb_separates s t p hs ht e =
    let same = mix-injective _ _ (add_words-AreWords _ _ _ s) (add_words-AreWords _ _ _ t) e in
    same_lanes s t (lane_injective s.a t.a (word_at p 0) hs.a ht.a (ap (λ (t : Lanes). t.a) same))
      (lane_injective s.b t.b (word_at p 4) hs.b ht.b (ap (λ (t : Lanes). t.b) same))
      (lane_injective s.c t.c (word_at p 8) hs.c ht.c (ap (λ (t : Lanes). t.c) same))

pub absorb-AreWords : (p : List ℕ) (s : Lanes) → AreWords (absorb p s)
unfolding absorb mix
absorb-AreWords p s = stir_c-AreWords 4 _ (
    stir_b-AreWords 19 _ (
      stir_a-AreWords 16 _ (
        stir_c-AreWords 8 _ (
          stir_b-AreWords 6 _ (
            stir_a-AreWords 4 _
              (add_words-AreWords (word_at p 0) (word_at p 4) (word_at p 8) s))))))
