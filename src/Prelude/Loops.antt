-- ===== src/Prelude/Loops.antt =====
-- Counted loops, with their invariant rule.
use Prim.Native.Nat.{ℕ, zero, suc, ◌+◌, ◌<◌, ◌≤◌}
use mathlib.Core.Path.{◌≡◌}
use native.Mathlib.Omega.{arith}
use hdf5_rs.Prelude.Fallible.{Result, ok, ◌>>=◌, Safe, >>=-Safe}

-- `for k in from..from + rounds { state = body(k, state) }`: recursion on the rounds left.
unfoldable pub for_range {ℓ} : {S : Type ℓ} → ℕ → ℕ → (ℕ → S → S) → S → S
for_range zero from step state = state
for_range (suc rounds) from step state = for_range rounds (suc from) step (step from state)

-- The end of the range is a variable with an equation.
pub for_range_inv {ℓ κ} :
    {S : Type ℓ} (Inv : ℕ → S → Type κ) (step : ℕ → S → S) (rounds from to : ℕ) (state : S)
    → ((k : ℕ) (t : S) → from ≤ k → k < to → Inv k t → Inv (suc k) (step k t))
    → from + rounds ≡ to
    → Inv from state
    → Inv to (for_range rounds from step state)
unfolding for_range
for_range_inv Inv step zero from to state each ends start =
    let same : from ≡ to = omega arith in rw (← same) start
for_range_inv Inv step (suc rounds) from to state each ends start =
    for_range_inv Inv step rounds (suc from) to (step from state)
      (λ k t p q. each k t (omega arith) q) (omega arith)
      (each from state (omega arith) (omega arith) start)

-- The same with a fallible body, upwards and (`for k in (lo..lo + n).rev()`) downwards.
unfoldable pub for_each {ℓ} : {S : Type ℓ} → ℕ → ℕ → (ℕ → S → Result S) → S → Result S
for_each zero i body s = ok s
for_each (suc n) i body s = body i s >>= λ t. for_each n (suc i) body t

unfoldable pub for_down {ℓ} : {S : Type ℓ} → ℕ → ℕ → (ℕ → S → Result S) → S → Result S
for_down zero lo body s = ok s
for_down (suc n) lo body s = body (lo + n) s >>= λ t. for_down n lo body t

pub for_each-Safe {ℓ} :
    {S : Type ℓ} (P : S → Type 0) (body : ℕ → S → Result S) (n i j : ℕ) (s : S)
    → ((k : ℕ) (t : S) → k < j → P t → Safe P (body k t))
    → i + n ≡ j
    → P s
    → Safe P (for_each n i body s)
unfolding for_each
for_each-Safe P body zero i j s keep e h = h
for_each-Safe P body (suc n) i j s keep e h =
    >>=-Safe P P (body i s) (for_each n (suc i) body) (keep i s (omega arith) h)
      (λ t q. for_each-Safe P body n (suc i) j t keep (omega arith) q)

pub for_down-Safe {ℓ} :
    {S : Type ℓ} (P : S → Type 0) (body : ℕ → S → Result S) (n lo : ℕ) (s : S)
    → ((k : ℕ) (t : S) → lo ≤ k → k < lo + n → P t → Safe P (body k t))
    → P s
    → Safe P (for_down n lo body s)
unfolding for_down
for_down-Safe P body zero lo s keep h = h
for_down-Safe P body (suc n) lo s keep h =
    >>=-Safe P P (body (lo + n) s) (for_down n lo body)
      (keep (lo + n) s (omega arith) (omega arith) h)
      (λ t q. for_down-Safe P body n lo t (λ k u a b. keep k u a (omega arith)) q)
