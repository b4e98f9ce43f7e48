-- ===== src/Prelude/Arith.antt =====
-- Division that rounds up, and positions in a table of rows: `r * w + c` determines the row and the
-- column.
use Prim.Native.Nat.{ℕ, zero, suc, ◌+◌, ◌-◌, ◌*◌, ◌/◌, ◌%◌, ◌<◌}
use mathlib.Core.Path.{◌≡◌, ap, ◌∙◌}
use native.Mathlib.Omega.{arith}
use native.Mathlib.Nat.{div-add-mod', mod-lt, add_comm, add-mul-mod_self_right, mod-eq_of_lt}
use native.Mathlib.Nat.{div-lt_iff_lt-mul, mul-add-div_right, div-eq_of_lt}

-- `div_ceil` of Rust's numbers, for a divisor that is not 0
abbrev pub div_ceil : ℕ → ℕ → ℕ
div_ceil n d = (n + d - 1) / d

pub index-lt : (r c w h : ℕ) → r < h → c < w → r * w + c < h * w
index-lt r c w h p q = grind arith

pub column : (r c w : ℕ) → c < w → (r * w + c) % w ≡ c
column r c w h =
    ap (λ k. k % w) (add_comm (r * w) c) ∙ add-mul-mod_self_right c r w ∙ mod-eq_of_lt h

pub row : (r c w : ℕ) → c < w → (r * w + c) / w ≡ r
row r c w h = mul-add-div_right (omega arith) r c ∙ omega (arith, div-eq_of_lt h)

pub split_index : (i w : ℕ) → i / w * w + i % w ≡ i
split_index i w = div-add-mod' i w

pub row-lt : (i h w : ℕ) → i < h * w → i / w < h
row-lt i h zero p = absurd (omega arith)
row-lt i h (suc w) p = (div-lt_iff_lt-mul (omega arith)).1 p

pub column-lt : (i w : ℕ) → 0 < w → i % w < w
column-lt i w p = mod-lt i p
