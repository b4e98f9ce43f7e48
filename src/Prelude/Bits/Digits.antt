-- ===== src/Prelude/Bits/Digits.antt =====
-- The lowest binary digit of each bit operation, from the recursion on digits that it stands for.
use Prim.Native.Nat.{
  ℕ, zero, suc, ◌+◌, ◌*◌, ◌/◌, ◌%◌, ◌≤◌, ◌<◌, min, max, differ, bit_and, bit_or, bit_xor, digits,
  bitwise,
}
use Prim.Native.Nat.{bit_and-bitwise, bit_or-bitwise, bit_xor-bitwise}
use mathlib.Core.Path.{◌≡◌, refl}
use native.Mathlib.Omega.{arith}

module _ (last : ℕ → ℕ) (op : ℕ → ℕ → ℕ) where
  -- More fuel than digits changes nothing.
  enough : (m n a b : ℕ) → a ≤ m → a ≤ n → digits last op m a b ≡ digits last op n a b
  enough zero n (suc a) b p q = absurd (omega arith)
  enough (suc m) zero (suc a) b p q = absurd (omega arith)
  enough zero zero a b p q = refl
  enough (suc m) (suc n) zero b p q = refl
  enough (suc m) zero zero b p q = refl
  enough zero (suc n) zero b p q = refl
  enough (suc m) (suc n) (suc a) b p q =
      rw (enough m n (suc a / 2) (b / 2) (omega arith) (omega arith))

  lowest :
      (a b : ℕ)
      → bitwise last op (suc a) b ≡ bitwise last op (suc a / 2) (b / 2) * 2 + op (suc a % 2) (b % 2)
  lowest a b = omega (arith, enough a (suc a / 2) (suc a / 2) (b / 2) (omega arith) (omega arith))

pub bit_and-digit : (x y : ℕ) → bit_and x y ≡ bit_and (x / 2) (y / 2) * 2 + min (x % 2) (y % 2)
bit_and-digit (suc x) y = simp bit_and-bitwise (lowest (λ _. 0) min x y)
bit_and-digit zero y = simp bit_and-bitwise (omega arith)

pub bit_or-digit : (x y : ℕ) → bit_or x y ≡ bit_or (x / 2) (y / 2) * 2 + max (x % 2) (y % 2)
bit_or-digit (suc x) y = simp bit_or-bitwise (lowest (λ t. t) max x y)
bit_or-digit zero y = simp bit_or-bitwise (omega arith)

differ_bits : (x y : ℕ) → x < 2 → y < 2 → differ x y ≡ (x + y) % 2
differ_bits zero y p q = omega arith
differ_bits (suc zero) zero p q = refl
differ_bits (suc zero) (suc zero) p q = refl
differ_bits (suc zero) (suc (suc y)) p q = absurd (omega arith)
differ_bits (suc (suc x)) y p q = absurd (omega arith)

pub bit_xor-digit : (a b : ℕ) → bit_xor a b ≡ bit_xor (a / 2) (b / 2) * 2 + (a + b) % 2
bit_xor-digit zero b = simp bit_xor-bitwise (omega arith)
bit_xor-digit (suc a) b = omega (
  arith,
  bit_xor-bitwise (suc a) b,
  bit_xor-bitwise (suc a / 2) (b / 2),
  lowest (λ y. y) differ a b,
  differ_bits (suc a % 2) (b % 2) (omega arith) (omega arith),
)
