-- ===== src/Prelude/Bits.antt =====
-- Shifts, masks and the bit operations at variables: `bit_or` of disjoint fields, `bit_and` with a
-- mask of low bits, and `bit_xor`, at every width.
mod Digits
use Digits.{bit_or-digit, bit_and-digit, bit_xor-digit}
use Prim.Native.Nat.{ℕ, zero, suc, ◌+◌, ◌-◌, ◌*◌, ◌/◌, ◌%◌, ◌^◌, ◌<◌, ◌≤◌, bit_and, bit_or, bit_xor}
use Prim.Native.Nat.{bit_and-bitwise}
use mathlib.Core.Path.{◌≡◌, refl, sym, ap, ◌∙◌}
use native.Mathlib.Nat.{pow-suc, one-le-pow, mul_comm, div-div-eq-div-mul}
use native.Mathlib.Omega.{arith}

-- `<<` without wrap-around, and `>>`.
infixl 75 ◌<<<◌ ◌>>>◌
abbrev pub ◌<<<◌ : ℕ → ℕ → ℕ
x <<< k = x * 2 ^ k

abbrev pub ◌>>>◌ : ℕ → ℕ → ℕ
x >>> k = x / 2 ^ k

-- Induction on a bound for the number whose digits are read.
or_zero_below : (n a : ℕ) → a ≤ n → bit_or a 0 ≡ a
or_zero_below zero a h = let z : a ≡ 0 = omega arith in rw z refl
or_zero_below (suc n) zero h = refl
or_zero_below (suc n) (suc a) h =
    omega (arith, bit_or-digit (suc a) 0, or_zero_below n (suc a / 2) (omega arith))

and_zero_below : (n a : ℕ) → a ≤ n → bit_and a 0 ≡ 0
and_zero_below zero a h = let z : a ≡ 0 = omega arith in rw z refl
and_zero_below (suc n) zero h = refl
and_zero_below (suc n) (suc a) h =
    omega (arith, bit_and-digit (suc a) 0, and_zero_below n (suc a / 2) (omega arith))

double_pow : (q k : ℕ) → q * 2 ^ suc k ≡ 2 * (q * 2 ^ k)
double_pow q k = omega (arith, ap (λ (t : ℕ). q * t) (pow-suc 2 k))

-- A field of `k` bits under a shifted one.
pub bit_or_disjoint : (k q r : ℕ) → r < 2 ^ k → bit_or (q <<< k) r ≡ q * 2 ^ k + r
bit_or_disjoint zero q r h = ground (arith, or_zero_below q q)
bit_or_disjoint (suc k) q r h = ground (
  arith,
  bit_or-digit (q * 2 ^ suc k) r,
  double_pow q k,
  bit_or_disjoint k q (r / 2) (omega (arith, pow-suc 2 k)),
)

mask_fields : (k q r : ℕ) → r < 2 ^ k → bit_and (q * 2 ^ k + r) (2 ^ k - 1) ≡ r
mask_fields zero q r h = omega (arith, and_zero_below (q * 2 ^ 0 + r) (q * 2 ^ 0 + r) (omega arith))
mask_fields (suc k) q r h = ground (
  arith,
  bit_and-digit (q * 2 ^ suc k + r) (2 ^ suc k - 1),
  double_pow q k,
  pow-suc 2 k,
  mask_fields k q (r / 2) (omega (arith, pow-suc 2 k)),
)

pub bit_and_low : (k a : ℕ) → bit_and a (2 ^ k - 1) ≡ a % 2 ^ k
bit_and_low k a = ground (arith, one-le-pow k 2, mask_fields k (a / 2 ^ k) (a % 2 ^ k))

xor_half : (a b : ℕ) → bit_xor a b / 2 ≡ bit_xor (a / 2) (b / 2)
xor_half a b = omega (arith, bit_xor-digit a b)

xor_parity : (a b : ℕ) → bit_xor a b % 2 ≡ (a + b) % 2
xor_parity a b = omega (arith, bit_xor-digit a b)

-- A second `^=` with the same word undoes the first.
pub bit_xor_cancel : (k a b : ℕ) → a < 2 ^ k → b < 2 ^ k → bit_xor (bit_xor a b) b ≡ a
bit_xor_cancel zero a b p q =
    let za : a ≡ 0 = omega arith in let zb : b ≡ 0 = omega arith in rw (za, zb) refl
bit_xor_cancel (suc k) a b p q = omega (
  arith,
  bit_xor-digit (bit_xor a b) b,
  ap (λ (t : ℕ). bit_xor t (b / 2)) (xor_half a b),
  xor_parity a b,
  bit_xor_cancel k (a / 2) (b / 2) (omega (arith, pow-suc 2 k)) (omega (arith, pow-suc 2 k)),
)

pub bit_xor-lt : (k a b : ℕ) → a < 2 ^ k → b < 2 ^ k → bit_xor a b < 2 ^ k
bit_xor-lt zero a b p q =
    let za : a ≡ 0 = omega arith in let zb : b ≡ 0 = omega arith in rw (za, zb) (omega arith)
bit_xor-lt (suc k) a b p q = omega (
  arith,
  bit_xor-digit a b,
  pow-suc 2 k,
  bit_xor-lt k (a / 2) (b / 2) (omega (arith, pow-suc 2 k)) (omega (arith, pow-suc 2 k)),
)

or_comm_below : (n a b : ℕ) → a ≤ n → b ≤ n → bit_or a b ≡ bit_or b a
or_comm_below zero a b p q =
    let za : a ≡ 0 = omega arith in let zb : b ≡ 0 = omega arith in rw (za, zb) refl
or_comm_below (suc n) a b p q = omega (
  arith,
  bit_or-digit a b,
  bit_or-digit b a,
  or_comm_below n (a / 2) (b / 2) (omega arith) (omega arith),
)

pub bit_or_comm : (a b : ℕ) → bit_or a b ≡ bit_or b a
bit_or_comm a b = or_comm_below (a + b) a b (omega arith) (omega arith)

pub zero-bit_and : (b : ℕ) → bit_and 0 b ≡ 0
zero-bit_and b = bit_and-bitwise 0 b

pub bit_or-lt : (k a b : ℕ) → a < 2 ^ k → b < 2 ^ k → bit_or a b < 2 ^ k
bit_or-lt zero a b p q =
    let za : a ≡ 0 = omega arith in let zb : b ≡ 0 = omega arith in rw (za, zb) (omega arith)
bit_or-lt (suc k) a b p q = omega (
  arith,
  bit_or-digit a b,
  pow-suc 2 k,
  bit_or-lt k (a / 2) (b / 2) (omega (arith, pow-suc 2 k)) (omega (arith, pow-suc 2 k)),
)

double_half : (q k : ℕ) → q * 2 ^ suc k / 2 ≡ q * 2 ^ k
double_half q k = omega (arith, double_pow q k)

half_shift : (a k : ℕ) → a / 2 ^ suc k ≡ a / 2 / 2 ^ k
half_shift a k =
    ap (λ (t : ℕ). a / t) (pow-suc 2 k ∙ mul_comm (2 ^ k) 2) ∙ sym (div-div-eq-div-mul a 2 (2 ^ k))

-- A mask of `m` bits above `k` clear ones.
pub bit_and_high : (k m a : ℕ) → bit_and a ((2 ^ m - 1) * 2 ^ k) ≡ a / 2 ^ k % 2 ^ m * 2 ^ k
bit_and_high zero m a =
    let one : (2 ^ m - 1) * 2 ^ 0 ≡ 2 ^ m - 1 = omega arith in
    let whole : a ≡ a / 2 ^ 0 = omega arith in
    ap (bit_and a) one ∙ bit_and_low m a ∙ omega (arith, ap (λ (t : ℕ). t % 2 ^ m) whole)
bit_and_high (suc k) m a = omega (
  arith,
  bit_and-digit a ((2 ^ m - 1) * 2 ^ suc k),
  double_pow (2 ^ m - 1) k,
  ap (bit_and (a / 2)) (double_half (2 ^ m - 1) k),
  bit_and_high k m (a / 2),
  double_pow (a / 2 / 2 ^ k % 2 ^ m) k,
  ap (λ (t : ℕ). t % 2 ^ m * 2 ^ suc k) (half_shift a k),
)

-- All bits turned, and none.
pub all_ones-bit_xor : (k s : ℕ) → s < 2 ^ k → bit_xor (2 ^ k - 1) s ≡ 2 ^ k - 1 - s
all_ones-bit_xor zero s h = let z : s ≡ 0 = omega arith in rw z refl
all_ones-bit_xor (suc k) s h =
    let half : (2 ^ suc k - 1) / 2 ≡ 2 ^ k - 1 = omega (arith, pow-suc 2 k, one-le-pow k 2) in
    omega (
      arith,
      bit_xor-digit (2 ^ suc k - 1) s,
      ap (λ (t : ℕ). bit_xor t (s / 2)) half,
      pow-suc 2 k,
      one-le-pow k 2,
      all_ones-bit_xor k (s / 2) (omega (arith, pow-suc 2 k)),
    )

pub zero-bit_xor : (k s : ℕ) → s < 2 ^ k → bit_xor 0 s ≡ s
zero-bit_xor zero s h = let z : s ≡ 0 = omega arith in rw z refl
zero-bit_xor (suc k) s h =
    omega (arith, bit_xor-digit 0 s, zero-bit_xor k (s / 2) (omega (arith, pow-suc 2 k)))
