-- ===== src/Base/Bits.antt =====
-- Bitwise "or" of values whose bits do not meet is their sum.
use Prim.Native.Nat.{
  ℕ, zero, suc, ◌+◌, ◌*◌, ◌/◌, ◌%◌, ◌^◌, ◌≤◌, ◌<◌, max, bit_or, digits, bit_or-bitwise,
}
use mathlib.Core.Path.{◌≡◌, refl, ap, ◌∙◌}
use native.Mathlib.Omega.{arith}
use native.Mathlib.Nat.{pow-suc}

or_digits : ℕ → ℕ → ℕ → ℕ
or_digits n a b = digits (λ y. y) max n a b

or_digits_fuel : (n m a b : ℕ) → a ≤ n → a ≤ m → or_digits n a b ≡ or_digits m a b
unfolding or_digits
or_digits_fuel zero zero a b p q = refl
or_digits_fuel zero (suc m) zero b p q = refl
or_digits_fuel zero (suc m) (suc a) b p q = absurd (omega arith)
or_digits_fuel (suc n) zero zero b p q = refl
or_digits_fuel (suc n) zero (suc a) b p q = absurd (omega arith)
or_digits_fuel (suc n) (suc m) zero b p q = refl
or_digits_fuel (suc n) (suc m) (suc a) b p q =
    omega (arith, or_digits_fuel n m (suc a / 2) (b / 2) (omega arith) (omega arith))

pub bit_or_step : (a b : ℕ) → bit_or a b ≡ bit_or (a / 2) (b / 2) * 2 + max (a % 2) (b % 2)
unfolding or_digits
bit_or_step zero b = omega (arith, bit_or-bitwise 0 b, bit_or-bitwise 0 (b / 2))
bit_or_step (suc a) b = omega (
  arith,
  bit_or-bitwise (suc a) b,
  bit_or-bitwise (suc a / 2) (b / 2),
  or_digits_fuel a (suc a / 2) (suc a / 2) (b / 2) (omega arith) (omega arith),
)

zero-bit_or : (b : ℕ) → bit_or 0 (b * 1) ≡ b
zero-bit_or b = bit_or-bitwise 0 (b * 1) ∙ omega arith

double : (k : ℕ) → 2 ^ suc k ≡ 2 * 2 ^ k
double k = omega (arith, pow-suc 2 k)

doubled_shift : (k b : ℕ) → b * 2 ^ suc k ≡ 2 * (b * 2 ^ k)
doubled_shift k b = omega (arith, ap (λ (t : ℕ). b * t) (double k))

half_of_shift : (k b : ℕ) → b * 2 ^ suc k / 2 ≡ b * 2 ^ k
half_of_shift k b = omega (arith, doubled_shift k b)

-- `a | (b << k)` for `a` below `2 ^ k`.
pub bit_or-shift : (k a b : ℕ) → a < 2 ^ k → bit_or a (b * 2 ^ k) ≡ a + b * 2 ^ k
bit_or-shift zero a b h = omega (arith, zero-bit_or b, ap (λ (t : ℕ). bit_or t (b * 1)) a_zero)
  where
    a_zero : a ≡ 0
    a_zero = omega arith
bit_or-shift (suc k) a b h = omega (
  arith,
  bit_or_step a (b * 2 ^ suc k),
  bit_or-shift k (a / 2) b (omega (arith, double k)),
  ap (λ (t : ℕ). bit_or (a / 2) t) (half_of_shift k b),
  doubled_shift k b,
)
