-- ===== src/Amm/Sqrt/Rounds.antt =====
-- One round of `isqrt_u128_`, with r + x / r below the wrap-around.
use randioum.Base.{
  ℕ, zero, suc, ◌+◌, ◌-◌, ◌*◌, ◌/◌, ◌≤◌, ◌<◌, ◌≡◌, subst, inl, inr, le-or-lt, arith,
}
use native.Mathlib.Nat.{mul-le-mul_right, lt-div-mul-add, div-mul-le_self}

sum_bound : (q p x : ℕ) → suc p ≤ x → q * suc p ≤ x → suc p + q ≤ x + 1
sum_bound zero p x le h = omega arith
sum_bound (suc m) p x le h = omega arith

-- The sum that the loop halves does not exceed x + 1.
pub round_sum : (x p : ℕ) → suc p ≤ x → suc p + x / suc p ≤ x + 1
round_sum x p le = sum_bound (x / suc p) p x le (div-mul-le_self x (suc p))

wide_bound : (d e q : ℕ) → q < e → (q + 1) * (e + 2 * d) ≤ (d + e) * (d + e)
wide_bound d e q h = omega (arith, mul-le-mul_right {m = q + 1} {n = e} (e + 2 * d) (omega arith))

narrow_bound : (d r q : ℕ) → q < r + 2 * d → (q + 1) * r ≤ (d + r) * (d + r)
narrow_bound d r q h = omega (arith, mul-le-mul_right {m = q + 1} {n = r + 2 * d} r (omega arith))

-- The product of two numbers is at most the square of half of their sum.
mean_square : (s q r : ℕ) → r + q < 2 * s → (q + 1) * r ≤ s * s
mean_square s q r h = elim (le-or-lt s r) [
  | inl le ↦
      subst (λ t. (q + 1) * t ≤ s * s) {x = 2 * s - r + 2 * (r - s)} (omega arith)
        (subst (λ t. (q + 1) * (2 * s - r + 2 * (r - s)) ≤ t * t) {x = r - s + (2 * s - r)}
          (omega arith) (wide_bound (r - s) (2 * s - r) q (omega arith)))
  | inr lt ↦
      subst (λ t. (q + 1) * r ≤ t * t) {x = s - r + r} (omega arith)
        (narrow_bound (s - r) r q (omega arith))
]

-- One round does not go below the root.
pub round_above : (x r s : ℕ) → 0 < r → s * s ≤ x → s ≤ (r + x / r) / 2
round_above x r s pos h = elim (le-or-lt (2 * s) (r + x / r)) [
  | inl le ↦ omega arith
  | inr lt ↦ omega (arith, mean_square s (x / r) r lt, lt-div-mul-add {a = x} {b = r} pos)
]

less_quotient : (q r x : ℕ) → q * r ≤ x → x < r * r → q < r
less_quotient q r x lo hi = elim (le-or-lt r q) [
  | inl le ↦ omega (arith, mul-le-mul_right {m = r} {n = q} r le)
  | inr lt ↦ lt
]

-- A round above the root goes down.
pub round_down : (x r : ℕ) → x < r * r → (r + x / r) / 2 < r
round_down x r h = omega (arith, less_quotient (x / r) r x (div-mul-le_self x r) h)

-- A round on the root stays there, unless the next number is the next square.
pub round_root : (x r : ℕ) → 0 < r → r * r ≤ x → x < r * r + 2 * r → (r + x / r) / 2 ≡ r
round_root x r pos lo hi = omega (
  arith,
  at_least (x / r) r x lo (lt-div-mul-add {a = x} {b = r} pos),
  at_most (x / r) r x (div-mul-le_self x r) hi,
)
  where
    at_least : (q s y : ℕ) → s * s ≤ y → y < q * s + s → s ≤ q
    at_least q s y low h = elim (le-or-lt s q) [
      | inl le ↦ le
      | inr lt ↦ omega (arith, mul-le-mul_right {m = q + 1} {n = s} s (omega arith))
    ]

    at_most : (q s y : ℕ) → q * s ≤ y → y < s * s + 2 * s → q < s + 2
    at_most q s y h high = elim (le-or-lt (s + 2) q) [
      | inl le ↦ omega (arith, mul-le-mul_right {m = s + 2} {n = q} s le)
      | inr lt ↦ lt
    ]

-- A round that changes nothing has the root.
pub round_fixed_lo : (x r : ℕ) → (r + x / r) / 2 ≡ r → r * r ≤ x
round_fixed_lo x r h =
    omega (arith, div-mul-le_self x r, mul-le-mul_right {m = r} {n = x / r} r (omega arith))

pub round_fixed_hi : (x r : ℕ) → 0 < r → (r + x / r) / 2 ≡ r → x < r * r + 2 * r
round_fixed_hi x r pos h = omega (
  arith,
  lt-div-mul-add {a = x} {b = r} pos,
  mul-le-mul_right {m = x / r} {n = r + 1} r (omega arith),
)
