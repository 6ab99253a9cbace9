-- ===== src/Amm/Sqrt/Hanging.antt =====
-- Where the loop of `isqrt_u128_` never ends: behind a number whose successor is a square, it
-- alternates between the root and the number above it.
use randioum.Base.{
  ℕ, zero, suc, ◌+◌, ◌*◌, ◌/◌, ◌^◌, ◌≤◌, ◌<◌, ◌≡◌, ◌≢◌, refl, inl, inr, le-or-lt, if-elim, ◌==◌,
  none, ap, ◌∙◌, arith,
}
use randioum.Amm.Sqrt.{isqrt_loop, isqrt_u128, Root, narrow_root}
use randioum.Amm.Sqrt.Rounds.{round_fixed_lo, round_fixed_hi}
use randioum.Amm.Sqrt.Ending.{isqrt_u128-suc, loop_step, round_pos, round_le}
use native.Mathlib.Nat.{mul-le-mul, suc-ne-zero}

-- A number that a round gives back would be the root of x, and x + 1 not a square.
never_fixed : (x r n : ℕ) → n * n ≡ x + 1 → 0 < r → (r + x / r) / 2 ≢ r
never_fixed x r n square pos fixed = elim (le-or-lt (r + 1) n) [
  | inl le ↦ omega (
    arith,
    mul-le-mul {n₁ = r + 1} {m₁ = r + 1} {n₂ = n} {m₂ = n} le le,
    round_fixed_hi x r pos fixed,
  )
  | inr lt ↦ omega (
    arith,
    mul-le-mul {n₁ = n} {m₁ = n} {n₂ = r} {m₂ = r} (omega arith) (omega arith),
    round_fixed_lo x r fixed,
  )
]

loop_hangs :
    (rounds x r prev n : ℕ)
    → n * n ≡ x + 1
    → 0 < r
    → r ≤ x
    → x + 1 < 2 ^ 128
    → r ≢ prev
    → isqrt_loop rounds x r prev ≡ none
unfolding isqrt_loop
loop_hangs zero x r prev n square pos le bound differs = refl
loop_hangs (suc rounds) x r prev n square pos le bound differs =
    loop_step rounds x r prev pos le bound
    ∙ if-elim (λ o. o ≡ none) (r == prev) (λ t. elim (differs (ground arith)) [ ])
        (λ f.
          loop_hangs rounds x ((r + x / r) / 2) r n square (round_pos x r pos le)
            (round_le x r pos le) bound (never_fixed x r n square pos))

-- For an x below 2 ^ 128 - 1 for which x + 1 is the square of 2 or more, the loop of `isqrt_u128_`
-- does not end in any number of rounds.
pub isqrt_u128_hangs :
    (rounds x n : ℕ) → 2 ≤ n → n * n ≡ x + 1 → x + 1 < 2 ^ 128 → isqrt_u128 rounds x ≡ Root.hangs
unfolding isqrt_u128
isqrt_u128_hangs rounds zero n two square bound =
    let no : 1 ≤ 0 = omega (arith, mul-le-mul {n₁ = 2} {m₁ = 2} {n₂ = n} {m₂ = n} two two) in
    elim no [ ]
isqrt_u128_hangs rounds (suc y) n two square bound =
    isqrt_u128-suc rounds y
    ∙ ap narrow_root (
        loop_hangs rounds (suc y) (suc y) 0 n square (omega arith) (omega arith) bound
          (suc-ne-zero y))
