-- ===== src/Amm/Sqrt/Ending.antt =====
-- When the loop of `isqrt_u128_` ends, and with what.
use randioum.Base.{
  ℕ, zero, suc, ◌+◌, ◌-◌, ltb, ◌*◌, ◌/◌, ◌%◌, ◌^◌, ◌≤◌, ◌<◌, ◌≡◌, ◌≢◌, refl, sym, subst, if-elim,
  ◌∙◌, ap, inl, inr, le-or-lt, ◌==◌, if◌then◌else◌, Option, none, some, some-eq, arith,
}
use mathlib.Core.Option.{none-ne-some}
use native.Mathlib.Nat.{suc-ne-zero}
use randioum.Codec.Bytes.{IsU64}
use randioum.Amm.Sqrt.{isqrt_loop, isqrt_u128, narrow_root, Root}
use randioum.Amm.Sqrt.Rounds.{
  round_sum, round_above, round_down, round_root, round_fixed_lo, round_fixed_hi,
}

-- The sum of a round does not wrap.
pub round_exact :
    (x r : ℕ) → 0 < r → r ≤ x → x + 1 < 2 ^ 128 → (r + x / r) % 2 ^ 128 / 2 ≡ (r + x / r) / 2
round_exact x zero pos le bound = elim pos [ ]
round_exact x (suc p) pos le bound = omega (arith, round_sum x p le)

pub round_pos : (x r : ℕ) → 0 < r → r ≤ x → 0 < (r + x / r) / 2
round_pos x r pos le = omega (arith, round_above x r 1 pos (omega arith))

pub round_le : (x r : ℕ) → 0 < r → r ≤ x → (r + x / r) / 2 ≤ x
round_le x zero pos le = elim pos [ ]
round_le x (suc p) pos le = omega (arith, round_sum x p le)

-- One round of the loop.
pub loop_step :
    (rounds x r prev : ℕ)
    → 0 < r
    → r ≤ x
    → x + 1 < 2 ^ 128
    → isqrt_loop (suc rounds) x r prev
      ≡ (if r == prev then some r else isqrt_loop rounds x ((r + x / r) / 2) r)
unfolding isqrt_loop
loop_step rounds x r prev pos le bound = rw (round_exact x r pos le bound) refl

-- The loop's result is the root.
abbrev pub IsRoot : ℕ → ℕ → Type 0
IsRoot x s = (s * s ≤ x) × (x < (s + 1) * (s + 1))

fixed-IsRoot : (x r : ℕ) → 0 < r → (r + x / r) / 2 ≡ r → IsRoot x r
fixed-IsRoot x r pos h = (round_fixed_lo x r h, omega (arith, round_fixed_hi x r pos h))

-- A root of at most `s` is not passed over by a round.
round_covers : (x r : ℕ) → 0 < r → x < ((r + x / r) / 2 + 1) * ((r + x / r) / 2 + 1)
round_covers x r pos = elim (le-or-lt (((r + x / r) / 2 + 1) * ((r + x / r) / 2 + 1)) x) [
  | inl le ↦ omega (arith, round_above x r ((r + x / r) / 2 + 1) pos le)
  | inr lt ↦ lt
]

next-IsRoot : (x r : ℕ) → 0 < r → (r + x / r) / 2 ≡ r → IsRoot x ((r + x / r) / 2)
next-IsRoot x r pos e = subst (IsRoot x) (sym e) (fixed-IsRoot x r pos e)

loop_fixed : (rounds x r next : ℕ) → next ≡ r → 1 ≤ rounds → isqrt_loop rounds x next r ≡ some r
unfolding isqrt_loop
loop_fixed zero x r next e one = elim one [ ]
loop_fixed (suc rounds) x r next e one = ground arith

-- Without a square behind x, the loop ends from any number above the root.
pub loop_ends :
    (rounds x r prev : ℕ)
    → 0 < r
    → r ≤ x
    → x + 1 < 2 ^ 128
    → x < (r + 1) * (r + 1)
    → (r ≡ prev → IsRoot x r)
    → ((n : ℕ) → 2 ≤ n → n * n ≢ x + 1)
    → r + 2 ≤ rounds
    → (s : ℕ) × IsRoot x s × (isqrt_loop rounds x r prev ≡ some s)
loop_ends zero x r prev pos le bound above same square enough =
    let no : 1 ≤ 0 = omega (arith, enough) in elim no [ ]
loop_ends (suc rounds) x r prev pos le bound above same square enough =
    rw (loop_step rounds x r prev pos le bound) (
      if-elim (λ o. (s : ℕ) × IsRoot x s × (o ≡ some s)) (r == prev)
        (λ t. (r, same (ground arith), refl))
        (λ f. elim (le-or-lt (r * r) x) [
          | inr lt ↦
              loop_ends rounds x ((r + x / r) / 2) r (round_pos x r pos le) (round_le x r pos le)
                bound (round_covers x r pos) (next-IsRoot x r pos) square
                (omega (arith, round_down x r lt))
          | inl lo ↦ elim (le-or-lt (r * r + 2 * r) x) [
            | inl hi ↦ elim (square (r + 1) (omega arith) (omega arith)) [ ]
            | inr hi ↦ (
              r,
              fixed-IsRoot x r pos (round_root x r pos lo hi),
              loop_fixed rounds x r _ (round_root x r pos lo hi) (omega arith),
            )
          ]
        ]))

-- Whenever the loop ends, it is on the root.
pub loop-IsRoot :
    (rounds x r prev s : ℕ)
    → 0 < r
    → r ≤ x
    → x + 1 < 2 ^ 128
    → (r ≡ prev → IsRoot x r)
    → isqrt_loop rounds x r prev ≡ some s
    → IsRoot x s
unfolding isqrt_loop
loop-IsRoot zero x r prev s pos le bound same h = elim (none-ne-some s h) [ ]
loop-IsRoot (suc rounds) x r prev s pos le bound same h =
    if-elim (λ o. o ≡ some s → IsRoot x s) (r == prev)
      (λ t. λ e. subst (IsRoot x) (some-eq e) (same (ground arith)))
      (λ f.
        loop-IsRoot rounds x ((r + x / r) / 2) r s (round_pos x r pos le) (round_le x r pos le)
          bound (next-IsRoot x r pos))
      (sym (loop_step rounds x r prev pos le bound) ∙ h)

pub isqrt_u128-suc :
    (rounds y : ℕ) → isqrt_u128 rounds (suc y) ≡ narrow_root (isqrt_loop rounds (suc y) (suc y) 0)
unfolding isqrt_u128
isqrt_u128-suc rounds y = ground arith

-- The integer square root of a number below 2 ^ 128 - 1 is found in x + 2 rounds, unless x + 1 is
-- the square of 2 or more: it is the number whose square is the last one up to x, and no value if
-- it does not fit 64 bits.
pub isqrt_u128_ends :
    (rounds x : ℕ)
    → x + 1 < 2 ^ 128
    → ((n : ℕ) → 2 ≤ n → n * n ≢ x + 1)
    → x + 2 ≤ rounds
    → (s : ℕ) × IsRoot x s × (isqrt_u128 rounds x ≡ narrow_root (some s))
unfolding isqrt_u128
isqrt_u128_ends rounds zero bound square enough = (0, (omega arith, omega arith), refl)
isqrt_u128_ends rounds (suc y) bound square enough =
    let (s, is, e) =
      loop_ends rounds (suc y) (suc y) 0 (omega arith) (omega arith) bound (omega arith)
        (λ no. elim (suc-ne-zero y no) [ ]) square (omega (arith, enough)) in
    (s, is, isqrt_u128-suc rounds y ∙ ap narrow_root e)

returned : Root → Option (Option ℕ)
returned (Root.root o) = some o
returned Root.hangs = none

narrow_inv : (o : Option ℕ) (s : ℕ) → narrow_root o ≡ Root.root (some s) → (o ≡ some s) × IsU64 s
unfolding returned
narrow_inv none s h = elim (none-ne-some (some s) (ap returned h)) [ ]
narrow_inv (some r) s h =
    if-elim (λ o. o ≡ some s → (some r ≡ some s) × IsU64 s) (ltb (2 ^ 64 - 1) r)
      (λ t. λ e. elim (none-ne-some s e) [ ])
      (λ f. λ e. (e, subst IsU64 (some-eq e) (ground arith))) (some-eq (ap returned h))

-- A number that `isqrt_u128_` returns for an x below 2 ^ 128 - 1, in any number of rounds, is the
-- integer square root, and fits 64 bits.
pub isqrt_u128-IsRoot :
    (rounds x s : ℕ)
    → x + 1 < 2 ^ 128
    → isqrt_u128 rounds x ≡ Root.root (some s)
    → IsRoot x s × IsU64 s
unfolding isqrt_u128 returned
isqrt_u128-IsRoot rounds zero s bound h =
    subst (λ t. IsRoot zero t × IsU64 t) (some-eq (some-eq (ap returned h)))
      ((omega arith, omega arith), omega arith)
isqrt_u128-IsRoot rounds (suc y) s bound h =
    let (e, fits) = narrow_inv _ s (sym (isqrt_u128-suc rounds y) ∙ h) in
    (
      loop-IsRoot rounds (suc y) (suc y) 0 s (omega arith) (omega arith) bound
          (λ no. elim (suc-ne-zero y no) [ ]) e,
      fits,
    )
