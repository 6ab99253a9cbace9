-- ===== src/Staking/Unbonding.antt =====
-- Stake that is unbonded: where it goes, and when it is lost.
use randioum.Base.{
  ℕ, ◌+◌, ◌%◌, ◌^◌, ◌≤◌, ◌<◌, ◌≡◌, refl, Bool, true, false, ltb, if-elim, not_lt→le, ltb→lt, arith,
}
use randioum.Codec.Bytes.{IsU64}
use randioum.Staking.{StakePosition, unbond_position}

-- What a position and its answer to an unbonding have in common, on every branch.
pub data IsUnbonded (pos : StakePosition) (amount : ℕ) : Bool × StakePosition → Type 0 where
  moved :
      {pos' : StakePosition}
      → amount ≤ pos.bonded
      → pos'.bonded + amount ≡ pos.bonded
      → pos'.unbonding ≡ pos.unbonding + amount
      → IsUnbonded pos amount (true, pos')
  too_much : pos.bonded < amount → IsUnbonded pos amount (false, pos)
  lost :
      {pos' : StakePosition}
      → amount ≤ pos.bonded
      → 2 ^ 64 ≤ pos.unbonding + amount
      → pos'.bonded + amount ≡ pos.bonded
      → pos'.unbonding ≡ pos.unbonding
      → IsUnbonded pos amount (false, pos')

-- Unbonding from a position with 64-bit amounts has three outcomes: the amount moves from the
-- bonded to the unbonding stake, and the answer is true; the amount is more than is bonded, and
-- nothing changes; or the unbonding stake would not fit 64 bits, and the amount is gone from the
-- bonded stake although the answer is false.
pub unbond_position-IsUnbonded :
    (delay : ℕ) (pos : StakePosition) (amount current_height : ℕ)
    → IsU64 pos.unbonding
    → IsU64 amount
    → IsUnbonded pos amount (unbond_position delay pos amount current_height)
unfolding unbond_position
unbond_position-IsUnbonded delay pos amount current_height fits0 fits1 =
    if-elim (IsUnbonded pos amount) (ltb pos.bonded amount)
      (λ t. IsUnbonded.too_much (ltb→lt pos.bonded amount t))
      (λ f.
        if-elim (IsUnbonded pos amount) (ltb ((pos.unbonding + amount) % 2 ^ 64) pos.unbonding)
          (λ t.
            IsUnbonded.lost (not_lt→le pos.bonded amount f)
              (wraps pos.unbonding amount fits0 fits1 t)
              (omega (arith, not_lt→le pos.bonded amount f)) refl)
          (λ g.
            IsUnbonded.moved (not_lt→le pos.bonded amount f)
              (omega (arith, not_lt→le pos.bonded amount f))
              (fits pos.unbonding amount fits0 fits1 g)))
  where
    wraps : (u v : ℕ) → IsU64 u → IsU64 v → ltb ((u + v) % 2 ^ 64) u ≡ true → 2 ^ 64 ≤ u + v
    wraps u v a b t = ground arith

    fits :
        (u v : ℕ) → IsU64 u → IsU64 v → ltb ((u + v) % 2 ^ 64) u ≡ false → (u + v) % 2 ^ 64 ≡ u + v
    fits u v a b g = ground arith
