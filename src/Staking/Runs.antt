-- ===== src/Staking/Runs.antt =====
-- Runs of the staking ledger.
use randioum.Base.{◌≡◌, refl, ◌-◌, ◌^◌, false, arith}
use randioum.Staking.{StakePosition, unbond_position}
use randioum.Staking.Unbonding.{IsUnbonded, unbond_position-IsUnbonded}

-- A bonded unit behind an unbonding of as much as 64 bits hold.
abbrev full : StakePosition
full = record { bonded = 1; unbonding = 2 ^ 64 - 1; unbond_ready_height = 7; slashed = false }

unbond_position-IsUnbonded_example : IsUnbonded full 1 (unbond_position 100 full 1 5)
unbond_position-IsUnbonded_example =
    unbond_position-IsUnbonded 100 full 1 5 (omega arith) (omega arith)

full-lost : unbond_position 100 full 1 5 ≡ (
  false,
  record { bonded = 0; unbonding = 2 ^ 64 - 1; unbond_ready_height = 7; slashed = false },
)
unfolding unbond_position
full-lost = refl
