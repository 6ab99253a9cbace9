-- ===== src/Staking.antt =====
-- The ledger of bonded stake: include/rand/staking.hpp and src/staking.cpp. The map from
-- validators, which are known by texts, is a list of entries.
pub mod Unbonding
pub mod Runs
use randioum.Base.{
  ℕ, ◌+◌, ◌-◌, ◌%◌, ◌^◌, Bool, true, false, not, ◌&&◌, ltb, leb, ◌==◌, if◌then◌else◌, List, [], ◌∷◌,
  Option, none, some,
}
use randioum.Base.Text.{same_bytes}

pub record StakePosition : Type 0 where
  pub bonded : ℕ
  pub unbonding : ℕ
  pub unbond_ready_height : ℕ
  pub slashed : Bool

pub record StakingLedger : Type 0 where
  pub unbonding_delay_blocks : ℕ
  pub stake : List (List ℕ × StakePosition)

unfoldable pub find : List ℕ → List (List ℕ × StakePosition) → Option StakePosition
find id [] = none
find id ((key, pos) ∷ entries) =
    let rest = find id entries in if same_bytes id key then some pos else rest

-- Sets the entry of a validator, which is new if there is none.
unfoldable pub put :
    List ℕ → StakePosition → List (List ℕ × StakePosition) → List (List ℕ × StakePosition)
put id pos [] = (id, pos) ∷ []
put id pos ((key, old) ∷ entries) =
    let rest = put id pos entries in
    if same_bytes id key then (key, pos) ∷ entries else (key, old) ∷ rest

abbrev pub new_position : StakePosition
new_position = record { bonded = 0; unbonding = 0; unbond_ready_height = 0; slashed = false }

unfoldable pub total : List (List ℕ × StakePosition) → ℕ
total [] = 0
total ((key, pos) ∷ entries) =
    let rest = total entries in if pos.slashed then rest else (pos.bonded + rest) % 2 ^ 64

unfoldable pub total_bonded : StakingLedger → ℕ
unfolding total
total_bonded l = total l.stake

unfoldable pub bonded_of : StakingLedger → List ℕ → ℕ
bonded_of l id = elim (find id l.stake) [
  | none ↦ 0
  | some pos ↦ if pos.slashed then 0 else pos.bonded
]

unfoldable pub is_slashed : StakingLedger → List ℕ → Bool
is_slashed l id = elim (find id l.stake) [ none ↦ false | some pos ↦ pos.slashed ]

unfoldable pub bond_position : StakePosition → ℕ → Bool × StakePosition
bond_position pos amount =
    let next = (pos.bonded + amount) % 2 ^ 64 in
    if pos.slashed
    then (false, pos)
    else if ltb next pos.bonded
    then (false, pos)
    else (true, record pos { bonded = next })

abbrev pub write_back : StakingLedger → List ℕ → Bool × StakePosition → Bool × StakingLedger
write_back l id (done, pos) = (done, record l { stake = put id pos l.stake })

-- `stake_[id]` makes an entry where there is none.
unfoldable pub bond : StakingLedger → List ℕ → ℕ → Bool × StakingLedger
bond l id amount = if amount == 0 then (false, l) else elim (find id l.stake) [
  | none ↦ write_back l id (bond_position new_position amount)
  | some pos ↦ write_back l id (bond_position pos amount)
]

-- From `pos.bonded < amount` on. The bonded stake is reduced before the sum is tested.
unfoldable pub unbond_position : ℕ → StakePosition → ℕ → ℕ → Bool × StakePosition
unbond_position delay pos amount current_height =
    let next_unbond = (pos.unbonding + amount) % 2 ^ 64 in
    if ltb pos.bonded amount
    then (false, pos)
    else if ltb next_unbond pos.unbonding
    then (false, record pos { bonded = pos.bonded - amount })
    else (
      true,
      record pos {
        bonded = pos.bonded - amount;
        unbonding = next_unbond;
        unbond_ready_height = (current_height + delay) % 2 ^ 64;
      },
    )

unfoldable pub unbond : StakingLedger → List ℕ → ℕ → ℕ → Bool × StakingLedger
unbond l id amount current_height = if amount == 0 then (false, l) else elim (find id l.stake) [
  | none ↦ (false, l)
  | some pos ↦
      if pos.slashed
      then (false, l)
      else write_back l id (unbond_position l.unbonding_delay_blocks pos amount current_height)
]

abbrev pub finalize_position : ℕ → StakePosition → StakePosition
finalize_position current_height pos =
    if not (pos.unbonding == 0) && leb pos.unbond_ready_height current_height
    then record pos { unbonding = 0; unbond_ready_height = 0 }
    else pos

finalize_all : ℕ → List (List ℕ × StakePosition) → List (List ℕ × StakePosition)
finalize_all current_height [] = []
finalize_all current_height ((key, pos) ∷ entries) =
    (key, finalize_position current_height pos) ∷ finalize_all current_height entries

unfoldable pub finalize_unbonding : StakingLedger → ℕ → StakingLedger
unfolding finalize_all
finalize_unbonding l current_height = record l { stake = finalize_all current_height l.stake }

-- A position that is slashed, and its total: no value if it wraps.
unfoldable pub slash_position : StakePosition → Option (ℕ × StakePosition)
slash_position pos =
    let sum = (pos.bonded + pos.unbonding) % 2 ^ 64 in
    if pos.slashed
    then none
    else if ltb sum pos.bonded
    then none
    else some (sum, record { bonded = 0; unbonding = 0; unbond_ready_height = 0; slashed = true })

abbrev pub write_slashed :
    StakingLedger → List ℕ → Option (ℕ × StakePosition) → Option ℕ × StakingLedger
write_slashed l id none = (none, l)
write_slashed l id (some (sum, pos)) = (some sum, record l { stake = put id pos l.stake })

unfoldable pub slash_amount : StakingLedger → List ℕ → Option ℕ × StakingLedger
slash_amount l id = elim (find id l.stake) [
  | none ↦ (none, l)
  | some pos ↦ write_slashed l id (slash_position pos)
]

abbrev pub has_value : Option ℕ × StakingLedger → Bool × StakingLedger
has_value (none, l) = (false, l)
has_value (some sum, l) = (true, l)

unfoldable pub slash : StakingLedger → List ℕ → Bool × StakingLedger
slash l id = has_value (slash_amount l id)
