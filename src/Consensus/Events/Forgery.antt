-- ===== src/Consensus/Events/Forgery.antt =====
-- The signatures of src/validator.cpp, and the votes that `on_vote` takes with them.
use randioum.Base.{
  ℕ, ◌+◌, ◌%◌, ◌^◌, ◌<◌, ◌≡◌, ◌≢◌, refl, sym, ap, ◌∙◌, Bool, true, false, not, Bool-cases, inl, inr,
  ltb, if◌then◌else◌, if-elim, if_false, List, [], ◌∷◌, ◌++◌, none, some, arith,
}
use randioum.Base.Text.{same_bytes, same_bytes_refl, same_bytes_eq}
use randioum.Base.Maps.{lookup}
use randioum.Hash.Sha256.{sha256}
use randioum.Chain.Merkle.{Hash256}
use randioum.Staking.{
  StakePosition, StakingLedger, find, put, is_slashed, slash_amount, slash_position, write_slashed,
}
use randioum.Consensus.Keys.{ValidatorId, ValidatorKeypair, keypair, sign}
use randioum.Consensus.Core.{Vote, ConsensusCore, vote_digest}
use randioum.Consensus.Events.{
  Place, entering, votes_in, add_vote, try_form_qc, punish, take_vote, on_vote,
}

find-put :
    (id : List ℕ) (pos : StakePosition) (entries : List (List ℕ × StakePosition))
    → find id (put id pos entries) ≡ some pos
unfolding find put
find-put id pos [] = rw (same_bytes_refl id) refl
find-put id pos ((key, old) ∷ entries) =
    if-elim (λ l. find id l ≡ some pos) (same_bytes id key) (λ t. rw t refl)
      (λ f. rw f (find-put id pos entries))

abbrev slashed_position : StakePosition
slashed_position = record { bonded = 0; unbonding = 0; unbond_ready_height = 0; slashed = true }

slash_position-slashed :
    (pos : StakePosition)
    → pos.slashed ≡ false
    → pos.bonded + pos.unbonding < 2 ^ 64
    → slash_position pos ≡ some ((pos.bonded + pos.unbonding) % 2 ^ 64, slashed_position)
unfolding slash_position
slash_position-slashed pos free fits = rw (free, no_wrap pos.bonded pos.unbonding fits) refl
  where
    no_wrap : (a b : ℕ) → a + b < 2 ^ 64 → ltb ((a + b) % 2 ^ 64) a ≡ false
    no_wrap a b h = ground arith

slash_amount-at :
    (l : StakingLedger) (id : ValidatorId) (pos : StakePosition)
    → find id l.stake ≡ some pos
    → slash_amount l id ≡ write_slashed l id (slash_position pos)
unfolding slash_amount
slash_amount-at l id pos found =
    ap (λ o. elim o [ none ↦ (none, l) | some q ↦ write_slashed l id (slash_position q) ]) found

is_slashed-at :
    (l : StakingLedger) (id : ValidatorId) (pos : StakePosition)
    → find id l.stake ≡ some pos
    → is_slashed l id ≡ pos.slashed
unfolding is_slashed
is_slashed-at l id pos found = ap (λ o. elim o [ none ↦ false | some q ↦ q.slashed ]) found

-- Slashing a validator whose stake is no more than 64 bits marks it.
slash_amount-slashed :
    (l : StakingLedger) (id : ValidatorId) (pos : StakePosition)
    → find id l.stake ≡ some pos
    → pos.bonded + pos.unbonding < 2 ^ 64
    → is_slashed l id ≡ false
    → is_slashed (slash_amount l id).1 id ≡ true
slash_amount-slashed l id pos found fits free =
    let not_yet = sym (is_slashed-at l id pos found) ∙ free in
    ap (λ r. is_slashed r.1 id)
      (slash_amount-at l id pos found
        ∙ ap (write_slashed l id) (slash_position-slashed pos not_yet fits))
    ∙ is_slashed-at _ id slashed_position (find-put id slashed_position l.stake)

-- A vote with a good signature, of a validator that is not slashed, is taken.
pub on_vote-takes :
    (halted : Place → Bool) (core : ConsensusCore) (v : Vote) (kp : ValidatorKeypair)
    → core.invalid ≡ false
    → halted entering ≡ false
    → is_slashed core.staking v.voter ≡ false
    → keypair core.keys v.voter ≡ some kp
    → same_bytes (sign kp (vote_digest v.round v.block v.voter)) v.signature ≡ true
    → on_vote halted v core ≡ take_vote halted v core
unfolding on_vote
on_vote-takes halted core v kp valid running free key good =
    if_false _ _ valid
    ∙ if_false _ _ running
    ∙ if_false _ _ free
    ∙ ap
        (λ o. elim o [
          | none ↦ core
          | some k ↦
              if not (same_bytes (sign k (vote_digest v.round v.block v.voter)) v.signature)
              then core
              else take_vote halted v core
        ])
        key
    ∙ ap (λ b. if not b then core else take_vote halted v core) good

-- A vote for another block than the one that is recorded for its round is punished.
take_vote-punishes :
    (halted : Place → Bool) (core : ConsensusCore) (v : Vote) (old : Hash256)
    → lookup same_bytes v.voter (votes_in core v.round) ≡ some old
    → same_bytes old v.block ≡ false
    → take_vote halted v core ≡ punish core v.voter (slash_amount core.staking v.voter)
unfolding take_vote
take_vote-punishes halted core v old voted differ =
    let counted = try_form_qc halted v.block v.round (add_vote core v) in
    ap
      (λ o. elim o [
        | none ↦ counted
        | some b ↦
            if not (same_bytes b v.block)
            then punish core v.voter (slash_amount core.staking v.voter)
            else counted
      ])
      voted
    ∙ ap (λ b. if not b then punish core v.voter (slash_amount core.staking v.voter) else counted)
        differ

-- A vote that a validator's public key alone makes, for another block than the one that the
-- validator has voted for in that round, is taken by on_vote and gets the validator slashed. The
-- validator's stake fits 64 bits, and consensus is neither invalid nor halted.
pub on_vote_forged :
    (halted : Place → Bool) (core : ConsensusCore) (id : ValidatorId) (kp : ValidatorKeypair)
    (pos : StakePosition) (round : ℕ) (old other : Hash256)
    → core.invalid ≡ false
    → halted entering ≡ false
    → is_slashed core.staking id ≡ false
    → keypair core.keys id ≡ some kp
    → find id core.staking.stake ≡ some pos
    → pos.bonded + pos.unbonding < 2 ^ 64
    → lookup same_bytes id (votes_in core round) ≡ some old
    → old ≢ other
    → let forged : Vote = record {
      round = round;
      block = other;
      voter = id;
      signature = sha256 (kp.pubkey ++ vote_digest round other id);
    } in
      is_slashed (on_vote halted forged core).staking id ≡ true
unfolding punish sign
on_vote_forged halted core id kp pos round old other valid running free key found fits voted
      differ =
    let good = same_bytes_refl (sha256 (kp.pubkey ++ vote_digest round other id)) in
    ap (λ c. is_slashed c.staking id)
      (on_vote-takes halted core _ kp valid running free key good
        ∙ take_vote-punishes halted core _ old voted other_block)
    ∙ slash_amount-slashed core.staking id pos found fits free
  where
    other_block : same_bytes old other ≡ false
    other_block = elim (Bool-cases (same_bytes old other)) [
      | inl t ↦ absurd (differ (same_bytes_eq old other t))
      | inr f ↦ f
    ]
