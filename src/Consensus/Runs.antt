-- ===== src/Consensus/Runs.antt =====
-- Consensus on concrete inputs, and its theorems there.
use randioum.Base.{
  ℕ, ◌*◌, ◌<◌, ◌≡◌, ◌≢◌, refl, Bool, true, false, List, [], ◌∷◌, ◌++◌, replicate, ap, get_or,
  Option, some, none, arith, if_true, if_false, ◌∙◌, ◌%◌, ◌+◌, ◌^◌, ◌==◌,
}
use randioum.Base.Text.{codes, same_bytes, to_hex, hex_digit, same_bytes_refl}
use randioum.Consensus.Events.{with_qc, Place, stands_on, on_vote, on_proposal, try_form_qc}
use randioum.Base.Maps.{or_default, lookup, insert_sorted, sort}
use randioum.Hash.Sha256.{
  sha256, finalize, update, absorb_rest, absorb_blocks, fill_buffer, padding, be_bytes,
}
use randioum.Chain.Merkle.{Hash256}
use randioum.Staking.{
  StakePosition, StakingLedger, find, total, total_bonded, bonded_of, is_slashed,
}
use randioum.Consensus.Keys.{ValidatorId, ValidatorStore, from_secret, keypair, ids, pubkey_of}
use randioum.Consensus.Core.{
  Proposal, Vote, QuorumCert, ConsensusBlock, ConsensusOptions, ConsensusCore, consensus_core,
  default_block, zero_hash, id_key, leader_for_round, leader_loop, leader_metric, winner,
  quorum_threshold, weigh, form_cert, vote_digest, proposal_id,
}
use randioum.Consensus.Core.Stake.{stake_in_both}
use randioum.Consensus.Core.Quorum.{form_cert_overlap}
use randioum.Consensus.Core.Leader.{IsBestOf, leader_for_round-IsBestOf}
use randioum.Consensus.Events.Forgery.{on_vote_forged}
use randioum.Consensus.Events.Commit.{on_proposal_prevents_commit}
use randioum.Codec.Bytes.{append_u64_le}
use randioum.Hash.Words.{compress}
use randioum.Consensus.Events.Progress.{
  ConsensusEvent, proposed, voted, timed, handle_all, Progressed, handle_all-Progressed,
}

abbrev staked : ℕ → StakePosition
staked amount = record { bonded = amount; unbonding = 0; unbond_ready_height = 0; slashed = false }

abbrev four_validators : StakingLedger
four_validators = record {
  unbonding_delay_blocks = 10;
  stake =
      (codes "a", staked 10)
      ∷ (codes "b", staked 10)
      ∷ (codes "c", staked 10)
      ∷ (codes "d", staked 10)
      ∷ [];
}

abbrev options : ConsensusOptions
options = record {
  quorum_numerator = 2;
  quorum_denominator = 3;
  partition_round_timeout = 5;
  block_reward = 0;
  on_reward = none;
  on_slash = none;
}

abbrev signature : Hash256
signature = replicate 32 9

abbrev a_b_c : List (ValidatorId × Hash256)
a_b_c = (codes "c", signature) ∷ (codes "a", signature) ∷ (codes "b", signature) ∷ []

abbrev b_c_d : List (ValidatorId × Hash256)
b_c_d = (codes "b", signature) ∷ (codes "d", signature) ∷ (codes "c", signature) ∷ []

abbrev cert_of_a_b_c : QuorumCert
cert_of_a_b_c = record {
  round = 4;
  block = replicate 32 1;
  voters = codes "a" ∷ codes "b" ∷ codes "c" ∷ [];
}

abbrev cert_of_b_c_d : QuorumCert
cert_of_b_c_d = record {
  round = 5;
  block = replicate 32 2;
  voters = codes "b" ∷ codes "c" ∷ codes "d" ∷ [];
}

a_b_c-certify : form_cert options four_validators a_b_c (replicate 32 1) 4 ≡ some cert_of_a_b_c
unfolding form_cert weigh quorum_threshold total_bonded total bonded_of is_slashed find sort
    insert_sorted same_bytes
a_b_c-certify = refl

b_c_d-certify : form_cert options four_validators b_c_d (replicate 32 2) 5 ≡ some cert_of_b_c_d
unfolding form_cert weigh quorum_threshold total_bonded total bonded_of is_slashed find sort
    insert_sorted same_bytes
b_c_d-certify = refl

form_cert_overlap_example :
    40 < 3 * stake_in_both cert_of_a_b_c.voters cert_of_b_c_d.voters four_validators.stake
unfolding same_bytes
form_cert_overlap_example =
    form_cert_overlap options four_validators a_b_c b_c_d (replicate 32 1) (replicate 32 2) 4 5
      cert_of_a_b_c cert_of_b_c_d refl refl (omega arith) (refl, (refl, (refl, tt)))
      (refl, (refl, (refl, tt))) a_b_c-certify b_c_d-certify

abbrev one_key : ValidatorStore
one_key = record { keys = (codes "a", from_secret (replicate 32 3)) ∷ []; pubkeys = [] }

abbrev core : ConsensusCore
core = consensus_core options (codes "a") one_key four_validators (replicate 32 8)

abbrev never : Place → Bool
never place = false

leader_for_round-IsBestOf_example :
    (best : Option (ℕ × ValidatorId)) × (leader_for_round core 7 ≡ winner best)
    × IsBestOf core 7 (ids one_key) best
unfolding consensus_core
leader_for_round-IsBestOf_example = leader_for_round-IsBestOf core 7

abbrev voted_core : ConsensusCore
voted_core = record core { votes_by_round = (3, (codes "a", replicate 32 1) ∷ []) ∷ [] }

on_vote_forged_example :
    let forged : Vote = record {
      round = 3;
      block = replicate 32 2;
      voter = codes "a";
      signature = sha256 (sha256 (replicate 32 3) ++ vote_digest 3 (replicate 32 2) (codes "a"));
    } in
    is_slashed (on_vote never forged voted_core).staking (codes "a") ≡ true
unfolding consensus_core keypair is_slashed find same_bytes
on_vote_forged_example =
    on_vote_forged never voted_core (codes "a") (from_secret (replicate 32 3)) (staked 10) 3
      (replicate 32 1) (replicate 32 2) refl refl refl refl refl (omega arith) refl differ
  where
    differ : ◌≢◌ {A = Hash256} (replicate 32 1) (replicate 32 2)
    differ e = let no : 1 ≡ 2 = ap (λ (h : Hash256). get_or 0 h 0) e in absurd (omega (arith, no))

abbrev first_proposal : Proposal
first_proposal = record {
  height = 1;
  round = 2;
  parent = zero_hash;
  state_root = replicate 32 5;
  proposer = codes "a";
}

a-leads : codes "a" ≡ leader_for_round core 2
unfolding consensus_core leader_for_round leader_loop leader_metric ids sort insert_sorted
    is_slashed bonded_of find same_bytes pubkey_of
a-leads = refl

-- The first block and the one that it stands on are certified, and the votes on a second one are
-- there.
abbrev genesis_block : ConsensusBlock
genesis_block = record default_block { qc = some (record cert_of_a_b_c { round = 1 }) }

abbrev first_block : ConsensusBlock
first_block = record {
  prop = first_proposal;
  id = proposal_id first_proposal;
  qc = some (record cert_of_a_b_c { round = 2; block = proposal_id first_proposal });
}

abbrev second_proposal : Proposal
second_proposal = record {
  height = 2;
  round = 3;
  parent = proposal_id first_proposal;
  state_root = replicate 32 6;
  proposer = codes "a";
}

abbrev chained_core : ConsensusCore
chained_core = record core {
  blocks =
      (id_key zero_hash, genesis_block) ∷ (id_key (proposal_id first_proposal), first_block) ∷ [];
  high_qc = first_block.qc;
  last_progress_round = 2;
  sigs_by_block = (id_key (proposal_id second_proposal), a_b_c) ∷ [];
}

abbrev second_cert : QuorumCert
second_cert = record cert_of_a_b_c { round = 3; block = proposal_id second_proposal }

a-leads_again :
    (codes "a" ≡ leader_for_round chained_core 2) × (codes "a" ≡ leader_for_round chained_core 3)
unfolding consensus_core leader_for_round leader_loop leader_metric ids sort insert_sorted
    is_slashed bonded_of find same_bytes pubkey_of
a-leads_again = (refl, refl)

ids_differ :
    (same_bytes (id_key (proposal_id first_proposal)) (id_key zero_hash) ≡ false)
    × (same_bytes (id_key (proposal_id second_proposal)) (id_key zero_hash) ≡ false)
    × (same_bytes (id_key (proposal_id second_proposal)) (id_key (proposal_id first_proposal))
        ≡ false)
unfolding id_key same_bytes to_hex hex_digit proposal_id sha256 append_u64_le finalize update
    absorb_rest absorb_blocks fill_buffer padding be_bytes compress
ids_differ = (refl, refl, refl)

first-found :
    lookup same_bytes (id_key (proposal_id first_proposal)) chained_core.blocks ≡ some first_block
unfolding consensus_core
first-found =
    if_false _ _ ids_differ.0 ∙ if_true _ _ (same_bytes_refl (id_key (proposal_id first_proposal)))

second-new : lookup same_bytes (id_key (proposal_id second_proposal)) chained_core.blocks ≡ none
second-new = if_false _ _ ids_differ.1 ∙ if_false _ _ ids_differ.2

votes-certify :
    (bid : Hash256)
    → form_cert options four_validators a_b_c bid 3
      ≡ some (record cert_of_a_b_c { round = 3; block = bid })
unfolding form_cert weigh quorum_threshold total_bonded total bonded_of is_slashed find sort
    insert_sorted same_bytes
votes-certify bid = refl

second-certified :
    form_cert chained_core.opt chained_core.staking
      (or_default []
        (lookup same_bytes (id_key (proposal_id second_proposal)) chained_core.sigs_by_block))
      (proposal_id second_proposal)
      3
    ≡ some second_cert
unfolding consensus_core
second-certified =
    ap
      (λ (o : Option (List (ValidatorId × Hash256))).
        form_cert options four_validators (or_default [] o) (proposal_id second_proposal) 3)
      (if_true _ _ (same_bytes_refl (id_key (proposal_id second_proposal))))
    ∙ votes-certify (proposal_id second_proposal)

second-stands : stands_on chained_core second_proposal ≡ true
unfolding consensus_core stands_on
second-stands =
    ap
      (λ (o : Option ConsensusBlock). elim o [
        | none ↦ false
        | some b ↦ 2 == (b.prop.height + 1) % 2 ^ 64
      ])
      first-found

on_proposal_prevents_commit_example :
    ((try_form_qc never
        (proposal_id second_proposal)
        3
        (on_proposal never second_proposal chained_core)).committed
      ≡ some genesis_block)
    × ((try_form_qc never (proposal_id second_proposal) 3 (
          on_proposal never second_proposal
            (on_proposal never first_proposal chained_core))).committed
        ≡ none)
unfolding consensus_core stands_on id_key same_bytes to_hex hex_digit
on_proposal_prevents_commit_example =
    on_proposal_prevents_commit never chained_core first_proposal second_proposal first_block
      genesis_block 3 second_cert refl (λ place. refl) a-leads_again.0 refl refl
      (ap with_qc first-found) refl refl a-leads_again.1 refl second-stands second-new
      second-certified (omega arith)

-- A proposal, a vote that nobody signed, and a time at which no progress has been made for long.
abbrev three_events : List ConsensusEvent
three_events =
    proposed never first_proposal
    ∷ voted never
        (record { round = 2; block = replicate 32 2; voter = codes "a"; signature = zero_hash })
    ∷ timed 9
    ∷ []

handle_all-Progressed_example : Progressed core (handle_all three_events core)
handle_all-Progressed_example = handle_all-Progressed three_events core

-- One validator, and a block that it has not voted for.
abbrev alone_core : ConsensusCore
alone_core = record core {
  staking = record { unbonding_delay_blocks = 10; stake = (codes "a", staked 10) ∷ [] };
}

abbrev late_vote : Vote
late_vote = record {
  round = 18446744073709551615;
  block = zero_hash;
  voter = codes "a";
  signature =
      sha256 (sha256 (replicate 32 3) ++ vote_digest 18446744073709551615 zero_hash (codes "a"));
}

abbrev late_cert : QuorumCert
late_cert = record { round = 18446744073709551615; block = zero_hash; voters = codes "a" ∷ [] }
