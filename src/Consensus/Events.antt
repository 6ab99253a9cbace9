-- ===== src/Consensus/Events.antt =====
-- The handlers of consensus: the second half of src/consensus.cpp. A handler asks the callback
-- `is_halted` in up to three places, and takes its answers as an argument.
pub mod Progress
pub mod Forgery
pub mod Certificates
pub mod Replay
pub mod Commit
pub mod Stall
use randioum.Base.{
  ℕ, ◌+◌, ◌-◌, ◌%◌, ◌^◌, Bool, true, false, not, ltb, leb, ◌==◌, if◌then◌else◌, List, [], ◌∷◌,
  Option, none, some,
}
use randioum.Base.Text.{same_bytes}
use randioum.Base.Maps.{lookup, insert, or_default}
use randioum.Chain.Merkle.{Hash256}
use randioum.Staking.{StakingLedger, is_slashed, slash_amount}
use randioum.Consensus.Keys.{ValidatorId, keypair, sign}
use randioum.Consensus.Core.{
  Proposal, Vote, QuorumCert, ConsensusBlock, ConsensusCore, zero_hash, default_block, id_key,
  leader_for_round, proposal_id, vote_digest, form_cert,
}

-- Where a handler asks whether the chain is halted.
pub data Place : Type 0 where
  entering forming committing : Place

abbrev pub max_of : ℕ → ℕ → ℕ
max_of a b = if ltb a b then b else a

abbrev pub proposal_on : ConsensusCore → ℕ → Hash256 → Hash256 → ConsensusBlock → Proposal
proposal_on core now root on parent_block = record {
  height = (parent_block.prop.height + 1) % 2 ^ 64;
  round = now;
  parent = on;
  state_root = root;
  proposer = core.self_id;
}

-- `blocks_[...]` makes a block where there is none.
unfoldable pub make_proposal : ConsensusCore → ℕ → Hash256 → Proposal × ConsensusCore
make_proposal core now root = elim core.high_qc [
  | none ↦ (
    record {
      height = 0;
      round = now;
      parent = zero_hash;
      state_root = root;
      proposer = core.self_id;
    },
    core,
  )
  | some qc ↦ elim (lookup same_bytes (id_key qc.block) core.blocks) [
    | none ↦ (
      proposal_on core now root qc.block default_block,
      record core { blocks = insert same_bytes (id_key qc.block) default_block core.blocks },
    )
    | some b ↦ (proposal_on core now root qc.block b, core)
  ]
]

unfoldable pub make_vote : (Place → Bool) → ConsensusCore → Proposal → Option Vote
make_vote halted core p =
    let bid = proposal_id p in
    if halted entering
    then none
    else if is_slashed core.staking core.self_id
    then none
    else if not (same_bytes (leader_for_round core p.round) p.proposer)
    then none
    else elim (keypair core.keys core.self_id) [
      | none ↦ none
      | some kp ↦ some (record {
        round = p.round;
        block = bid;
        voter = core.self_id;
        signature = sign kp (vote_digest p.round bid core.self_id);
      })
    ]

-- Whether a proposal stands on a block that is known.
unfoldable pub stands_on : ConsensusCore → Proposal → Bool
stands_on core p =
    if p.height == 0
    then same_bytes p.parent zero_hash
    else elim (lookup same_bytes (id_key p.parent) core.blocks) [
      | none ↦ false
      | some b ↦ p.height == (b.prop.height + 1) % 2 ^ 64
    ]

abbrev pub add_block : ConsensusCore → Proposal → ConsensusCore
add_block core p = record core {
  blocks =
      insert same_bytes (id_key (proposal_id p))
        (record { prop = p; id = proposal_id p; qc = none }) core.blocks;
  last_progress_round = max_of core.last_progress_round p.round;
}

unfoldable pub on_proposal : (Place → Bool) → Proposal → ConsensusCore → ConsensusCore
on_proposal halted p core =
    if core.invalid
    then core
    else if halted entering
    then core
    else if not (same_bytes p.proposer (leader_for_round core p.round))
    then core
    else if ltb p.round core.last_progress_round
    then core
    else if not (stands_on core p)
    then core
    else add_block core p

-- The block of an identifier, where it has a certificate.
abbrev pub with_qc : Option ConsensusBlock → Option ConsensusBlock
with_qc none = none
with_qc (some b) = elim b.qc [ none ↦ none | some qc ↦ some b ]

abbrev pub certified : ConsensusCore → Hash256 → Option ConsensusBlock
certified core bid = with_qc (lookup same_bytes (id_key bid) core.blocks)

abbrev pub certified_parent : ConsensusCore → Option ConsensusBlock → Option ConsensusBlock
certified_parent core none = none
certified_parent core (some b) = certified core b.prop.parent

-- What `on_reward` answers, where it is called.
unfoldable pub reward_holds : ConsensusCore → ConsensusBlock → Bool
reward_holds core b = if core.opt.block_reward == 0 then true else elim core.opt.on_reward [
  | none ↦ true
  | some f ↦ elim b.qc [
    | none ↦ true
    | some qc ↦ f core.staking b.prop.proposer qc.voters core.opt.block_reward b.prop.height
  ]
]

-- `invalid` is false here, and in `punish` below.
abbrev pub commit : ConsensusCore → Option ConsensusBlock → ConsensusCore
commit core none = core
commit core (some b) =
    if b.prop.height == core.last_rewarded_height
    then record core { committed = some b }
    else record core {
      committed = some b;
      last_rewarded_height = b.prop.height;
      invalid = not (reward_holds core b);
    }

abbrev pub high_block : ConsensusCore → Option ConsensusBlock
high_block core = elim core.high_qc [ none ↦ none | some qc ↦ certified core qc.block ]

unfoldable pub try_commit : (Place → Bool) → ConsensusCore → ConsensusCore
try_commit halted core =
    if core.invalid
    then core
    else if halted committing
    then core
    else commit core (certified_parent core (certified_parent core (high_block core)))

abbrev pub higher : Option QuorumCert → QuorumCert → Option QuorumCert
higher none qc = some qc
higher (some high) qc = if ltb high.round qc.round then some qc else some high

abbrev pub add_cert : ConsensusCore → ConsensusBlock → Option QuorumCert → ConsensusCore
add_cert core b none = core
add_cert core b (some cert) = record core {
  blocks = insert same_bytes (id_key cert.block) (record b { qc = some cert }) core.blocks;
  high_qc = higher core.high_qc cert;
  last_progress_round = max_of core.last_progress_round cert.round;
}

abbrev pub commit_after : (Place → Bool) → Option QuorumCert → ConsensusCore → ConsensusCore
commit_after halted none core = core
commit_after halted (some cert) core = try_commit halted core

-- The signatures on the block are there: `on_vote` has just added one.
unfoldable pub try_form_qc : (Place → Bool) → Hash256 → ℕ → ConsensusCore → ConsensusCore
try_form_qc halted bid round core =
    let sigs = or_default [] (lookup same_bytes (id_key bid) core.sigs_by_block) in
    let cert = form_cert core.opt core.staking sigs bid round in
    if halted forming then core else elim (lookup same_bytes (id_key bid) core.blocks) [
      | none ↦ core
      | some b ↦ commit_after halted cert (add_cert core b cert)
    ]

abbrev pub votes_in : ConsensusCore → ℕ → List (ValidatorId × Hash256)
votes_in core round = or_default [] (lookup ◌==◌ round core.votes_by_round)

abbrev pub add_vote : ConsensusCore → Vote → ConsensusCore
add_vote core v = record core {
  votes_by_round =
      insert ◌==◌ v.round (insert same_bytes v.voter v.block (votes_in core v.round))
        core.votes_by_round;
  sigs_by_block =
      insert same_bytes (id_key v.block)
        (insert same_bytes v.voter v.signature
          (or_default [] (lookup same_bytes (id_key v.block) core.sigs_by_block)))
        core.sigs_by_block;
}

-- What `on_slash` answers, where it is called.
abbrev pub slash_holds : ConsensusCore → ValidatorId → Option ℕ → Bool
slash_holds core id none = true
slash_holds core id (some amount) = elim core.opt.on_slash [ none ↦ true | some f ↦ f id amount ]

unfoldable pub punish : ConsensusCore → ValidatorId → Option ℕ × StakingLedger → ConsensusCore
punish core id (amount, ledger) = record core {
  staking = ledger;
  invalid = not (slash_holds core id amount);
}

-- A vote with a good signature.
unfoldable pub take_vote : (Place → Bool) → Vote → ConsensusCore → ConsensusCore
take_vote halted v core =
    let counted = try_form_qc halted v.block v.round (add_vote core v) in
    elim (lookup same_bytes v.voter (votes_in core v.round)) [
      | none ↦ counted
      | some old ↦
          if not (same_bytes old v.block)
          then punish core v.voter (slash_amount core.staking v.voter)
          else counted
    ]

unfoldable pub on_vote : (Place → Bool) → Vote → ConsensusCore → ConsensusCore
on_vote halted v core =
    if core.invalid
    then core
    else if halted entering
    then core
    else if is_slashed core.staking v.voter
    then core
    else elim (keypair core.keys v.voter) [
      | none ↦ core
      | some kp ↦
          if not (same_bytes (sign kp (vote_digest v.round v.block v.voter)) v.signature)
          then core
          else take_vote halted v core
    ]

unfoldable pub partitioned : ConsensusCore → ℕ → Bool
partitioned core current_round =
    if ltb current_round core.last_progress_round
    then false
    else leb core.opt.partition_round_timeout (current_round - core.last_progress_round)

unfoldable pub recover_if_partitioned : ConsensusCore → ℕ → Bool × ConsensusCore
recover_if_partitioned core current_round =
    if not (partitioned core current_round) then (false, core) else (
      true,
      record core { votes_by_round = []; sigs_by_block = []; last_progress_round = current_round },
    )
