-- ===== src/Consensus/Core.antt =====
-- The state of consensus, its leaders, digests and certificates: include/rand/consensus.hpp and the
-- first half of src/consensus.cpp. A hash map is a list of entries. A callback is a function of its
-- arguments, and none stands for an empty one.
pub mod Leader
pub mod Stake
pub mod Quorum
use randioum.Base.{
  ℕ, ◌+◌, ◌*◌, ◌/◌, ◌%◌, ◌^◌, Bool, true, false, ◌&&◌, ltb, ◌==◌, if◌then◌else◌, List, [], ◌∷◌,
  ◌++◌, replicate, Option, none, some,
}
use randioum.Base.Text.{same_bytes, to_hex}
use randioum.Base.Maps.{lookup, insert, or_default, text_ltb, sort}
use randioum.Codec.Bytes.{append_u64_le, read_u64_le}
use randioum.Hash.Sha256.{sha256}
use randioum.Chain.Merkle.{Hash256}
use randioum.Staking.{StakingLedger, total_bonded, bonded_of, is_slashed}
use randioum.Consensus.Keys.{ValidatorId, ValidatorStore, pubkey_of, ids, keys_of}

pub record Proposal : Type 0 where
  pub height : ℕ
  pub round : ℕ
  pub parent : Hash256
  pub state_root : Hash256
  pub proposer : ValidatorId

pub record Vote : Type 0 where
  pub round : ℕ
  pub block : Hash256
  pub voter : ValidatorId
  pub signature : Hash256

pub record QuorumCert : Type 0 where
  pub round : ℕ
  pub block : Hash256
  pub voters : List ValidatorId

pub record ConsensusBlock : Type 0 where
  pub prop : Proposal
  pub id : Hash256
  pub qc : Option QuorumCert

pub record ConsensusOptions : Type 0 where
  pub quorum_numerator : ℕ
  pub quorum_denominator : ℕ
  pub partition_round_timeout : ℕ
  pub block_reward : ℕ
  pub on_reward : Option (StakingLedger → ValidatorId → List ValidatorId → ℕ → ℕ → Bool)
  pub on_slash : Option (ValidatorId → ℕ → Bool)

pub record ConsensusCore : Type 0 where
  pub opt : ConsensusOptions
  pub self_id : ValidatorId
  pub keys : ValidatorStore
  pub staking : StakingLedger
  pub chain_seed : Hash256
  pub blocks : List (List ℕ × ConsensusBlock)
  pub high_qc : Option QuorumCert
  pub committed : Option ConsensusBlock
  pub votes_by_round : List (ℕ × List (ValidatorId × Hash256))
  pub sigs_by_block : List (List ℕ × List (ValidatorId × Hash256))
  pub last_progress_round : ℕ
  pub invalid : Bool
  pub last_rewarded_height : ℕ

abbrev pub zero_hash : Hash256
zero_hash = replicate 32 0

abbrev pub default_block : ConsensusBlock
default_block = record {
  prop = record {
    height = 0;
    round = 0;
    parent = zero_hash;
    state_root = zero_hash;
    proposer = [];
  };
  id = zero_hash;
  qc = none;
}

unfoldable pub id_key : Hash256 → List ℕ
id_key h = to_hex h

unfoldable pub consensus_core :
    ConsensusOptions → ValidatorId → ValidatorStore → StakingLedger → Hash256 → ConsensusCore
consensus_core options self store ledger seed = record {
  opt = options;
  self_id = self;
  keys = store;
  staking = ledger;
  chain_seed = seed;
  blocks = (id_key zero_hash, default_block) ∷ [];
  high_qc = some (record { round = 0; block = zero_hash; voters = [] });
  committed = none;
  votes_by_round = [];
  sigs_by_block = [];
  last_progress_round = 0;
  invalid = false;
  last_rewarded_height = 0;
}

-- For a denominator above 0.
unfoldable pub quorum_threshold : ConsensusOptions → StakingLedger → ℕ
quorum_threshold opt staking =
    let total = total_bonded staking in
    if total == 0
    then 0
    else (total * opt.quorum_numerator % 2 ^ 64 / opt.quorum_denominator + 1) % 2 ^ 64

unfoldable pub round_hash : Hash256 → Hash256 → ℕ → Hash256
round_hash seed pubkey round = sha256 (append_u64_le (seed ++ pubkey) round)

-- The metric of a validator that may lead.
unfoldable pub leader_metric : ConsensusCore → ℕ → ValidatorId → Option ℕ
leader_metric core round id =
    let stake = bonded_of core.staking id in
    if is_slashed core.staking id
    then none
    else if stake == 0
    then none
    else elim (pubkey_of core.keys id) [
      | none ↦ none
      | some pk ↦ some (read_u64_le (round_hash core.chain_seed pk round) 0 / stake)
    ]

-- The best one so far, with its metric, and another one.
abbrev pub better : Option (ℕ × ValidatorId) → ValidatorId → Option ℕ → Option (ℕ × ValidatorId)
better best id none = best
better none id (some metric) = some (metric, id)
better (some (best_metric, best)) id (some metric) =
    if ltb metric best_metric
    then some (metric, id)
    else if (metric == best_metric) && text_ltb id best
    then some (best_metric, id)
    else some (best_metric, best)

unfoldable pub leader_loop :
    ConsensusCore → ℕ → List ValidatorId → Option (ℕ × ValidatorId) → Option (ℕ × ValidatorId)
leader_loop core round [] best = best
leader_loop core round (id ∷ rest) best =
    leader_loop core round rest (better best id (leader_metric core round id))

abbrev pub winner : Option (ℕ × ValidatorId) → ValidatorId
winner none = []
winner (some (metric, id)) = id

unfoldable pub leader_for_round : ConsensusCore → ℕ → ValidatorId
leader_for_round core round = winner (leader_loop core round (ids core.keys) none)

unfoldable pub proposal_id : Proposal → Hash256
proposal_id p =
    sha256
      (append_u64_le (append_u64_le [] p.height) p.round ++ p.parent ++ p.state_root ++ p.proposer)

unfoldable pub vote_digest : ℕ → Hash256 → ValidatorId → Hash256
vote_digest round block voter = sha256 (append_u64_le [] round ++ block ++ voter)

-- The weight of the signatures on a block, and the voters that have any.
unfoldable pub weigh :
    StakingLedger → List (ValidatorId × Hash256) → ℕ → List ValidatorId → ℕ × List ValidatorId
weigh staking [] weight voters = (weight, voters)
weigh staking ((voter, sig) ∷ sigs) weight voters =
    let s = bonded_of staking voter in
    let skip = weigh staking sigs weight voters in
    let count = weigh staking sigs ((weight + s) % 2 ^ 64) (voters ++ (voter ∷ [])) in
    if is_slashed staking voter then skip else if s == 0 then skip else count

abbrev pub cert_of :
    ConsensusOptions → StakingLedger → Hash256 → ℕ → ℕ × List ValidatorId → Option QuorumCert
cert_of opt staking bid round (weight, voters) =
    let threshold = quorum_threshold opt staking in
    if threshold == 0
    then none
    else if ltb weight threshold
    then none
    else some (record { round = round; block = bid; voters = sort voters })

-- The certificate that the signatures on a block form.
unfoldable pub form_cert :
    ConsensusOptions
    → StakingLedger
    → List (ValidatorId × Hash256)
    → Hash256
    → ℕ
    → Option QuorumCert
form_cert opt staking sigs bid round = cert_of opt staking bid round (weigh staking sigs 0 [])
