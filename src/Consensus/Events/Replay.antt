-- ===== src/Consensus/Events/Replay.antt =====
-- A proposal of src/consensus.cpp that comes again: the certificate of its block, and the commit.
use randioum.Base.{
  ℕ, ◌<◌, ◌≡◌, refl, sym, ap, subst, ◌∙◌, Bool, true, false, not, ltb, if-elim, if_true, if_false,
  Option, none, some, arith,
}
use randioum.Base.Text.{same_bytes, same_bytes_refl}
use randioum.Base.Maps.{lookup}
use randioum.Consensus.Core.{
  Proposal, QuorumCert, ConsensusBlock, ConsensusCore, id_key, leader_for_round, proposal_id,
}
use randioum.Consensus.Events.{
  Place, entering, committing, stands_on, add_block, on_proposal, with_qc, certified,
  certified_parent, commit, high_block, try_commit, higher, add_cert, commit_after, try_form_qc,
}
use randioum.Consensus.Entries.{lookup-insert, lookup-insert_other, keys_differ, same_bytes_flip}
use randioum.Consensus.Events.Certificates.{try_form_qc-known, try_form_qc-unknown}

abbrev pub fresh_block : Proposal → ConsensusBlock
fresh_block p = record { prop = p; id = proposal_id p; qc = none }

-- A proposal that is taken.
pub on_proposal-add_block :
    (halted : Place → Bool) (core : ConsensusCore) (p : Proposal)
    → core.invalid ≡ false
    → halted entering ≡ false
    → p.proposer ≡ leader_for_round core p.round
    → ltb p.round core.last_progress_round ≡ false
    → stands_on core p ≡ true
    → on_proposal halted p core ≡ add_block core p
unfolding on_proposal
on_proposal-add_block halted core p valid running leads late stands =
    let leader = ap (same_bytes p.proposer) (sym leads) ∙ same_bytes_refl p.proposer in
    if_false _ _ valid
    ∙ if_false _ _ running
    ∙ if_false _ _ (ap not leader)
    ∙ if_false _ _ late
    ∙ if_false _ _ (ap not stands)

-- A proposal is taken, or changes nothing.
on_proposal-elim :
    (P : ConsensusCore → Type 0) (halted : Place → Bool) (core : ConsensusCore) (p : Proposal)
    → P core
    → P (add_block core p)
    → P (on_proposal halted p core)
unfolding on_proposal
on_proposal-elim P halted core p same taken =
    if-elim P core.invalid (λ t. same)
      (λ f.
        if-elim P (halted entering) (λ t. same)
          (λ f.
            if-elim P (not (same_bytes p.proposer (leader_for_round core p.round))) (λ t. same)
              (λ f.
                if-elim P (ltb p.round core.last_progress_round) (λ t. same)
                  (λ f. if-elim P (not (stands_on core p)) (λ t. same) (λ f. taken)))))

-- Every certificate so far is of an earlier round.
abbrev pub IsAfter : Option QuorumCert → ℕ → Type 0
IsAfter none round = Unit
IsAfter (some qc) round = qc.round < round

pub higher-IsAfter :
    (high : Option QuorumCert) (cert : QuorumCert)
    → IsAfter high cert.round
    → higher high cert ≡ some cert
higher-IsAfter none cert after = refl
higher-IsAfter (some qc) cert after = if_true _ _ (later qc.round cert.round after)
  where
    later : (a b : ℕ) → a < b → ltb a b ≡ true
    later a b h = ground arith

-- Nothing is committed when the highest certificate is of a block on one without a certificate.
commit_after-uncertified :
    (halted : Place → Bool) (core : ConsensusCore) (c p : Proposal) (b : ConsensusBlock)
    (cert : QuorumCert)
    → lookup same_bytes (id_key (proposal_id p)) core.blocks ≡ some (fresh_block p)
    → same_bytes (id_key (proposal_id p)) (id_key (proposal_id c)) ≡ false
    → b.prop.parent ≡ proposal_id p
    → IsAfter core.high_qc cert.round
    → cert.block ≡ proposal_id c
    → (commit_after halted (some cert) (add_cert core b (some cert))).committed ≡ core.committed
unfolding try_commit
commit_after-uncertified halted core c p b cert known differ on_p after block =
    if-elim (λ (k : ConsensusCore). k.committed ≡ core.committed) next.invalid (λ t. refl)
      (λ f.
        if-elim (λ (k : ConsensusCore). k.committed ≡ core.committed) (halted committing)
          (λ t. refl) (λ f. ap (λ o. (commit next (certified_parent next o)).committed) no_parent))
  where
    next : ConsensusCore
    next = add_cert core b (some cert)

    certified_b : ConsensusBlock
    certified_b = record b { qc = some cert }

    high : high_block next ≡ some certified_b
    high =
        ap (λ (o : Option QuorumCert). elim o [ none ↦ none | some qc ↦ certified next qc.block ])
          (higher-IsAfter core.high_qc cert after)
        ∙ ap with_qc (lookup-insert (id_key cert.block) certified_b core.blocks)

    differ_cert : same_bytes (id_key (proposal_id p)) (id_key cert.block) ≡ false
    differ_cert = ap (λ h. same_bytes (id_key (proposal_id p)) (id_key h)) block ∙ differ

    no_parent : certified_parent next (high_block next) ≡ none
    no_parent =
        ap (certified_parent next) high
        ∙ ap (certified next) on_p
        ∙ ap with_qc (
            lookup-insert_other (id_key (proposal_id p)) (id_key cert.block) certified_b core.blocks
              differ_cert
            ∙ known)

-- The leader's proposal of a known block, which may be certified, comes again, in a round no earlier
-- than the last one of progress. Then a new block on it is proposed, and its signatures are counted
-- in a round after all certificates. Nothing is committed, whatever they certify: the parent has lost
-- its certificate. Consensus is neither invalid nor halted when the first proposal comes.
pub on_proposal_forgets :
    (halted halted' halted'' : Place → Bool) (core : ConsensusCore) (p c : Proposal)
    (b : ConsensusBlock) (round : ℕ)
    → core.invalid ≡ false
    → halted entering ≡ false
    → p.proposer ≡ leader_for_round core p.round
    → ltb p.round core.last_progress_round ≡ false
    → stands_on core p ≡ true
    → lookup same_bytes (id_key (proposal_id p)) core.blocks ≡ some b
    → lookup same_bytes (id_key (proposal_id c)) core.blocks ≡ none
    → c.parent ≡ proposal_id p
    → IsAfter core.high_qc round
    → (try_form_qc halted''
        (proposal_id c)
        round
        (on_proposal halted' c (on_proposal halted p core))).committed
      ≡ core.committed
on_proposal_forgets halted halted' halted'' core p c b round valid running leads late stands known
      new on_p after =
    subst
      (λ k.
        (try_form_qc halted'' (proposal_id c) round (on_proposal halted' c k)).committed
        ≡ core.committed)
      (sym (on_proposal-add_block halted core p valid running leads late stands))
      (on_proposal-elim
        (λ k. (try_form_qc halted'' (proposal_id c) round k).committed ≡ core.committed) halted'
        again c
        (ap ConsensusCore.committed (
          try_form_qc-unknown halted'' again (proposal_id c) round (
            lookup-insert_other (id_key (proposal_id c)) (id_key (proposal_id p)) (fresh_block p)
              core.blocks differ'
            ∙ new)))
        (try_form_qc-known halted'' taken (proposal_id c) round (fresh_block c)
          (lookup-insert (id_key (proposal_id c)) (fresh_block c) again.blocks)
          (λ cert block of_round.
            commit_after-uncertified halted'' taken c p (fresh_block c) cert parent differ on_p
              (subst (IsAfter core.high_qc) (sym of_round) after) block)))
  where
    again : ConsensusCore
    again = add_block core p

    taken : ConsensusCore
    taken = add_block again c

    differ : same_bytes (id_key (proposal_id p)) (id_key (proposal_id c)) ≡ false
    differ = keys_differ _ _ b core.blocks known new

    differ' : same_bytes (id_key (proposal_id c)) (id_key (proposal_id p)) ≡ false
    differ' = same_bytes_flip _ _ differ

    parent : lookup same_bytes (id_key (proposal_id p)) taken.blocks ≡ some (fresh_block p)
    parent =
        lookup-insert_other (id_key (proposal_id p)) (id_key (proposal_id c)) (fresh_block c)
          again.blocks differ
        ∙ lookup-insert (id_key (proposal_id p)) (fresh_block p) core.blocks
