-- ===== src/Consensus/Events/Commit.antt =====
-- A chain of three certified blocks in src/consensus.cpp, and a proposal that breaks it.
use mathlib.Core.Option.{none-ne-some}
use randioum.Base.{
  ℕ, ◌≡◌, refl, sym, ap, subst, ◌∙◌, Bool, true, false, ltb, if-elim, if_false, [], ◌==◌, Option,
  none, some,
}
use randioum.Base.Text.{same_bytes}
use randioum.Base.Maps.{lookup, or_default}
use randioum.Chain.Merkle.{Hash256}
use randioum.Consensus.Core.{
  Proposal, QuorumCert, ConsensusBlock, ConsensusCore, id_key, leader_for_round, proposal_id,
  form_cert,
}
use randioum.Consensus.Events.{
  Place, entering, forming, committing, stands_on, add_block, on_proposal, with_qc, certified,
  certified_parent, commit, high_block, try_commit, add_cert, commit_after, try_form_qc,
}
use randioum.Consensus.Entries.{lookup-insert, lookup-insert_other, keys_differ}
use randioum.Consensus.Events.Certificates.{form_cert-of}
use randioum.Consensus.Events.Replay.{
  fresh_block, IsAfter, higher-IsAfter, on_proposal-add_block, on_proposal_forgets,
}

-- A certified block is known.
certified-known :
    (core : ConsensusCore) (bid : Hash256) (b : ConsensusBlock)
    → certified core bid ≡ some b
    → lookup same_bytes (id_key bid) core.blocks ≡ some b
certified-known core bid b h = read (lookup same_bytes (id_key bid) core.blocks) h
  where
    read : (o : Option ConsensusBlock) → with_qc o ≡ some b → o ≡ some b
    read none e = absurd (none-ne-some b e)
    read (some x) e = by_qc x.qc e
      where
        by_qc :
            (q : Option QuorumCert)
            → (elim q [ none ↦ none | some qc ↦ some x ]) ≡ some b
            → some x ≡ some b
        by_qc none e = absurd (none-ne-some b e)
        by_qc (some qc) e = e

-- The certificate of a block on two certified ones commits the first of them.
try_form_qc_commits :
    (halted : Place → Bool) (core : ConsensusCore) (bid : Hash256) (round : ℕ)
    (x b g : ConsensusBlock) (cert : QuorumCert)
    → core.invalid ≡ false
    → halted forming ≡ false
    → halted committing ≡ false
    → lookup same_bytes (id_key bid) core.blocks ≡ some x
    → form_cert core.opt core.staking
        (or_default [] (lookup same_bytes (id_key bid) core.sigs_by_block))
        bid
        round
      ≡ some cert
    → IsAfter core.high_qc round
    → certified core x.prop.parent ≡ some b
    → certified core b.prop.parent ≡ some g
    → same_bytes (id_key x.prop.parent) (id_key bid) ≡ false
    → same_bytes (id_key b.prop.parent) (id_key bid) ≡ false
    → (try_form_qc halted bid round core).committed ≡ some g
unfolding try_form_qc try_commit
try_form_qc_commits halted core bid round x b g cert valid forms commits known formed after parent
      grand parent_differs grand_differs =
    ap ConsensusCore.committed (
      if_false _ _ forms
      ∙ ap
          (λ o. elim o [ none ↦ core | some k ↦ commit_after halted found (add_cert core k found) ])
          known
      ∙ ap (λ o. commit_after halted o (add_cert core x o)) formed
      ∙ if_false _ _ valid
      ∙ if_false _ _ commits
      ∙ ap (commit next) chain)
    ∙ if-elim (λ (k : ConsensusCore). k.committed ≡ some g)
        (g.prop.height == next.last_rewarded_height) (λ t. refl) (λ f. refl)
  where
    found : Option QuorumCert
    found =
        form_cert core.opt core.staking
          (or_default [] (lookup same_bytes (id_key bid) core.sigs_by_block)) bid round

    of_block : cert.block ≡ bid
    of_block = (form_cert-of core.opt core.staking _ bid round cert formed).0

    certified_x : ConsensusBlock
    certified_x = record x { qc = some cert }

    next : ConsensusCore
    next = add_cert core x (some cert)

    high : high_block next ≡ some certified_x
    high =
        ap (λ (o : Option QuorumCert). elim o [ none ↦ none | some qc ↦ certified next qc.block ])
          (higher-IsAfter core.high_qc cert (
            subst (IsAfter core.high_qc)
              (sym (form_cert-of core.opt core.staking _ bid round cert formed).1) after))
        ∙ ap with_qc (lookup-insert (id_key cert.block) certified_x core.blocks)

    stays :
        (h : Hash256)
        → same_bytes (id_key h) (id_key bid) ≡ false
        → certified next h ≡ certified core h
    stays h differs = ap with_qc (
        lookup-insert_other (id_key h) (id_key cert.block) certified_x core.blocks
          (ap (λ k. same_bytes (id_key h) (id_key k)) of_block ∙ differs))

    chain : certified_parent next (certified_parent next (high_block next)) ≡ some g
    chain =
        ap (λ o. certified_parent next (certified_parent next o)) high
        ∙ ap (certified_parent next) (stays x.prop.parent parent_differs ∙ parent)
        ∙ stays b.prop.parent grand_differs
        ∙ grand

-- The leader's proposal of a certified block comes again, in a round no earlier than the last one of
-- progress. Then a new block on it is proposed, and its signatures, which form a certificate, are
-- counted in a round after all certificates. Without the repeated proposal, the certified parent of
-- the first block is committed; with it, nothing is. The new block is the leader's of its round, is
-- no earlier than the last progress and stands on the first one, and consensus is neither invalid nor
-- halted.
pub on_proposal_prevents_commit :
    (halted : Place → Bool) (core : ConsensusCore) (p c : Proposal) (b g : ConsensusBlock)
    (round : ℕ) (cert : QuorumCert)
    → core.invalid ≡ false
    → ((place : Place) → halted place ≡ false)
    → p.proposer ≡ leader_for_round core p.round
    → ltb p.round core.last_progress_round ≡ false
    → stands_on core p ≡ true
    → certified core (proposal_id p) ≡ some b
    → certified core b.prop.parent ≡ some g
    → c.parent ≡ proposal_id p
    → c.proposer ≡ leader_for_round core c.round
    → ltb c.round core.last_progress_round ≡ false
    → stands_on core c ≡ true
    → lookup same_bytes (id_key (proposal_id c)) core.blocks ≡ none
    → form_cert core.opt core.staking
        (or_default [] (lookup same_bytes (id_key (proposal_id c)) core.sigs_by_block))
        (proposal_id c)
        round
      ≡ some cert
    → IsAfter core.high_qc round
    → ((try_form_qc halted (proposal_id c) round (on_proposal halted c core)).committed ≡ some g)
      × ((try_form_qc halted
            (proposal_id c)
            round
            (on_proposal halted c (on_proposal halted p core))).committed
          ≡ core.committed)
on_proposal_prevents_commit halted core p c b g round cert valid running leads late stands parent
      grand on_p leads_c late_c stands_c new formed after =
    (
      ap (λ k. (try_form_qc halted (proposal_id c) round k).committed)
            (on_proposal-add_block halted core c valid (running entering) leads_c late_c stands_c)
          ∙ try_form_qc_commits halted (add_block core c) (proposal_id c) round (fresh_block c) b g
              cert valid (running forming) (running committing)
              (lookup-insert (id_key (proposal_id c)) (fresh_block c) core.blocks) formed after
              (ap (certified (add_block core c)) on_p ∙ stays (proposal_id p) b parent ∙ parent)
              (stays b.prop.parent g grand ∙ grand)
              (ap (λ h. same_bytes (id_key h) (id_key (proposal_id c))) on_p
                ∙ differs (proposal_id p) b parent)
              (differs b.prop.parent g grand),
      on_proposal_forgets halted halted halted core p c b round valid (running entering) leads late
          stands (certified-known core (proposal_id p) b parent) new on_p after,
    )
  where
    differs :
        (h : Hash256) (x : ConsensusBlock)
        → certified core h ≡ some x
        → same_bytes (id_key h) (id_key (proposal_id c)) ≡ false
    differs h x e = keys_differ _ _ x core.blocks (certified-known core h x e) new

    stays :
        (h : Hash256) (x : ConsensusBlock)
        → certified core h ≡ some x
        → certified (add_block core c) h ≡ certified core h
    stays h x e = ap with_qc (
        lookup-insert_other (id_key h) (id_key (proposal_id c)) (fresh_block c) core.blocks
          (differs h x e))
