-- ===== src/Consensus/Events/Certificates.antt =====
-- What `try_form_qc_` of src/consensus.cpp makes of the signatures on a block.
use mathlib.Core.Option.{none-ne-some}
use randioum.Base.{
  ℕ, ◌≡◌, refl, sym, ap, ◌∙◌, Bool, ltb, if-elim, List, [], Option, none, some, some-eq, ◌==◌,
}
use randioum.Base.Text.{same_bytes}
use randioum.Base.Maps.{lookup, or_default}
use randioum.Chain.Merkle.{Hash256}
use randioum.Staking.{StakingLedger}
use randioum.Consensus.Keys.{ValidatorId}
use randioum.Consensus.Core.{
  QuorumCert, ConsensusBlock, ConsensusOptions, ConsensusCore, id_key, form_cert, weigh, cert_of,
  quorum_threshold,
}
use randioum.Consensus.Events.{Place, forming, add_cert, commit_after, try_form_qc}

-- A certificate is of the block and the round that it is formed for.
pub form_cert-of :
    (opt : ConsensusOptions) (staking : StakingLedger) (sigs : List (ValidatorId × Hash256))
    (bid : Hash256) (round : ℕ) (cert : QuorumCert)
    → form_cert opt staking sigs bid round ≡ some cert
    → (cert.block ≡ bid) × (cert.round ≡ round)
unfolding form_cert
form_cert-of opt staking sigs bid round cert h = read (weigh staking sigs 0 []) h
  where
    Certifies : Option QuorumCert → Type 0
    Certifies o = o ≡ some cert → (cert.block ≡ bid) × (cert.round ≡ round)

    read : (w : ℕ × List ValidatorId) → Certifies (cert_of opt staking bid round w)
    read (weight, voters) =
        if-elim Certifies (quorum_threshold opt staking == 0) (λ t e. absurd (none-ne-some cert e))
          (λ f.
            if-elim Certifies (ltb weight (quorum_threshold opt staking))
              (λ t e. absurd (none-ne-some cert e))
              (λ g e.
                (ap QuorumCert.block (sym (some-eq e)), ap QuorumCert.round (sym (some-eq e)))))

-- The signatures on a block that is not known.
pub try_form_qc-unknown :
    (halted : Place → Bool) (core : ConsensusCore) (bid : Hash256) (round : ℕ)
    → lookup same_bytes (id_key bid) core.blocks ≡ none
    → try_form_qc halted bid round core ≡ core
unfolding try_form_qc
try_form_qc-unknown halted core bid round unknown =
    if-elim (λ k. k ≡ core) (halted forming) (λ t. refl)
      (λ f.
        ap
          (λ o. elim o [ none ↦ core | some b ↦ commit_after halted (cert) (add_cert core b cert) ])
          unknown)
  where
    cert : Option QuorumCert
    cert =
        form_cert core.opt core.staking
          (or_default [] (lookup same_bytes (id_key bid) core.sigs_by_block)) bid round

-- The signatures on a known block, where no certificate of it leads to a commit.
pub try_form_qc-known :
    (halted : Place → Bool) (core : ConsensusCore) (bid : Hash256) (round : ℕ) (b : ConsensusBlock)
    → lookup same_bytes (id_key bid) core.blocks ≡ some b
    → ((cert : QuorumCert)
        → cert.block ≡ bid
        → cert.round ≡ round
        → (commit_after halted (some cert) (add_cert core b (some cert))).committed
          ≡ core.committed)
    → (try_form_qc halted bid round core).committed ≡ core.committed
unfolding try_form_qc
try_form_qc-known halted core bid round b known each =
    if-elim (λ (k : ConsensusCore). k.committed ≡ core.committed) (halted forming) (λ t. refl)
      (λ f.
        ap
          (λ (o : Option ConsensusBlock).
            ConsensusCore.committed
              (elim o [ none ↦ core | some x ↦ commit_after halted cert (add_cert core x cert) ]))
          known
        ∙ by_cert cert refl)
  where
    cert : Option QuorumCert
    cert =
        form_cert core.opt core.staking
          (or_default [] (lookup same_bytes (id_key bid) core.sigs_by_block)) bid round

    by_cert :
        (o : Option QuorumCert)
        → cert ≡ o
        → (commit_after halted o (add_cert core b o)).committed ≡ core.committed
    by_cert none e = refl
    by_cert (some qc) e =
        let (block, of_round) = form_cert-of core.opt core.staking _ bid round qc e in
        each qc block of_round
