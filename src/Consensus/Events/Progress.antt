-- ===== src/Consensus/Events/Progress.antt =====
-- What no sequence of events undoes.
use mathlib.Core.Option.{none-ne-some}
use randioum.Base.{
  ℕ, ◌≤◌, ◌≡◌, ◌==◌, refl, ap, Bool, false, not, ltb, if◌then◌else◌, if-elim, ltb→lt, not_lt→le,
  List, [], ◌∷◌, Option, none, some, some-eq, arith,
}
use randioum.Chain.Merkle.{Hash256}
use randioum.Consensus.Core.{
  Proposal, Vote, QuorumCert, ConsensusBlock, ConsensusCore, id_key, form_cert, leader_for_round,
  vote_digest,
}
use randioum.Consensus.Keys.{ValidatorKeypair, keypair, sign}
use randioum.Staking.{is_slashed, slash_amount}
use randioum.Base.Text.{same_bytes}
use randioum.Base.Maps.{lookup, or_default}
use randioum.Consensus.Events.{
  Place, entering, forming, committing, add_vote, stands_on, max_of, higher, add_cert, votes_in,
  commit, commit_after, try_commit, try_form_qc, punish, take_vote, on_proposal, on_vote,
  partitioned, recover_if_partitioned,
}

pub data ConsensusEvent : Type 0 where
  proposed : (Place → Bool) → Proposal → ConsensusEvent
  voted : (Place → Bool) → Vote → ConsensusEvent
  timed : ℕ → ConsensusEvent

abbrev pub handle : ConsensusEvent → ConsensusCore → ConsensusCore
handle (proposed halted p) core = on_proposal halted p core
handle (voted halted v) core = on_vote halted v core
handle (timed round) core = (recover_if_partitioned core round).1

abbrev pub handle_all : List ConsensusEvent → ConsensusCore → ConsensusCore
handle_all [] core = core
handle_all (e ∷ events) core = handle_all events (handle e core)

-- A certificate, once there is one, of no earlier round.
abbrev pub IsNoLower : Option QuorumCert → Option QuorumCert → Type 0
IsNoLower none after = Unit
IsNoLower (some before) after = (q : QuorumCert) × (after ≡ some q) × (before.round ≤ q.round)

pub record Progressed (before after : ConsensusCore) : Type 0 where
  pub later : before.last_progress_round ≤ after.last_progress_round
  pub no_lower : IsNoLower before.high_qc after.high_qc

IsNoLower-refl : (o : Option QuorumCert) → IsNoLower o o
IsNoLower-refl none = tt
IsNoLower-refl (some q) = (q, refl, omega arith)

IsNoLower-trans : (a b c : Option QuorumCert) → IsNoLower a b → IsNoLower b c → IsNoLower a c
IsNoLower-trans none b c p q = tt
IsNoLower-trans (some x) none c (y, e, le) q = absurd (none-ne-some y e)
IsNoLower-trans (some x) (some z) c (y, e, le) (w, f, le2) =
    (w, f, omega (arith, le, le2, ap QuorumCert.round (some-eq e)))

Progressed-refl : (c : ConsensusCore) → Progressed c c
Progressed-refl c = record { later = omega arith; no_lower = IsNoLower-refl c.high_qc }

Progressed-trans : (a b c : ConsensusCore) → Progressed a b → Progressed b c → Progressed a c
Progressed-trans a b c p q = record {
  later = omega (arith, p.later, q.later);
  no_lower = IsNoLower-trans a.high_qc b.high_qc c.high_qc p.no_lower q.no_lower;
}

le_max : (a b : ℕ) → a ≤ max_of a b
le_max a b = ground arith

higher-IsNoLower : (o : Option QuorumCert) (q : QuorumCert) → IsNoLower o (higher o q)
higher-IsNoLower none q = tt
higher-IsNoLower (some high) q =
    if-elim (IsNoLower (some high)) (ltb high.round q.round)
      (λ t. (q, refl, omega (arith, ltb→lt _ _ t))) (λ f. (high, refl, omega arith))

-- A test with one outcome that leaves the state as it is.
stays_or :
    (core next : ConsensusCore) (b : Bool)
    → Progressed core next
    → Progressed core (if b then core else next)
stays_or core next b p = if-elim (Progressed core) b (λ t. Progressed-refl core) (λ f. p)

commit-Progressed :
    (core : ConsensusCore) (o : Option ConsensusBlock) → Progressed core (commit core o)
commit-Progressed core none = Progressed-refl core
commit-Progressed core (some b) =
    if-elim (Progressed core) (b.prop.height == core.last_rewarded_height)
      (λ t. record { later = omega arith; no_lower = IsNoLower-refl core.high_qc })
      (λ f. record { later = omega arith; no_lower = IsNoLower-refl core.high_qc })

try_commit-Progressed :
    (halted : Place → Bool) (core : ConsensusCore) → Progressed core (try_commit halted core)
unfolding try_commit
try_commit-Progressed halted core =
    stays_or core _ core.invalid (stays_or core _ (halted committing) (commit-Progressed core _))

add_cert-Progressed :
    (core : ConsensusCore) (b : ConsensusBlock) (o : Option QuorumCert)
    → Progressed core (add_cert core b o)
add_cert-Progressed core b none = Progressed-refl core
add_cert-Progressed core b (some cert) = record {
  later = le_max core.last_progress_round cert.round;
  no_lower = higher-IsNoLower core.high_qc cert;
}

pub commit_after-Progressed :
    (halted : Place → Bool) (o : Option QuorumCert) (core : ConsensusCore)
    → Progressed core (commit_after halted o core)
commit_after-Progressed halted none core = Progressed-refl core
commit_after-Progressed halted (some cert) core = try_commit-Progressed halted core

try_form_qc-Progressed :
    (halted : Place → Bool) (bid : Hash256) (round : ℕ) (core : ConsensusCore)
    → Progressed core (try_form_qc halted bid round core)
unfolding try_form_qc
try_form_qc-Progressed halted bid round core =
    stays_or core _ (halted forming) (certifies (lookup same_bytes (id_key bid) core.blocks))
  where
    cert : Option QuorumCert
    cert =
        form_cert core.opt core.staking
          (or_default [] (lookup same_bytes (id_key bid) core.sigs_by_block)) bid round

    certifies :
        (o : Option ConsensusBlock)
        → Progressed core
            (elim o [ none ↦ core | some b ↦ commit_after halted cert (add_cert core b cert) ])
    certifies none = Progressed-refl core
    certifies (some b) =
        Progressed-trans core _ _ (add_cert-Progressed core b cert)
          (commit_after-Progressed halted cert (add_cert core b cert))

take_vote-Progressed :
    (halted : Place → Bool) (v : Vote) (core : ConsensusCore)
    → Progressed core (take_vote halted v core)
unfolding take_vote punish
take_vote-Progressed halted v core = takes (lookup same_bytes v.voter (votes_in core v.round))
  where
    punished : ConsensusCore
    punished = punish core v.voter (slash_amount core.staking v.voter)

    counted : ConsensusCore
    counted = try_form_qc halted v.block v.round (add_vote core v)

    counted-Progressed : Progressed core counted
    counted-Progressed =
        let p = try_form_qc-Progressed halted v.block v.round (add_vote core v) in
        record { later = p.later; no_lower = p.no_lower }

    takes :
        (o : Option Hash256)
        → Progressed core (elim o [
          | none ↦ counted
          | some old ↦ if not (same_bytes old v.block) then punished else counted
        ])
    takes none = counted-Progressed
    takes (some old) =
        if-elim (Progressed core) (not (same_bytes old v.block))
          (λ t. record { later = omega arith; no_lower = IsNoLower-refl core.high_qc })
          (λ f. counted-Progressed)

on_vote-Progressed :
    (halted : Place → Bool) (v : Vote) (core : ConsensusCore)
    → Progressed core (on_vote halted v core)
unfolding on_vote
on_vote-Progressed halted v core = stays_or core _ core.invalid (
    stays_or core _ (halted entering)
      (stays_or core _ (is_slashed core.staking v.voter) (signed (keypair core.keys v.voter))))
  where
    signed :
        (o : Option ValidatorKeypair)
        → Progressed core (elim o [
          | none ↦ core
          | some kp ↦
              if not (same_bytes (sign kp (vote_digest v.round v.block v.voter)) v.signature)
              then core
              else take_vote halted v core
        ])
    signed none = Progressed-refl core
    signed (some kp) = stays_or core _ _ (take_vote-Progressed halted v core)

on_proposal-Progressed :
    (halted : Place → Bool) (p : Proposal) (core : ConsensusCore)
    → Progressed core (on_proposal halted p core)
unfolding on_proposal
on_proposal-Progressed halted p core = stays_or core _ core.invalid (
    stays_or core _ (halted entering) (
      stays_or core _ (not (same_bytes p.proposer (leader_for_round core p.round))) (
        stays_or core _ (ltb p.round core.last_progress_round) (
          stays_or core _ (not (stands_on core p)) (record {
            later = le_max core.last_progress_round p.round;
            no_lower = IsNoLower-refl core.high_qc;
          })))))

partitioned_late :
    (core : ConsensusCore) (round : ℕ)
    → not (partitioned core round) ≡ false
    → core.last_progress_round ≤ round
unfolding partitioned
partitioned_late core round =
    if-elim (λ r. not r ≡ false → core.last_progress_round ≤ round)
      (ltb round core.last_progress_round) (λ t h. absurd (ground arith))
      (λ f h. not_lt→le round core.last_progress_round f)

recover-Progressed :
    (core : ConsensusCore) (round : ℕ) → Progressed core (recover_if_partitioned core round).1
unfolding recover_if_partitioned
recover-Progressed core round =
    if-elim (λ (r : Bool × ConsensusCore). Progressed core r.1) (not (partitioned core round))
      (λ t. Progressed-refl core)
      (λ f. record {
        later = partitioned_late core round f;
        no_lower = IsNoLower-refl core.high_qc;
      })

-- After any events, the last round of progress is no earlier than before, and the highest
-- certificate, once there is one, is of no earlier round.
pub handle_all-Progressed :
    (events : List ConsensusEvent) (core : ConsensusCore) → Progressed core (handle_all events core)
handle_all-Progressed [] core = Progressed-refl core
handle_all-Progressed (e ∷ events) core =
    Progressed-trans core (handle e core) _ (one e) (handle_all-Progressed events (handle e core))
  where
    one : (e : ConsensusEvent) → Progressed core (handle e core)
    one (proposed halted p) = on_proposal-Progressed halted p core
    one (voted halted v) = on_vote-Progressed halted v core
    one (timed round) = recover-Progressed core round
