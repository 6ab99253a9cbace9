-- ===== src/Consensus/Core/Leader.antt =====
-- The leader of a round.
use mathlib.Core.Bool.{true≢false}
use mathlib.Core.Option.{none-ne-some}
use randioum.Base.{
  ℕ, ◌<◌, ◌≡◌, ◌⊎◌, inl, inr, refl, sym, ap, ◌∙◌, subst, Bool, true, false, ◌&&◌, ltb, ◌==◌,
  if-elim, Bool-cases, ltb→lt, List, [], ◌∷◌, ◌++◌, append_assoc, append-nil, All, All-append,
  Option, none, some, some-eq, arith,
}
use randioum.Base.Maps.{text_ltb}
use randioum.Base.TextOrder.{text_ltb_trans, text_ltb_irrefl}
use randioum.Consensus.Keys.{ValidatorId, ids}
use randioum.Consensus.Core.{
  ConsensusCore, leader_metric, better, leader_loop, winner, leader_for_round,
}

-- The validator with a metric is no better than the best one.
abbrev pub IsNoBetter : ℕ → ValidatorId → ℕ → ValidatorId → Type 0
IsNoBetter best_metric best metric id =
    (best_metric < metric) ⊎ ((best_metric ≡ metric) × (text_ltb id best ≡ false))

-- What `better` holds after some validators.
abbrev pub IsBestOf : ConsensusCore → ℕ → List ValidatorId → Option (ℕ × ValidatorId) → Type 0
IsBestOf core round seen none = All (λ id. leader_metric core round id ≡ none) seen
IsBestOf core round seen (some (metric, best)) =
    (leader_metric core round best ≡ some metric)
    × All (λ id. (k : ℕ) → leader_metric core round id ≡ some k → IsNoBetter metric best k id) seen

All-map :
    {P Q : ValidatorId → Type 0} (xs : List ValidatorId)
    → ((x : ValidatorId) → P x → Q x)
    → All P xs
    → All Q xs
All-map [] f all = tt
All-map (x ∷ xs) f (p, all) = (f x p, All-map xs f all)

-- One that is better than the best is better than all that were no better than it.
IsNoBetter-trans :
    (metric : ℕ) (best : ValidatorId) (m : ℕ) (b : ValidatorId) (k : ℕ) (id : ValidatorId)
    → (m < metric) ⊎ ((m ≡ metric) × (text_ltb b best ≡ true))
    → IsNoBetter metric best k id
    → IsNoBetter m b k id
IsNoBetter-trans metric best m b k id (inl lt) (inl lt2) = inl (omega arith)
IsNoBetter-trans metric best m b k id (inl lt) (inr (e, f)) = inl (omega arith)
IsNoBetter-trans metric best m b k id (inr (e, t)) (inl lt2) = inl (omega arith)
IsNoBetter-trans metric best m b k id (inr (e, t)) (inr (e2, f)) = inr (
  e ∙ e2,
  (elim (Bool-cases (text_ltb id b)) [
    | inl s ↦ absurd (true≢false (sym (text_ltb_trans id b best s t) ∙ f))
    | inr g ↦ g
  ]),
)

module _ (core : ConsensusCore) (round : ℕ) where
  Beaten : ℕ → ValidatorId → ValidatorId → Type 0
  Beaten metric best id =
      (k : ℕ) → leader_metric core round id ≡ some k → IsNoBetter metric best k id

  -- A new best one.
  replaced :
      (seen : List ValidatorId) (metric : ℕ) (best : ValidatorId) (m : ℕ) (x : ValidatorId)
      → leader_metric core round x ≡ some m
      → (m < metric) ⊎ ((m ≡ metric) × (text_ltb x best ≡ true))
      → All (Beaten metric best) seen
      → All (Beaten m x) (seen ++ (x ∷ []))
  unfolding Beaten
  replaced seen metric best m x e wins all =
      All-append (Beaten m x) seen (x ∷ [])
        (All-map seen (λ id beaten k h. IsNoBetter-trans metric best m x k id wins (beaten k h))
          all)
        ((λ k h. inr (some-eq (sym e ∙ h), text_ltb_irrefl x)), tt)

  better-IsBestOf :
      (seen : List ValidatorId) (best : Option (ℕ × ValidatorId)) (x : ValidatorId) (o : Option ℕ)
      → leader_metric core round x ≡ o
      → IsBestOf core round seen best
      → IsBestOf core round (seen ++ (x ∷ [])) (better best x o)
  unfolding Beaten
  better-IsBestOf seen none x none e all = All-append _ seen (x ∷ []) all (e, tt)
  better-IsBestOf seen (some (metric, best)) x none e (own, all) = (
    own,
    All-append (Beaten metric best) seen (x ∷ []) all
        ((λ k h. absurd (none-ne-some k (sym e ∙ h))), tt),
  )
  better-IsBestOf seen none x (some m) e all = (
    e,
    All-append (Beaten m x) seen (x ∷ [])
        (All-map seen (λ id skipped k h. absurd (none-ne-some k (sym skipped ∙ h))) all)
        ((λ k h. inr (some-eq (sym e ∙ h), text_ltb_irrefl x)), tt),
  )
  better-IsBestOf seen (some (metric, best)) x (some m) e (own, all) =
      if-elim (IsBestOf core round (seen ++ (x ∷ []))) (ltb m metric)
        (λ t. (e, replaced seen metric best m x e (inl (ltb→lt m metric t)) all))
        (λ f.
          if-elim (IsBestOf core round (seen ++ (x ∷ []))) ((m == metric) && text_ltb x best)
            (λ t.
              let (same, before) = tie m metric (text_ltb x best) t in
              (
                e ∙ ap some same,
                subst (λ n. All (Beaten n x) (seen ++ (x ∷ []))) same
                    (replaced seen metric best m x e (inr (same, before)) all),
              ))
            (λ g. (
              own,
              All-append (Beaten metric best) seen (x ∷ []) all (
                (λ k h.
                    subst (λ n. IsNoBetter metric best n x) (some-eq (sym e ∙ h))
                      (loses m metric (text_ltb x best) f g)),
                tt,
              ),
            )))
    where
      tie : (a b : ℕ) (s : Bool) → ((a == b) && s) ≡ true → (a ≡ b) × (s ≡ true)
      tie a b s h = ground arith

      loses :
          (a b : ℕ) (s : Bool)
          → ltb a b ≡ false
          → ((a == b) && s) ≡ false
          → (b < a) ⊎ ((b ≡ a) × (s ≡ false))
      loses a b s f g = ground arith

  leader_loop-IsBestOf :
      (ids seen : List ValidatorId) (best : Option (ℕ × ValidatorId))
      → IsBestOf core round seen best
      → IsBestOf core round (seen ++ ids) (leader_loop core round ids best)
  unfolding leader_loop
  leader_loop-IsBestOf [] seen best p =
      subst (λ l. IsBestOf core round l best) (sym (append-nil seen)) p
  leader_loop-IsBestOf (x ∷ ids) seen best p =
      let next = better best x (leader_metric core round x) in
      subst (λ l. IsBestOf core round l (leader_loop core round ids next))
        (append_assoc seen (x ∷ []) ids)
        (leader_loop-IsBestOf ids (seen ++ (x ∷ [])) next
          (better-IsBestOf seen best x (leader_metric core round x) refl p))

-- The leader of a round is the validator with the least metric of those that have one, and of two
-- with one metric the first by name, or the empty name where there is none. The validators that have
-- a metric are those with a key and with a stake, which are not slashed.
pub leader_for_round-IsBestOf :
    (core : ConsensusCore) (round : ℕ)
    → (best : Option (ℕ × ValidatorId)) × (leader_for_round core round ≡ winner best)
      × IsBestOf core round (ids core.keys) best
unfolding leader_for_round
leader_for_round-IsBestOf core round = (
  leader_loop core round (ids core.keys) none,
  refl,
  leader_loop-IsBestOf core round (ids core.keys) [] none tt,
)
