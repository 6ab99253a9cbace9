-- ===== src/Consensus/Core/Quorum.antt =====
-- The certificates of `try_form_qc_`, and what two of them have in common.
use mathlib.Core.Option.{none-ne-some}
use randioum.Base.{
  ℕ, ◌+◌, ◌*◌, ◌/◌, ◌%◌, ◌^◌, ◌≤◌, ◌<◌, ◌≡◌, refl, sym, ap, ap₂, ◌∙◌, Bool, true, false, ◌&&◌, ◌||◌,
  ltb, ◌==◌, if◌then◌else◌, if-elim, not_lt→le, neither, List, [], ◌∷◌, ◌++◌, append_assoc,
  append-nil, some, some-eq, arith,
}
use randioum.Base.Text.{same_bytes}
use randioum.Base.Maps.{text_ltb, sort, insert_sorted}
use randioum.Chain.Merkle.{Hash256}
use randioum.Staking.{StakingLedger, total, total_bonded, bonded_of, is_slashed}
use randioum.Consensus.Keys.{ValidatorId, keys_of}
use randioum.Consensus.Core.Stake.{
  Entries, mem, IsDistinct, active, stake_sum, stake_in_both, stake_at, stake_of, overlap,
  stake_of-in,
}
use randioum.Consensus.Core.{ConsensusOptions, QuorumCert, quorum_threshold, weigh, form_cert}

-- The voters that `weigh` takes.
taken : StakingLedger → List (ValidatorId × Hash256) → List ValidatorId
taken staking [] = []
taken staking ((voter, sig) ∷ sigs) =
    let rest = taken staking sigs in
    if is_slashed staking voter
    then rest
    else if bonded_of staking voter == 0
    then rest
    else voter ∷ rest

mem-taken :
    (staking : StakingLedger) (id : ValidatorId) (sigs : List (ValidatorId × Hash256))
    → mem id (keys_of sigs) ≡ false
    → mem id (taken staking sigs) ≡ false
unfolding taken
mem-taken staking id [] h = refl
mem-taken staking id ((voter, sig) ∷ sigs) h =
    let (apart, absent) = neither (same_bytes id voter) (mem id (keys_of sigs)) h in
    let rest = mem-taken staking id sigs absent in
    if-elim (λ l. mem id l ≡ false) (is_slashed staking voter) (λ t. rest)
      (λ f.
        if-elim (λ l. mem id l ≡ false) (bonded_of staking voter == 0) (λ t. rest)
          (λ g. ap (λ b. b || mem id (taken staking sigs)) apart ∙ rest))

taken-IsDistinct :
    (staking : StakingLedger) (sigs : List (ValidatorId × Hash256))
    → IsDistinct (keys_of sigs)
    → IsDistinct (taken staking sigs)
unfolding taken
taken-IsDistinct staking [] distinct = tt
taken-IsDistinct staking ((voter, sig) ∷ sigs) (fresh, distinct) =
    let rest = taken-IsDistinct staking sigs distinct in
    if-elim IsDistinct (is_slashed staking voter) (λ t. rest)
      (λ f.
        if-elim IsDistinct (bonded_of staking voter == 0) (λ t. rest)
          (λ g. (mem-taken staking voter sigs fresh, rest)))

bonded_of-at :
    (staking : StakingLedger) (id : ValidatorId) → bonded_of staking id ≡ stake_at staking.stake id
unfolding bonded_of
bonded_of-at staking id = refl

-- What `weigh` gives, from a weight and a list of voters on, where it takes these.
abbrev IsWeighed :
    StakingLedger → ℕ → List ValidatorId → ℕ × List ValidatorId → List ValidatorId → Type 0
IsWeighed staking weight voters result ids =
    (result.0 ≤ weight + stake_of staking.stake ids) × (result.1 ≡ voters ++ ids)

-- Two tests of one condition.
if-elim_two :
    {A C : Type 0} (P : A → C → Type 0) (b : Bool) (x y : A) (u v : C)
    → P x u
    → P y v
    → P (if b then x else y) (if b then u else v)
if-elim_two P true x y u v first second = first
if-elim_two P false x y u v first second = second

weigh-taken :
    (staking : StakingLedger) (sigs : List (ValidatorId × Hash256)) (weight : ℕ)
    (voters : List ValidatorId)
    → IsWeighed staking weight voters (weigh staking sigs weight voters) (taken staking sigs)
unfolding weigh taken
weigh-taken staking [] weight voters = (omega arith, sym (append-nil voters))
weigh-taken staking ((voter, sig) ∷ sigs) weight voters =
    let rest = taken staking sigs in
    let skip = weigh-taken staking sigs weight voters in
    let s = bonded_of staking voter in
    let (light, listed) =
      weigh-taken staking sigs ((weight + s) % 2 ^ 64) (voters ++ (voter ∷ [])) in
    if-elim_two (IsWeighed staking weight voters) (is_slashed staking voter) _ _ _ _ skip (
      if-elim_two (IsWeighed staking weight voters) (s == 0) _ _ _ _ skip (
        omega (arith, light, bonded_of-at staking voter),
        listed ∙ append_assoc voters (voter ∷ []) rest,
      ))

mem-insert_sorted :
    (id x : ValidatorId) (xs : List ValidatorId)
    → mem id (insert_sorted x xs) ≡ (same_bytes id x || mem id xs)
unfolding insert_sorted
mem-insert_sorted id x [] = refl
mem-insert_sorted id x (y ∷ ys) =
    if-elim (λ l. mem id l ≡ (same_bytes id x || (same_bytes id y || mem id ys))) (text_ltb x y)
      (λ t. refl)
      (λ f.
        ap (λ b. same_bytes id y || b) (mem-insert_sorted id x ys)
        ∙ swap (same_bytes id y) (same_bytes id x) (mem id ys))
  where
    swap : (a b c : Bool) → (a || (b || c)) ≡ (b || (a || c))
    swap true true c = refl
    swap true false c = refl
    swap false b c = refl

mem-sort : (id : ValidatorId) (xs : List ValidatorId) → mem id (sort xs) ≡ mem id xs
unfolding sort
mem-sort id [] = refl
mem-sort id (x ∷ xs) =
    mem-insert_sorted id x (sort xs) ∙ ap (λ b. same_bytes id x || b) (mem-sort id xs)

stake_in_both-ext :
    (first first' second second' : List ValidatorId) (entries : Entries)
    → ((id : ValidatorId) → mem id first ≡ mem id first')
    → ((id : ValidatorId) → mem id second ≡ mem id second')
    → stake_in_both first second entries ≡ stake_in_both first' second' entries
stake_in_both-ext first first' second second' [] p q = refl
stake_in_both-ext first first' second second' ((key, pos) ∷ entries) p q =
    ap₂ (λ a b. (if a && b then active pos else 0) + stake_in_both first second entries) (p key)
      (q key)
    ∙ ap (λ n. (if mem key first' && mem key second' then active pos else 0) + n)
        (stake_in_both-ext first first' second second' entries p q)

total_exact : (entries : Entries) → stake_sum entries < 2 ^ 64 → total entries ≡ stake_sum entries
unfolding total
total_exact [] fits = refl
total_exact ((key, pos) ∷ entries) fits =
    let rest = total_exact entries (omega (arith, fits)) in one pos.slashed pos.bonded rest fits
  where
    one :
        (b : Bool) (n : ℕ)
        → total entries ≡ stake_sum entries
        → (if b then 0 else n) + stake_sum entries < 2 ^ 64
        → (if b then total entries else (n + total entries) % 2 ^ 64)
          ≡ (if b then 0 else n) + stake_sum entries
    one true n rest fits = omega (arith, rest)
    one false n rest fits = omega (arith, rest, fits)

-- What a certificate says of the signatures that formed it.
form_cert_inv :
    (opt : ConsensusOptions) (staking : StakingLedger) (sigs : List (ValidatorId × Hash256))
    (bid : Hash256) (round : ℕ) (cert : QuorumCert)
    → form_cert opt staking sigs bid round ≡ some cert
    → (quorum_threshold opt staking ≤ stake_of staking.stake (taken staking sigs))
      × (1 ≤ quorum_threshold opt staking)
      × (cert.voters ≡ sort (taken staking sigs))
unfolding form_cert
form_cert_inv opt staking sigs bid round cert h =
    let (light, listed) = weigh-taken staking sigs 0 [] in
    let threshold = quorum_threshold opt staking in
    let weighed = weigh staking sigs 0 [] in
    if-elim
      (λ o.
        o ≡ some cert
        → (threshold ≤ stake_of staking.stake (taken staking sigs))
          × (1 ≤ threshold)
          × (cert.voters ≡ sort (taken staking sigs)))
      (threshold == 0) (λ t e. absurd (none-ne-some cert e))
      (λ f.
        if-elim
          (λ o.
            o ≡ some cert
            → (threshold ≤ stake_of staking.stake (taken staking sigs))
              × (1 ≤ threshold)
              × (cert.voters ≡ sort (taken staking sigs)))
          (ltb weighed.0 threshold) (λ t e. absurd (none-ne-some cert e))
          (λ g e. (
            omega (arith, not_lt→le weighed.0 threshold g, light),
            nonzero threshold f,
            ap QuorumCert.voters (sym (some-eq e)) ∙ ap sort listed,
          )))
      h
  where
    nonzero : (n : ℕ) → (n == 0) ≡ false → 1 ≤ n
    nonzero n f = ground arith

threshold_two_thirds :
    (opt : ConsensusOptions) (staking : StakingLedger)
    → opt.quorum_numerator ≡ 2
    → opt.quorum_denominator ≡ 3
    → stake_sum staking.stake < 2 ^ 63
    → 1 ≤ quorum_threshold opt staking
    → quorum_threshold opt staking ≡ 2 * stake_sum staking.stake / 3 + 1
unfolding quorum_threshold total_bonded
threshold_two_thirds opt staking num den fits positive =
    rule opt.quorum_numerator opt.quorum_denominator (total staking.stake) (stake_sum staking.stake)
      num den (total_exact staking.stake (omega (arith, fits))) fits positive
  where
    rule :
        (n d t s : ℕ)
        → n ≡ 2
        → d ≡ 3
        → t ≡ s
        → s < 2 ^ 63
        → 1 ≤ (if t == 0 then 0 else (t * n % 2 ^ 64 / d + 1) % 2 ^ 64)
        → (if t == 0 then 0 else (t * n % 2 ^ 64 / d + 1) % 2 ^ 64) ≡ 2 * s / 3 + 1
    rule n d t s e f g fits =
        if-elim (λ q. 1 ≤ q → q ≡ 2 * s / 3 + 1) (t == 0) (λ z h. elim h [ ])
          (λ z h. ap₂ (λ a b. (t * a % 2 ^ 64 / b + 1) % 2 ^ 64) e f ∙ omega (arith, g, fits))

-- With a quorum of two thirds and a bonded stake below 2 ^ 63, two certificates that form over one
-- ledger, from at most one signature of each validator on each block, have in common voters that
-- hold more than a third of the bonded stake.
pub form_cert_overlap :
    (opt : ConsensusOptions) (staking : StakingLedger) (sigs sigs' : List (ValidatorId × Hash256))
    (bid bid' : Hash256) (round round' : ℕ) (cert cert' : QuorumCert)
    → opt.quorum_numerator ≡ 2
    → opt.quorum_denominator ≡ 3
    → stake_sum staking.stake < 2 ^ 63
    → IsDistinct (keys_of sigs)
    → IsDistinct (keys_of sigs')
    → form_cert opt staking sigs bid round ≡ some cert
    → form_cert opt staking sigs' bid' round' ≡ some cert'
    → stake_sum staking.stake < 3 * stake_in_both cert.voters cert'.voters staking.stake
form_cert_overlap opt staking sigs sigs' bid bid' round round' cert cert' num den fits distinct
      distinct' formed formed' =
    let ids = taken staking sigs in
    let ids' = taken staking sigs' in
    let (heavy, some_quorum, voters) = form_cert_inv opt staking sigs bid round cert formed in
    let (heavy', _, voters') = form_cert_inv opt staking sigs' bid' round' cert' formed' in
    let within = stake_of-in staking.stake ids (taken-IsDistinct staking sigs distinct) in
    let within' = stake_of-in staking.stake ids' (taken-IsDistinct staking sigs' distinct') in
    let same =
      stake_in_both-ext cert.voters ids cert'.voters ids' staking.stake
        (λ id. ap (mem id) voters ∙ mem-sort id ids)
        (λ id. ap (mem id) voters' ∙ mem-sort id ids') in
    omega (
      arith,
      heavy,
      heavy',
      within,
      within',
      overlap ids ids' staking.stake,
      same,
      threshold_two_thirds opt staking num den fits some_quorum,
    )
