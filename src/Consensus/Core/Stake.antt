-- ===== src/Consensus/Core/Stake.antt =====
-- The stake that a ledger gives to lists of validators, and what two lists have in common.
use randioum.Base.{
  ℕ, ◌+◌, ◌≤◌, ◌≡◌, inl, inr, refl, sym, ap, ◌∙◌, Bool, true, false, ◌&&◌, ◌||◌, if◌then◌else◌,
  if-elim, if_true, if_false, Bool-cases, List, [], ◌∷◌, Option, none, some, arith,
}
use randioum.Base.Text.{same_bytes, same_bytes_eq, same_bytes_refl}
use randioum.Staking.{StakePosition, find}
use randioum.Consensus.Keys.{ValidatorId}

abbrev pub Entries : Type 0
Entries = List (List ℕ × StakePosition)

abbrev pub mem : ValidatorId → List ValidatorId → Bool
mem id [] = false
mem id (x ∷ xs) = same_bytes id x || mem id xs

abbrev pub IsDistinct : List ValidatorId → Type 0
IsDistinct [] = Unit
IsDistinct (x ∷ xs) = (mem x xs ≡ false) × IsDistinct xs

-- The stake of a position that counts.
abbrev pub active : StakePosition → ℕ
active pos = if pos.slashed then 0 else pos.bonded

-- The whole bonded stake, without wrapping.
abbrev pub stake_sum : Entries → ℕ
stake_sum [] = 0
stake_sum ((key, pos) ∷ entries) = active pos + stake_sum entries

-- The stake of the validators that are in a list, and of those that are in two.
abbrev pub stake_in : List ValidatorId → Entries → ℕ
stake_in voters [] = 0
stake_in voters ((key, pos) ∷ entries) =
    (if mem key voters then active pos else 0) + stake_in voters entries

abbrev pub stake_in_both : List ValidatorId → List ValidatorId → Entries → ℕ
stake_in_both first second [] = 0
stake_in_both first second ((key, pos) ∷ entries) =
    (if mem key first && mem key second then active pos else 0) + stake_in_both first second entries

pub overlap :
    (first second : List ValidatorId) (entries : Entries)
    → stake_in first entries + stake_in second entries
      ≤ stake_sum entries + stake_in_both first second entries
overlap first second [] = ground arith
overlap first second ((key, pos) ∷ entries) =
    let below = overlap first second entries in
    omega (arith, below, here (mem key first) (mem key second) (active pos))
  where
    here :
        (s t : Bool) (n : ℕ)
        → (if s then n else 0) + (if t then n else 0) ≤ n + (if s && t then n else 0)
    here true true n = omega arith
    here true false n = omega arith
    here false true n = omega arith
    here false false n = omega arith

-- What a ledger says of a validator, and of a list of them.
abbrev pub stake_at : Entries → ValidatorId → ℕ
stake_at entries id = elim (find id entries) [ none ↦ 0 | some pos ↦ active pos ]

abbrev pub stake_of : Entries → List ValidatorId → ℕ
stake_of entries [] = 0
stake_of entries (id ∷ ids) = stake_at entries id + stake_of entries ids

stake_at-cons :
    (key id : ValidatorId) (pos : StakePosition) (entries : Entries)
    → stake_at ((key, pos) ∷ entries) id
      ≡ (if same_bytes id key then active pos else stake_at entries id)
unfolding find
stake_at-cons key id pos entries =
    if-elim
      (λ (o : Option StakePosition).
        elim o [ none ↦ 0 | some p ↦ active p ]
        ≡ (if same_bytes id key then active pos else stake_at entries id))
      (same_bytes id key) (λ t. rw t refl) (λ f. rw f refl)

-- An entry counts once.
stake_of-cons :
    (key : ValidatorId) (pos : StakePosition) (entries : Entries) (ids : List ValidatorId)
    → IsDistinct ids
    → stake_of ((key, pos) ∷ entries) ids
      ≤ (if mem key ids then active pos else 0) + stake_of entries ids
stake_of-cons key pos entries [] distinct = omega arith
stake_of-cons key pos entries (id ∷ ids) (fresh, distinct) =
    let below = stake_of-cons key pos entries ids distinct in
    elim (Bool-cases (same_bytes id key)) [
      | inl t ↦
          let same = same_bytes_eq id key t in
          let gone : mem key ids ≡ false = ap (λ k. mem k ids) (sym same) ∙ fresh in
          let here : same_bytes key id ≡ true = ap (same_bytes key) same ∙ same_bytes_refl key in
          omega (
            arith,
            below,
            stake_at-cons key id pos entries ∙ if_true _ _ t,
            if_false (active pos) 0 gone,
            ap (λ b. if b || mem key ids then active pos else 0) here,
          )
      | inr f ↦ omega (
        arith,
        below,
        stake_at-cons key id pos entries ∙ if_false _ _ f,
        either (same_bytes key id) (mem key ids) (active pos),
      )
    ]
  where
    either : (s t : Bool) (n : ℕ) → (if t then n else 0) ≤ (if s || t then n else 0)
    either true true n = omega arith
    either true false n = omega arith
    either false t n = omega arith

pub stake_of-in :
    (entries : Entries) (ids : List ValidatorId)
    → IsDistinct ids
    → stake_of entries ids ≤ stake_in ids entries
unfolding find
stake_of-in [] [] distinct = omega arith
stake_of-in [] (id ∷ ids) (fresh, distinct) = omega (arith, stake_of-in [] ids distinct)
stake_of-in ((key, pos) ∷ entries) ids distinct =
    omega (arith, stake_of-cons key pos entries ids distinct, stake_of-in entries ids distinct)
