-- ===== src/Consensus/Entries.antt =====
-- What is found among the entries that src/consensus.cpp keeps under a key.
use mathlib.Core.Option.{none-ne-some}
use randioum.Base.{
  ℕ, ◌≡◌, inl, inr, refl, sym, ap, ◌∙◌, true, false, Bool-cases, if-elim, if_false, if◌then◌else◌,
  List, [], ◌∷◌, none, some, arith,
}
use randioum.Base.Text.{same_bytes, same_bytes_refl, same_bytes_eq}
use randioum.Base.Maps.{lookup, insert}

pub lookup-insert :
    {V : Type 0} (key : List ℕ) (v : V) (entries : List (List ℕ × V))
    → lookup same_bytes key (insert same_bytes key v entries) ≡ some v
lookup-insert key v [] = rw (same_bytes_refl key) refl
lookup-insert key v ((k, old) ∷ entries) =
    if-elim (λ l. lookup same_bytes key l ≡ some v) (same_bytes key k) (λ t. rw t refl)
      (λ f. rw f (lookup-insert key v entries))

-- The entry of another key stays.
pub lookup-insert_other :
    {V : Type 0} (key other : List ℕ) (v : V) (entries : List (List ℕ × V))
    → same_bytes key other ≡ false
    → lookup same_bytes key (insert same_bytes other v entries) ≡ lookup same_bytes key entries
lookup-insert_other key other v [] ne = if_false _ _ ne
lookup-insert_other {V = V} key other v ((k, old) ∷ entries) ne =
    if-elim
      (λ (l : List (List ℕ × V)).
        lookup same_bytes key l ≡ lookup same_bytes key ((k, old) ∷ entries))
      (same_bytes other k)
      (λ t.
        let ne_k = ap (same_bytes key) (sym (same_bytes_eq other k t)) ∙ ne in
        if_false _ _ ne_k ∙ sym (if_false _ _ ne_k))
      (λ f.
        ap (λ o. if same_bytes key k then some old else o)
          (lookup-insert_other key other v entries ne))

-- Keys with and without an entry differ.
pub keys_differ :
    {V : Type 0} (key other : List ℕ) (v : V) (entries : List (List ℕ × V))
    → lookup same_bytes key entries ≡ some v
    → lookup same_bytes other entries ≡ none
    → same_bytes key other ≡ false
keys_differ key other v entries there missing = elim (Bool-cases (same_bytes key other)) [
  | inl t ↦ absurd (
      none-ne-some v (
        sym missing
        ∙ ap (λ k. lookup same_bytes k entries) (sym (same_bytes_eq key other t))
        ∙ there))
  | inr f ↦ f
]

pub same_bytes_flip : (xs ys : List ℕ) → same_bytes xs ys ≡ false → same_bytes ys xs ≡ false
same_bytes_flip xs ys ne = elim (Bool-cases (same_bytes ys xs)) [
  | inl t ↦
      let no : true ≡ false =
        sym (same_bytes_refl xs) ∙ ap (same_bytes xs) (sym (same_bytes_eq ys xs t)) ∙ ne in
      absurd (ground arith)
  | inr f ↦ f
]
