-- ===== src/Base/TextOrder.antt =====
-- Laws of the order of texts.
use randioum.Base.{
  ℕ, ◌<◌, ◌≡◌, ◌⊎◌, inl, inr, refl, ap, ap₂, ◌∙◌, Bool, true, false, le-or-lt, ltb, if◌then◌else◌,
  List, [], ◌∷◌, arith,
}
use randioum.Base.Maps.{text_ltb}

pub trichotomy : (x y : ℕ) → (x < y) ⊎ ((y < x) ⊎ (x ≡ y))
trichotomy x y = elim (le-or-lt y x) [
  | inl le ↦ elim (le-or-lt x y) [ inl ge ↦ inr (inr (omega arith)) | inr lt ↦ inr (inl lt) ]
  | inr lt ↦ inl lt
]

pub text_ltb_trans :
    (x y z : List ℕ) → text_ltb x y ≡ true → text_ltb y z ≡ true → text_ltb x z ≡ true
text_ltb_trans [] (y ∷ ys) (z ∷ zs) p q = refl
text_ltb_trans xs (y ∷ ys) [] p q = absurd (ground arith)
text_ltb_trans xs [] zs p q = absurd (ground arith)
text_ltb_trans (x ∷ xs) (y ∷ ys) (z ∷ zs) p q =
    decide x y z (text_ltb xs ys) (text_ltb ys zs) (text_ltb xs zs) (text_ltb_trans xs ys zs) p q
  where
    decide :
        (x y z : ℕ) (s t u : Bool)
        → (s ≡ true → t ≡ true → u ≡ true)
        → (if ltb x y then true else if ltb y x then false else s) ≡ true
        → (if ltb y z then true else if ltb z y then false else t) ≡ true
        → (if ltb x z then true else if ltb z x then false else u) ≡ true
    decide x y z true true u h p q =
        ap (λ b. if ltb x z then true else if ltb z x then false else b) (h refl refl)
        ∙ ground arith
    decide x y z true false u h p q = ground arith
    decide x y z false t u h p q = ground arith

pub text_ltb_irrefl : (x : List ℕ) → text_ltb x x ≡ false
text_ltb_irrefl [] = refl
text_ltb_irrefl (x ∷ xs) = ground (arith, text_ltb_irrefl xs)

-- Of two texts, one is before the other, or they are one.
pub text_ltb_total : (x y : List ℕ) → (text_ltb x y ≡ true) ⊎ ((text_ltb y x ≡ true) ⊎ (x ≡ y))
text_ltb_total [] [] = inr (inr refl)
text_ltb_total [] (y ∷ ys) = inl refl
text_ltb_total (x ∷ xs) [] = inr (inl refl)
text_ltb_total (x ∷ xs) (y ∷ ys) = elim (trichotomy x y) [
  | inl lt ↦ inl (ground arith)
  | inr rest ↦ elim rest [
    | inl gt ↦ inr (inl (ground arith))
    | inr same ↦ elim (text_ltb_total xs ys) [
      | inl before ↦ inl (ground (arith, before))
      | inr others ↦ elim others [
        | inl after ↦ inr (inl (ground (arith, after)))
        | inr equal ↦ inr (inr (ap₂ (λ a b. a ∷ b) same equal))
      ]
    ]
  ]
]
