-- ===== src/Mempool/Order.antt =====
-- The order of the keys of src/mempool.cpp, and what `std::set` needs of it.
use randioum.Base.{
  ℕ, ◌≡◌, ◌⊎◌, inl, inr, refl, sym, ap, ◌∙◌, Bool, true, false, not, ltb, ◌==◌, if◌then◌else◌,
  arith,
}
use randioum.Base.Maps.{text_ltb}
use randioum.Chain.Merkle.{Hash256}
use randioum.Base.TextOrder.{text_ltb_trans, text_ltb_irrefl, text_ltb_total, trichotomy}
use randioum.Mempool.Fees.{Key, less_by, by_version, key_less}

less_by_irrefl : (m n : ℕ) (id : Hash256) → less_by m m n n id id ≡ false
less_by_irrefl m n id = ground (arith, text_ltb_irrefl id)

less_by_trans :
    (a1 b1 c1 a2 b2 c2 : ℕ) (a b c : Hash256)
    → less_by a1 b1 a2 b2 a b ≡ true
    → less_by b1 c1 b2 c2 b c ≡ true
    → less_by a1 c1 a2 c2 a c ≡ true
less_by_trans a1 b1 c1 a2 b2 c2 a b c p q =
    decide (text_ltb a b) (text_ltb b c) (text_ltb a c) (text_ltb_trans a b c) p q
  where
    decide :
        (s t u : Bool)
        → (s ≡ true → t ≡ true → u ≡ true)
        → (if not (a1 == b1) then ltb b1 a1 else if not (a2 == b2) then ltb b2 a2 else s) ≡ true
        → (if not (b1 == c1) then ltb c1 b1 else if not (b2 == c2) then ltb c2 b2 else t) ≡ true
        → (if not (a1 == c1) then ltb c1 a1 else if not (a2 == c2) then ltb c2 a2 else u) ≡ true
    decide true true u h p q =
        ap (λ v. if not (a1 == c1) then ltb c1 a1 else if not (a2 == c2) then ltb c2 a2 else v)
          (h refl refl)
        ∙ ground arith
    decide true false u h p q = ground arith
    decide false t u h p q = ground arith

less_by_total :
    (a1 b1 a2 b2 : ℕ) (a b : Hash256)
    → (less_by a1 b1 a2 b2 a b ≡ true)
      ⊎ ((less_by b1 a1 b2 a2 b a ≡ true) ⊎ ((a1 ≡ b1) × (a2 ≡ b2) × (a ≡ b)))
less_by_total a1 b1 a2 b2 a b = elim (trichotomy b1 a1) [
  | inl lt ↦ inl (ground arith)
  | inr rest ↦ elim rest [
    | inl gt ↦ inr (inl (ground arith))
    | inr same ↦ elim (trichotomy b2 a2) [
      | inl lt ↦ inl (ground arith)
      | inr rest2 ↦ elim rest2 [
        | inl gt ↦ inr (inl (ground arith))
        | inr same2 ↦ elim (text_ltb_total a b) [
          | inl before ↦ inl (ground (arith, before))
          | inr others ↦ elim others [
            | inl after ↦ inr (inl (ground (arith, after)))
            | inr equal ↦ inr (inr (sym same, sym same2, equal))
          ]
        ]
      ]
    ]
  ]
]

-- What the order of the pool needs.
pub record IsStrictOrder (less : Key → Key → Bool) : Type 0 where
  pub irrefl : (a : Key) → less a a ≡ false
  pub trans : (a b c : Key) → less a b ≡ true → less b c ≡ true → less a c ≡ true
  pub total : (a b : Key) → (less a b ≡ true) ⊎ ((less b a ≡ true) ⊎ (a.id ≡ b.id))

-- The order of keys is strict, and of two keys with different transaction identifiers one is first.
pub key_less-IsStrictOrder : IsStrictOrder key_less
unfolding key_less
key_less-IsStrictOrder = record { irrefl = same; trans = through; total = first }
  where
    same : (a : Key) → key_less a a ≡ false
    same a =
        at a.is_v2 (less_by_irrefl a.effective_compute_bid a.effective_fee_per_gas a.id)
          (less_by_irrefl a.fee_rate_per_byte a.fee a.id)
      where
        at : (u : Bool) {x y : Bool} → x ≡ false → y ≡ false → by_version u u x y ≡ false
        at true p q = p
        at false p q = q

    through : (a b c : Key) → key_less a b ≡ true → key_less b c ≡ true → key_less a c ≡ true
    through a b c =
        at a.is_v2 b.is_v2 c.is_v2
          (less_by_trans a.effective_compute_bid b.effective_compute_bid c.effective_compute_bid
            a.effective_fee_per_gas b.effective_fee_per_gas c.effective_fee_per_gas a.id b.id c.id)
          (less_by_trans a.fee_rate_per_byte b.fee_rate_per_byte c.fee_rate_per_byte a.fee b.fee
            c.fee a.id b.id c.id)
      where
        at :
            (u v w : Bool) {x y z x' y' z' : Bool}
            → (x ≡ true → y ≡ true → z ≡ true)
            → (x' ≡ true → y' ≡ true → z' ≡ true)
            → by_version u v x x' ≡ true
            → by_version v w y y' ≡ true
            → by_version u w z z' ≡ true
        at true true true f g p q = f p q
        at true true false f g p q = refl
        at true false true f g p q = absurd (ground arith)
        at true false false f g p q = refl
        at false true w f g p q = absurd (ground arith)
        at false false true f g p q = q
        at false false false f g p q = g p q

    first : (a b : Key) → (key_less a b ≡ true) ⊎ ((key_less b a ≡ true) ⊎ (a.id ≡ b.id))
    first a b =
        at a.is_v2 b.is_v2
          (less_by_total a.effective_compute_bid b.effective_compute_bid a.effective_fee_per_gas
            b.effective_fee_per_gas a.id b.id)
          (less_by_total a.fee_rate_per_byte b.fee_rate_per_byte a.fee b.fee a.id b.id)
      where
        ends : {A B C D E : Type 0} → A ⊎ (B ⊎ (C × D × E)) → A ⊎ (B ⊎ E)
        ends (inl p) = inl p
        ends (inr (inl p)) = inr (inl p)
        ends (inr (inr (p, q, r))) = inr (inr r)

        at :
            (u v : Bool) {x y x' y' : Bool} {C D C' D' E : Type 0}
            → (x ≡ true) ⊎ ((y ≡ true) ⊎ (C × D × E))
            → (x' ≡ true) ⊎ ((y' ≡ true) ⊎ (C' × D' × E))
            → (by_version u v x x' ≡ true) ⊎ ((by_version v u y y' ≡ true) ⊎ E)
        at true true p q = ends p
        at true false p q = inl refl
        at false true p q = inr (inl refl)
        at false false p q = ends q
