-- ===== src/Chain/Merkle/Layers.antt =====
-- From one layer to the next.
use randioum.Base.{
  true, Bool, ap₂, false, ℕ, zero, suc, ◌+◌, ◌-◌, ◌/◌, ◌%◌, ◌≤◌, ◌<◌, ◌≡◌, refl, sym, ap, ◌∙◌, ltb,
  leb, ◌==◌, if◌then◌else◌, if-elim, List, [], ◌∷◌, length, get_or, arith,
}
use randioum.Chain.Merkle.{Hash256, next_layer, merkle_loop, sibling}

-- The choice that `sibling` makes, and its parts two places on.
choose : ℕ → Bool → Hash256 → Hash256 → Hash256 → Hash256
choose parity inside next here before =
    if parity == 0 then if inside then next else here else before

ltb_shift : (a b : ℕ) → ltb (suc (suc a) + 1) (suc (suc b)) ≡ ltb (a + 1) b
ltb_shift a b = ground arith

sibling_shift :
    (x y : Hash256) (rest : List Hash256) (i : ℕ)
    → sibling (x ∷ y ∷ rest) (suc (suc i)) ≡ sibling rest i
unfolding choose
sibling_shift x y rest zero =
    ap (λ b. choose 0 b (get_or [] rest 1) (get_or [] rest 0) []) (ltb_shift 0 (length rest))
sibling_shift x y rest (suc j) =
    let parity : suc (suc (suc j)) % 2 ≡ suc j % 2 = omega arith in
    let up : suc (suc (suc j)) + 1 ≡ suc (suc (suc j + 1)) = omega arith in
    let down : suc (suc (suc j)) - 1 ≡ suc (suc (suc j - 1)) = omega arith in
    ap₂
      (λ p b.
        choose p b (get_or [] (x ∷ y ∷ rest) (suc (suc (suc j)) + 1)) (get_or [] rest (suc j))
          (get_or [] (x ∷ y ∷ rest) (suc (suc (suc j)) - 1)))
      parity (ltb_shift (suc j) (length rest))
    ∙ ap₂
        (λ u d.
          choose (suc j % 2) (ltb (suc j + 1) (length rest)) (get_or [] (x ∷ y ∷ rest) u)
            (get_or [] rest (suc j)) (get_or [] (x ∷ y ∷ rest) d))
        up down

module _ (parent : Hash256 → Hash256 → Hash256) where
  pub length-next_layer :
      (layer : List Hash256) → length (next_layer parent layer) ≡ (length layer + 1) / 2
  unfolding next_layer
  length-next_layer [] = refl
  length-next_layer (x ∷ []) = refl
  length-next_layer (x ∷ y ∷ rest) = omega (arith, length-next_layer rest)

  -- A hash of the next layer is the parent of a hash and of the one beside it, in their order.
  pub next_layer-get :
      (layer : List Hash256) (idx : ℕ)
      → idx < length layer
      → get_or [] (next_layer parent layer) (idx / 2) ≡ (
          if idx % 2 == 0
          then parent (get_or [] layer idx) (sibling layer idx)
          else parent (sibling layer idx) (get_or [] layer idx))
  unfolding next_layer
  next_layer-get [] idx lt = elim lt [ ]
  next_layer-get (x ∷ []) zero lt = refl
  next_layer-get (x ∷ []) (suc i) lt = absurd (omega (arith, lt))
  next_layer-get (x ∷ y ∷ rest) zero lt = ground arith
  next_layer-get (x ∷ y ∷ rest) (suc zero) lt = refl
  next_layer-get (x ∷ y ∷ rest) (suc (suc i)) lt =
      ap (get_or [] (next_layer parent (x ∷ y ∷ rest))) {x = suc (suc i) / 2} {y = suc (i / 2)}
        (omega arith)
      ∙ next_layer-get rest i (omega (arith, lt))
      ∙ ap₂ (λ p s. if p == 0 then parent (get_or [] rest i) s else parent s (get_or [] rest i))
          {x = i % 2} {y = suc (suc i) % 2} (omega arith) (sym (sibling_shift x y rest i))

  -- More rounds than there are hashes change nothing.
  pub merkle_loop_fuel :
      (n m : ℕ) (layer : List Hash256)
      → length layer ≤ n
      → length layer ≤ m
      → merkle_loop parent n layer ≡ merkle_loop parent m layer
  unfolding merkle_loop
  merkle_loop_fuel zero zero layer p q = refl
  merkle_loop_fuel zero (suc m) layer p q = ground arith
  merkle_loop_fuel (suc n) zero layer p q = ground arith
  merkle_loop_fuel (suc n) (suc m) layer p q =
      if-elim
        (λ r. r ≡ (
          if leb (length layer) 1 then layer else merkle_loop parent m (next_layer parent layer)))
        (leb (length layer) 1) (λ t. ground arith)
        (λ f.
          merkle_loop_fuel n m (next_layer parent layer)
            (omega (arith, length-next_layer layer, not_leb (length layer) f))
            (omega (arith, length-next_layer layer, not_leb (length layer) f))
          ∙ ground arith)
    where
      not_leb : (k : ℕ) → leb k 1 ≡ false → 2 ≤ k
      not_leb k f = ground arith

-- The numbers of hashes in a layer and in the next one.
pub single : (k i : ℕ) → leb k 1 ≡ true → i < k → i ≡ 0
single k i t h = ground arith

pub shorter : (fuel k n : ℕ) → n ≡ (k + 1) / 2 → leb k 1 ≡ false → k ≤ suc fuel → n ≤ fuel
shorter fuel k n e f h = ground arith

pub half_inside : (k i n : ℕ) → n ≡ (k + 1) / 2 → i < k → i / 2 < n
half_inside k i n e h = omega arith
