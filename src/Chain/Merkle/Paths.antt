-- ===== src/Chain/Merkle/Paths.antt =====
-- The loops of a Merkle tree, round by round, and the path from a leaf to the root.
use randioum.Base.{
  ℕ, zero, suc, ◌/◌, ◌≤◌, ◌<◌, ◌≡◌, inl, inr, refl, sym, ap, ◌∙◌, true, false, Bool-cases, leb,
  List, [], ◌∷◌, length, get_or, arith,
}
use randioum.Chain.Merkle.{Hash256, next_layer, merkle_loop, sibling, collect_siblings, path_root}
use randioum.Chain.Merkle.Layers.{single, shorter, half_inside, length-next_layer, next_layer-get}

module _ (parent : Hash256 → Hash256 → Hash256) where
  pub loop_stop :
      (fuel : ℕ) (layer : List Hash256)
      → leb (length layer) 1 ≡ true
      → merkle_loop parent (suc fuel) layer ≡ layer
  unfolding merkle_loop
  loop_stop fuel layer t = rw t refl

  pub loop_go :
      (fuel : ℕ) (layer : List Hash256)
      → leb (length layer) 1 ≡ false
      → merkle_loop parent (suc fuel) layer ≡ merkle_loop parent fuel (next_layer parent layer)
  unfolding merkle_loop
  loop_go fuel layer f = rw f refl

  pub collect_stop :
      (fuel : ℕ) (layer : List Hash256) (idx : ℕ)
      → leb (length layer) 1 ≡ true
      → collect_siblings parent (suc fuel) layer idx ≡ []
  unfolding collect_siblings
  collect_stop fuel layer idx t = rw t refl

  pub collect_go :
      (fuel : ℕ) (layer : List Hash256) (idx : ℕ)
      → leb (length layer) 1 ≡ false
      → collect_siblings parent (suc fuel) layer idx
        ≡ sibling layer idx ∷ collect_siblings parent fuel (next_layer parent layer) (idx / 2)
  unfolding collect_siblings
  collect_go fuel layer idx f = rw f refl

  -- The path that is built leads to the root.
  pub collect-path_root :
      (fuel : ℕ) (layer : List Hash256) (idx : ℕ)
      → length layer ≤ fuel
      → idx < length layer
      → path_root parent (get_or [] layer idx) idx (collect_siblings parent fuel layer idx)
        ≡ get_or [] (merkle_loop parent fuel layer) 0
  unfolding path_root
  collect-path_root zero layer idx enough lt =
      let no : 1 ≤ 0 = omega (arith, enough, lt) in elim no [ ]
  collect-path_root (suc fuel) layer idx enough lt = elim (Bool-cases (leb (length layer) 1)) [
    | inl t ↦
        ap (path_root parent (get_or [] layer idx) idx) (collect_stop fuel layer idx t)
        ∙ ap (get_or [] layer) {x = idx} {y = 0} (single (length layer) idx t lt)
        ∙ ap (λ l. get_or [] l 0) (sym (loop_stop fuel layer t))
    | inr f ↦
        ap (path_root parent (get_or [] layer idx) idx) (collect_go fuel layer idx f)
        ∙ ap
            (λ c.
              path_root parent c (idx / 2)
                (collect_siblings parent fuel (next_layer parent layer) (idx / 2)))
            (sym (next_layer-get parent layer idx lt))
        ∙ collect-path_root fuel (next_layer parent layer) (idx / 2)
            (shorter fuel (length layer) _ (length-next_layer parent layer) f enough)
            (half_inside (length layer) idx _ (length-next_layer parent layer) lt)
        ∙ ap (λ l. get_or [] l 0) (sym (loop_go fuel layer f))
  ]
