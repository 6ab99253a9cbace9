-- ===== src/Chain/Proof/Sound.antt =====
-- Paths of src/proof.cpp that lead to the root of a tree, and where they start.
use randioum.Base.{
  ℕ, zero, suc, ◌+◌, ◌-◌, ◌/◌, ◌%◌, ◌≤◌, ◌<◌, ◌≡◌, ◌⊎◌, inl, inr, sym, ap, ◌∙◌, Bool, true, false,
  Bool-cases, if-elim, ltb, leb, ◌==◌, if◌then◌else◌, List, [], ◌∷◌, length, get_or, All, arith,
  ltb→lt, refl, subst, ◌++◌, if_false,
}
use randioum.Chain.Merkle.{Hash256, next_layer, merkle_loop, sibling, collect_siblings, path_root}
use randioum.Chain.Proof.{merkle_parent}
use randioum.Chain.Proof.Collisions.{
  IsHash, Among, Among-left, Among-right, Among-get_or, Collision, Collision-widen, path_inputs,
  layer_inputs, tree_inputs, merkle_parent_split, merkle_parent-IsHash,
}
use randioum.Chain.Merkle.Layers.{single, shorter, half_inside, length-next_layer, next_layer-get}
use randioum.Chain.Merkle.Paths.{loop_stop, loop_go, collect_stop, collect_go}

All-get_or :
    (layer : List Hash256) (i : ℕ)
    → All IsHash layer
    → i < length layer
    → IsHash (get_or [] layer i)
All-get_or [] i all lt = elim lt [ ]
All-get_or (x ∷ layer) zero (p, all) lt = p
All-get_or (x ∷ layer) (suc i) (p, all) lt = All-get_or layer i all (omega (arith, lt))

sibling-IsHash :
    (layer : List Hash256) (i : ℕ) → All IsHash layer → i < length layer → IsHash (sibling layer i)
sibling-IsHash layer i all lt =
    if-elim IsHash (i % 2 == 0)
      (λ even.
        if-elim IsHash (ltb (i + 1) (length layer))
          (λ t. All-get_or layer (i + 1) all (ltb→lt _ _ t)) (λ f. All-get_or layer i all lt))
      (λ odd. All-get_or layer (i - 1) all (omega arith))

next_layer-IsHash :
    (layer : List Hash256) → All IsHash layer → All IsHash (next_layer merkle_parent layer)
unfolding next_layer
next_layer-IsHash [] all = tt
next_layer-IsHash (x ∷ []) all = (merkle_parent-IsHash x x, tt)
next_layer-IsHash (x ∷ y ∷ rest) (p, (q, all)) =
    (merkle_parent-IsHash x y, next_layer-IsHash rest all)

-- One step: where the parents agree, the hashes do.
step_back :
    (layer : List Hash256) (idx : ℕ) (cur sib : Hash256)
    → idx < length layer
    → All IsHash layer
    → IsHash cur
    → IsHash sib
    → (if idx % 2 == 0 then merkle_parent cur sib else merkle_parent sib cur)
      ≡ get_or [] (next_layer merkle_parent layer) (idx / 2)
    → (cur ≡ get_or [] layer idx)
      ⊎ Collision ((if idx % 2 == 0 then cur ++ sib else sib ++ cur) ∷ []) (layer_inputs layer)
step_back layer idx cur sib lt all hc hs h =
    both (idx % 2 == 0) (h ∙ next_layer-get merkle_parent layer idx lt) (
      subst (λ x. Among x (layer_inputs layer))
        (next_layer-get (λ left right. left ++ right) layer idx lt)
        (Among-get_or (layer_inputs layer) (idx / 2) (
          half_inside (length layer) idx _ (length-next_layer (λ left right. left ++ right) layer)
            lt)))
  where
    there : Hash256
    there = get_or [] layer idx

    beside : Hash256
    beside = sibling layer idx

    both :
        (even : Bool)
        → (if even then merkle_parent cur sib else merkle_parent sib cur)
          ≡ (if even then merkle_parent there beside else merkle_parent beside there)
        → Among (if even then there ++ beside else beside ++ there) (layer_inputs layer)
        → (cur ≡ there)
          ⊎ Collision ((if even then cur ++ sib else sib ++ cur) ∷ []) (layer_inputs layer)
    both true e known =
        elim (merkle_parent_split ((cur ++ sib) ∷ []) (layer_inputs layer) cur sib there beside
          (inl refl) known hc hs (All-get_or layer idx all lt) (sibling-IsHash layer idx all lt)
          e) [ inl p ↦ inl p.0 | inr bad ↦ inr bad ]
    both false e known =
        elim (merkle_parent_split ((sib ++ cur) ∷ []) (layer_inputs layer) sib cur beside there
          (inl refl) known hs hc (sibling-IsHash layer idx all lt) (All-get_or layer idx all lt)
          e) [ inl p ↦ inl p.1 | inr bad ↦ inr bad ]

Among-first : (x y : List ℕ) (xs : List (List ℕ)) → Among x (y ∷ []) → Among x (y ∷ xs)
Among-first x y xs (inl e) = inl e
Among-first x y xs (inr p) = absurd p

tree_inputs_go :
    (fuel : ℕ) (layer : List Hash256)
    → leb (length layer) 1 ≡ false
    → layer_inputs layer ++ tree_inputs fuel (next_layer merkle_parent layer)
      ≡ tree_inputs (suc fuel) layer
tree_inputs_go fuel layer f = sym (if_false _ _ f)

pub path_root_sound :
    (fuel : ℕ) (layer : List Hash256) (idx : ℕ) (cur : Hash256) (siblings : List Hash256)
    → length layer ≤ fuel
    → idx < length layer
    → length siblings ≡ length (collect_siblings merkle_parent fuel layer idx)
    → All IsHash layer
    → IsHash cur
    → All IsHash siblings
    → path_root merkle_parent cur idx siblings ≡ get_or [] (merkle_loop merkle_parent fuel layer) 0
    → (cur ≡ get_or [] layer idx)
      ⊎ Collision (path_inputs cur idx siblings) (tree_inputs fuel layer)
unfolding path_root
path_root_sound zero layer idx cur siblings enough lt same all hc hs h =
    let no : 1 ≤ 0 = omega (arith, enough, lt) in elim no [ ]
path_root_sound (suc fuel) layer idx cur [] enough lt same all hc hs h =
    elim (Bool-cases (leb (length layer) 1)) [
      | inl t ↦ inl (
          h
          ∙ ap (λ l. get_or [] l 0) (loop_stop merkle_parent fuel layer t)
          ∙ ap (get_or [] layer) {x = 0} {y = idx} (sym (single (length layer) idx t lt)))
      | inr f ↦
          let no : 1 ≤ 0 =
            omega (arith, same, ap length (collect_go merkle_parent fuel layer idx f)) in
          elim no [ ]
    ]
path_root_sound (suc fuel) layer idx cur (sib ∷ siblings) enough lt same all hc (hs, rest) h =
    elim (Bool-cases (leb (length layer) 1)) [
      | inl t ↦
          let no : 1 ≤ 0 =
            omega (arith, same, ap length (collect_stop merkle_parent fuel layer idx t)) in
          elim no [ ]
      | inr f ↦
          elim (path_root_sound fuel (next_layer merkle_parent layer) (idx / 2)
            (if idx % 2 == 0 then merkle_parent cur sib else merkle_parent sib cur) siblings
            (shorter fuel (length layer) _ (length-next_layer merkle_parent layer) f enough)
            (half_inside (length layer) idx _ (length-next_layer merkle_parent layer) lt)
            (omega (arith, same, ap length (collect_go merkle_parent fuel layer idx f)))
            (next_layer-IsHash layer all)
            (if-elim IsHash (idx % 2 == 0) (λ t. merkle_parent-IsHash cur sib)
              (λ g. merkle_parent-IsHash sib cur))
            rest (h ∙ ap (λ l. get_or [] l 0) (loop_go merkle_parent fuel layer f))) [
              | inl agree ↦ elim (step_back layer idx cur sib lt all hc hs agree) [
                | inl e ↦ inl e
                | inr bad ↦ inr (
                    Collision-widen _ _ _ _ (λ x. Among-first x _ _)
                      (λ x p.
                        subst (Among x) (tree_inputs_go fuel layer f)
                          (Among-left x (layer_inputs layer) _ p))
                      bad)
              ]
              | inr bad ↦ inr (
                  Collision-widen _ _ _ _ (λ x p. inr p)
                    (λ x p.
                      subst (Among x) (tree_inputs_go fuel layer f)
                        (Among-right x (layer_inputs layer) _ p))
                    bad)
            ]
    ]
