-- ===== src/Chain/Proof/Inclusion.antt =====
-- The parents and the paths of src/proof.cpp.
use mathlib.Core.Path.{fun_ext}
use randioum.Base.{
  ℕ, zero, suc, ◌+◌, ◌/◌, ◌^◌, ◌≤◌, ◌<◌, ◌≡◌, inl, inr, sym, ap, subst, false, Bool-cases, leb,
  List, length, arith,
}
use native.Mathlib.Nat.{pow-suc}
use randioum.Hash.Sha256.{sha256_2x32}
use randioum.Hash.Sha256.Reference.{sha256_2x32-sha256}
use randioum.Chain.Merkle.{Hash256, next_layer, collect_siblings}
use randioum.Chain.Merkle.Layers.{shorter, length-next_layer}
use randioum.Chain.Merkle.Paths.{collect_stop, collect_go}
use randioum.Chain.Proof.{merkle_parent}
use randioum.Chain.Proof.Depth.{IsDepth}

-- The two ways of hashing a pair are one function.
pub merkle_parent-sha256_2x32 : sha256_2x32 ≡ merkle_parent
unfolding merkle_parent
merkle_parent-sha256_2x32 = fun_ext (λ left. fun_ext (λ right. sha256_2x32-sha256 left right))

-- A path has a sibling for each level.
pub collect-IsDepth :
    (fuel : ℕ) (layer : List Hash256) (idx : ℕ)
    → length layer ≤ fuel
    → 1 ≤ length layer
    → IsDepth (length layer) (length (collect_siblings merkle_parent fuel layer idx))
collect-IsDepth zero layer idx enough some_leaf =
    let no : 1 ≤ 0 = omega (arith, enough, some_leaf) in elim no [ ]
collect-IsDepth (suc fuel) layer idx enough some_leaf = elim (Bool-cases (leb (length layer) 1)) [
  | inl t ↦
      subst (IsDepth (length layer)) (sym (ap length (collect_stop merkle_parent fuel layer idx t)))
        (record { holds = ground arith; least = λ e lt. elim lt [ ] })
  | inr f ↦
      let above =
        collect-IsDepth fuel (next_layer merkle_parent layer) (idx / 2)
          (shorter fuel (length layer) _ (length-next_layer merkle_parent layer) f enough)
          (omega (arith, length-next_layer merkle_parent layer, some_leaf)) in
      subst (IsDepth (length layer)) (sym (ap length (collect_go merkle_parent fuel layer idx f)))
        (deeper (length layer) _ _ (length-next_layer merkle_parent layer) f above)
]
  where
    deeper : (k n d : ℕ) → n ≡ (k + 1) / 2 → leb k 1 ≡ false → IsDepth n d → IsDepth k (suc d)
    deeper k n d e f p = record {
      holds = omega (arith, e, p.holds, pow-suc 2 d);
      least = least_level;
    }
      where
        least_level : (j : ℕ) → j < suc d → 2 ^ j < k
        least_level zero lt = ground arith
        least_level (suc j) lt = omega (arith, e, p.least j (omega (arith, lt)), pow-suc 2 j)
