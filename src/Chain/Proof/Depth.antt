-- ===== src/Chain/Proof/Depth.antt =====
-- `merkle_depth`: what it gives, and where its loop does not end.
use randioum.Base.{
  true, ℕ, zero, suc, ◌+◌, ◌*◌, ◌%◌, ◌^◌, ◌≤◌, ◌<◌, ◌≡◌, ◌⊎◌, inl, inr, refl, sym, ap, subst, ltb,
  leb, ltb→lt, not_lt→le, if-elim, le-or-lt, none, some, arith,
}
use native.Mathlib.Nat.{one-le-pow, pow-suc, mul-le-mul_left}
use randioum.Chain.Proof.{depth_loop, merkle_depth}

-- The least number of levels that hold as many leaves.
pub record IsDepth (leaf_count d : ℕ) : Type 0 where
  pub holds : leaf_count ≤ 2 ^ d
  pub least : (e : ℕ) → e < d → 2 ^ e < leaf_count

-- Doubling on the way to 2 ^ 63 does not wrap.
double_exact :
    (n left : ℕ)
    → n * 2 ^ suc left ≡ 2 ^ 63
    → (n * 2 % 2 ^ 64 ≡ n * 2) × (n * 2 * 2 ^ left ≡ 2 ^ 63)
double_exact n left top =
    let expand = ap (λ (t : ℕ). n * t) (pow-suc 2 left) in
    let grows = mul-le-mul_left {m = 1} {n = 2 ^ left} (n * 2) (one-le-pow left 2 (omega arith)) in
    (omega (arith, expand, grows, top), omega (arith, expand, top))

below_top : (n left : ℕ) → n * 2 ^ left ≡ 2 ^ 63 → n ≤ 2 ^ 63
below_top n left top =
    omega (arith, top, mul-le-mul_left {m = 1} {n = 2 ^ left} n (one-le-pow left 2 (omega arith)))

-- While 2 ^ 63 has not been reached, the loop runs on towards it.
depth_loop-IsDepth :
    (left rounds n d leaf_count : ℕ)
    → n * 2 ^ left ≡ 2 ^ 63
    → n ≡ 2 ^ d
    → leaf_count ≤ 2 ^ 63
    → ((e : ℕ) → e < d → 2 ^ e < leaf_count)
    → left < rounds
    → (e : ℕ) × (depth_loop rounds n d leaf_count ≡ some e) × IsDepth leaf_count e
unfolding depth_loop
depth_loop-IsDepth left zero n d c top here fits least enough = elim enough [ ]
depth_loop-IsDepth zero (suc rounds) n d c top here fits least enough =
    if-elim (λ o. (e : ℕ) × (o ≡ some e) × IsDepth c e) (ltb n c)
      (λ t. absurd (omega (arith, ltb→lt n c t, top, fits)))
      (λ f. (d, refl, record { holds = omega (arith, not_lt→le n c f, here); least = least }))
depth_loop-IsDepth (suc left) (suc rounds) n d c top here fits least enough =
    if-elim (λ o. (e : ℕ) × (o ≡ some e) × IsDepth c e) (ltb n c)
      (λ t.
        depth_loop-IsDepth left rounds (n * 2 % 2 ^ 64) (d + 1) c
          (subst (λ k. k * 2 ^ left ≡ 2 ^ 63) (sym (double_exact n left top).0)
            (double_exact n left top).1)
          (omega (
            arith,
            (double_exact n left top).0,
            here,
            pow-suc 2 d,
            ap (λ (k : ℕ). 2 ^ k) {x = d + 1} {y = suc d} (omega arith),
          ))
          fits (more t) (omega (arith, enough)))
      (λ f. (d, refl, record { holds = omega (arith, not_lt→le n c f, here); least = least }))
  where
    more : ltb n c ≡ true → (e : ℕ) → e < d + 1 → 2 ^ e < c
    more t e lt = elim (le-or-lt d e) [
      | inl le ↦
          omega (arith, here, ltb→lt n c t, ap (λ (k : ℕ). 2 ^ k) {x = e} {y = d} (omega arith))
      | inr below ↦ least e below
    ]

-- Up to 2 ^ 63 leaves, `merkle_depth` returns the least number of levels that hold them.
pub merkle_depth-IsDepth :
    (leaf_count : ℕ)
    → leaf_count ≤ 2 ^ 63
    → (d : ℕ) × (merkle_depth leaf_count ≡ some d) × IsDepth leaf_count d
unfolding merkle_depth
merkle_depth-IsDepth c fits =
    if-elim (λ o. (d : ℕ) × (o ≡ some d) × IsDepth c d) (leb c 1)
      (λ t. (0, refl, record { holds = ground arith; least = λ e lt. elim lt [ ] }))
      (λ f. depth_loop-IsDepth 63 64 1 0 c refl refl fits (λ e lt. elim lt [ ]) (omega arith))

-- Past 2 ^ 63 leaves, the number that is doubled wraps to 0, and the loop never ends.
depth_loop_hangs :
    (rounds n d leaf_count : ℕ)
    → ((left : ℕ) × (n * 2 ^ left ≡ 2 ^ 63)) ⊎ (n ≡ 0)
    → 2 ^ 63 < leaf_count
    → depth_loop rounds n d leaf_count ≡ none
unfolding depth_loop
depth_loop_hangs zero n d c at big = refl
depth_loop_hangs (suc rounds) n d c at big =
    if-elim (λ o. o ≡ none) (ltb n c)
      (λ t. depth_loop_hangs rounds (n * 2 % 2 ^ 64) (d + 1) c (next at) big)
      (λ f. absurd (omega (arith, not_lt→le n c f, big, below at)))
  where
    below : ((left : ℕ) × (n * 2 ^ left ≡ 2 ^ 63)) ⊎ (n ≡ 0) → n ≤ 2 ^ 63
    below (inl (left, top)) = below_top n left top
    below (inr e) = omega arith

    next :
        ((left : ℕ) × (n * 2 ^ left ≡ 2 ^ 63)) ⊎ (n ≡ 0)
        → ((left : ℕ) × (n * 2 % 2 ^ 64 * 2 ^ left ≡ 2 ^ 63)) ⊎ (n * 2 % 2 ^ 64 ≡ 0)
    next (inl (zero, top)) = inr (omega (arith, top))
    next (inl (suc left, top)) = inl (
      left,
      subst (λ k. k * 2 ^ left ≡ 2 ^ 63) (sym (double_exact n left top).0)
          (double_exact n left top).1,
    )
    next (inr e) = inr (omega arith)

-- `merkle_depth` does not return for more than 2 ^ 63 leaves, in any number of rounds of its loop.
pub merkle_depth_hangs :
    (rounds leaf_count : ℕ) → 2 ^ 63 < leaf_count → depth_loop rounds 1 0 leaf_count ≡ none
merkle_depth_hangs rounds leaf_count big =
    depth_loop_hangs rounds 1 0 leaf_count (inl (63, refl)) big

-- There is one such number of levels.
pub IsDepth-unique : (c d e : ℕ) → IsDepth c d → IsDepth c e → d ≡ e
IsDepth-unique c d e p q = elim (le-or-lt d e) [
  | inl le ↦ elim (le-or-lt e d) [
    | inl ge ↦ omega arith
    | inr lt ↦ absurd (omega (arith, q.least d lt, p.holds))
  ]
  | inr lt ↦ absurd (omega (arith, p.least e lt, q.holds))
]
