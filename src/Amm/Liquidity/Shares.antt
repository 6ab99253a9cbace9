-- ===== src/Amm/Liquidity/Shares.antt =====
-- A deposit mints, and a withdrawal pays, no more than the share of the pool that it stands for.
use randioum.Base.{
  false, ℕ, ◌+◌, ◌-◌, ◌*◌, ◌/◌, ◌^◌, ◌≤◌, ◌<◌, ◌≡◌, sym, subst, if-elim, ltb, ◌==◌, ◌||◌,
  if◌then◌else◌, arith,
}
use native.Mathlib.Nat.{div-mul-le_self, mul-le-mul_right}
use randioum.Codec.Bytes.{IsU64}
use randioum.Result.{ok, fail_if_inv, ok-injective}
use randioum.Amm.Pool.{Pool, refuse}
use randioum.Amm.Liquidity.{share_minted, share_out}

smaller_share :
    (a b r0 r1 m0 m1 : ℕ)
    → a * r0 ≤ m0
    → b * r1 ≤ m1
    → ((if ltb a b then a else b) * r0 ≤ m0) × ((if ltb a b then a else b) * r1 ≤ m1)
smaller_share a b r0 r1 m0 m1 h0 h1 =
    if-elim (λ m. (m * r0 ≤ m0) × (m * r1 ≤ m1)) (ltb a b)
      (λ t. (h0, omega (arith, h1, mul-le-mul_right {m = a} {n = b} r1 (ground arith))))
      (λ f. (omega (arith, h0, mul-le-mul_right {m = b} {n = a} r0 (ground arith)), h1))

in_range : (k : ℕ) → (k == 0 || ltb (2 ^ 64 - 1) k) ≡ false → (0 < k) × IsU64 k
in_range k test = (ground arith, ground arith)

-- The tokens minted for a deposit into a pool that has some stand for no more than their share of
-- each reserve; they are some, and fit 64 bits.
pub share_minted-bound :
    (pool : Pool) (amt0 amt1 minted : ℕ)
    → share_minted pool amt0 amt1 ≡ ok minted
    → (minted * pool.r0 ≤ amt0 * pool.lp_supply)
      × (minted * pool.r1 ≤ amt1 * pool.lp_supply)
      × (0 < minted)
      × IsU64 minted
unfolding share_minted
share_minted-bound pool amt0 amt1 minted h =
    let a = amt0 * pool.lp_supply / pool.r0 in
    let b = amt1 * pool.lp_supply / pool.r1 in
    let m = if ltb a b then a else b in
    let (_, h1) = fail_if_inv (pool.r0 == 0 || pool.r1 == 0) refuse _ h in
    let (test, h2) = fail_if_inv (m == 0 || ltb (2 ^ 64 - 1) m) refuse _ h1 in
    let (le0, le1) =
      smaller_share a b pool.r0 pool.r1 _ _ (div-mul-le_self (amt0 * pool.lp_supply) pool.r0)
        (div-mul-le_self (amt1 * pool.lp_supply) pool.r1) in
    subst
      (λ k.
        (k * pool.r0 ≤ amt0 * pool.lp_supply)
        × (k * pool.r1 ≤ amt1 * pool.lp_supply)
        × (0 < k)
        × IsU64 k)
      (ok-injective h2) (let (pos, fits) = in_range m test in (le0, le1, pos, fits))

-- A withdrawal pays at most its share of a reserve, and something.
pub share_out-bound :
    (lp_amt reserve lp_supply paid : ℕ)
    → share_out lp_amt reserve lp_supply ≡ ok paid
    → (paid * lp_supply ≤ lp_amt * reserve) × (0 < paid) × IsU64 paid
unfolding share_out
share_out-bound lp_amt reserve lp_supply paid h =
    let q = lp_amt * reserve / lp_supply in
    let (test, h1) = fail_if_inv (q == 0 || ltb (2 ^ 64 - 1) q) refuse _ h in
    subst (λ k. (k * lp_supply ≤ lp_amt * reserve) × (0 < k) × IsU64 k) (ok-injective h1)
      (let (pos, fits) = in_range q test in
        (div-mul-le_self (lp_amt * reserve) lp_supply, pos, fits))

share_split :
    (lp_amt some_lp paid left : ℕ)
    → paid * (lp_amt + some_lp) ≤ lp_amt * (paid + left)
    → (paid + left) * some_lp ≤ left * (lp_amt + some_lp)
share_split lp_amt some_lp paid left h = omega arith

-- What is left of a reserve stands at least for the tokens that are left.
pub share_rest :
    (reserve lp_supply lp_amt paid : ℕ)
    → paid ≤ reserve
    → lp_amt ≤ lp_supply
    → paid * lp_supply ≤ lp_amt * reserve
    → reserve * (lp_supply - lp_amt) ≤ (reserve - paid) * lp_supply
share_rest reserve lp_supply lp_amt paid covered le share =
    let all_lp : lp_amt + (lp_supply - lp_amt) ≡ lp_supply = omega arith in
    let whole : paid + (reserve - paid) ≡ reserve = omega arith in
    subst (λ r. r * (lp_supply - lp_amt) ≤ (reserve - paid) * lp_supply) whole
      (subst (λ s. (paid + (reserve - paid)) * (lp_supply - lp_amt) ≤ (reserve - paid) * s) all_lp
        (share_split lp_amt (lp_supply - lp_amt) paid (reserve - paid) (
          subst (λ s. paid * s ≤ lp_amt * (paid + (reserve - paid))) (sym all_lp)
            (subst (λ r. paid * lp_supply ≤ lp_amt * r) (sym whole) share))))
