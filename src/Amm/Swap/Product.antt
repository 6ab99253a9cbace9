-- ===== src/Amm/Swap/Product.antt =====
-- The product of a pool's reserves does not fall in a swap.
use randioum.Base.{ℕ, ◌+◌, ◌-◌, ◌*◌, ◌/◌, ◌^◌, ◌≤◌, ◌<◌, ◌≡◌, subst, ltb, not, ◌==◌, ◌||◌, arith}
use native.Mathlib.Nat.{div-mul-le_self, mul-le-mul_right, mul-le-mul_left}
use randioum.Result.{ok, fail_if_inv, ok-injective}
use randioum.Amm.Pool.{refuse}
use randioum.Amm.Swap.{swap_out}

product_bound :
    (rin rout amt_in in_af amt_out : ℕ)
    → in_af ≤ amt_in
    → amt_out ≤ rout
    → amt_out * (rin + in_af) ≤ in_af * rout
    → rin * rout ≤ (rin + amt_in) * (rout - amt_out)
product_bound rin rout amt_in in_af amt_out fee le quote =
    subst (λ t. rin * t ≤ (rin + amt_in) * (rout - amt_out)) {x = amt_out + (rout - amt_out)}
      (omega arith)
      (scaled (rout - amt_out) (
        subst (λ t. amt_out * (rin + in_af) ≤ in_af * t) {y = amt_out + (rout - amt_out)}
          (omega arith) quote))
  where
    scaled :
        (rest : ℕ)
        → amt_out * (rin + in_af) ≤ in_af * (amt_out + rest)
        → rin * (amt_out + rest) ≤ (rin + amt_in) * rest
    scaled rest h = omega (arith, mul-le-mul_right {m = in_af} {n = amt_in} rest fee)

fee_taken : (amt_in fee_bps : ℕ) → amt_in * (10000 - fee_bps) / 10000 ≤ amt_in
fee_taken amt_in fee_bps =
    omega (arith, mul-le-mul_left {m = 10000 - fee_bps} {n = 10000} amt_in (omega arith))

-- What is paid out is less than the reserve, at least the minimum, and so little that the product
-- of the reserves does not fall, whatever the fee.
pub swap_out-product :
    (fee_bps amt_in min_out rin rout amt_out : ℕ)
    → swap_out fee_bps amt_in min_out rin rout ≡ ok amt_out
    → (min_out ≤ amt_out) × (amt_out < rout) × (rin * rout ≤ (rin + amt_in) * (rout - amt_out))
unfolding swap_out
swap_out-product fee_bps amt_in min_out rin rout amt_out h =
    let in_af = amt_in * (10000 - fee_bps) / 10000 in
    let out_128 = in_af * rout / (rin + in_af) in
    let (_, h1) = fail_if_inv (in_af == 0 || ltb (2 ^ 64 - 1) in_af) refuse _ h in
    let (_, h2) = fail_if_inv (rin + in_af == 0) refuse _ h1 in
    let (_, h3) = fail_if_inv (out_128 == 0 || ltb (2 ^ 64 - 1) out_128) refuse _ h2 in
    let (min_test, h4) = fail_if_inv (ltb out_128 min_out) refuse _ h3 in
    let (max_test, h5) = fail_if_inv (not (ltb out_128 rout)) refuse _ h4 in
    let covered : out_128 < rout = ground arith in
    let enough : min_out ≤ out_128 = ground arith in
    subst (λ a. (min_out ≤ a) × (a < rout) × (rin * rout ≤ (rin + amt_in) * (rout - a)))
      (ok-injective h5)
      (
        enough,
        covered,
        product_bound rin rout amt_in in_af out_128 (fee_taken amt_in fee_bps)
            (omega (arith, covered)) (div-mul-le_self (in_af * rout) (rin + in_af)),
      )
