-- ===== src/Mempool/Bids.antt =====
-- The values of `effective_fee_per_gas` and `effective_compute_bid` of src/mempool.cpp.
use native.Mathlib.Nat.{mul-le-mul_right, lt-div-mul-add, div-mul-le_self}
use Prim.Native.Nat.{min}
use randioum.Base.{
  ℕ, ◌+◌, ◌-◌, ◌*◌, ◌/◌, ◌%◌, ◌^◌, ◌≤◌, ◌<◌, ◌≡◌, ap, ◌∙◌, false, not, ◌&&◌, ltb, ◌==◌,
  if◌then◌else◌, if-elim, if_false, ltb→lt, not_lt→le, arith,
}
use randioum.Codec.Tx.{Transaction}
use randioum.Mempool.Fees.{
  max_fee_per_gas, effective_fee_per_gas, compute_price, compute_units, bid_of,
  effective_compute_bid,
}

above : (q l p top : ℕ) → top < q * l + l → q < p → top ≤ p * l
above q l p top h lt = omega (arith, h, mul-le-mul_right {m = q + 1} {n = p} l (omega (arith, lt)))

within : (q l p top : ℕ) → q * l ≤ top → p ≤ q → p * l ≤ top
within q l p top h le = omega (arith, h, mul-le-mul_right {m = p} {n = q} l le)

bid_of-min : (price limit : ℕ) → 1 ≤ limit → bid_of price limit ≡ min (price * limit) (2 ^ 64 - 1)
bid_of-min price limit some_unit =
    let top = 2 ^ 64 - 1 in
    if-elim (λ r. r ≡ min (price * limit) top) (price == 0)
      (λ t. omega (arith, ap (λ p. p * limit) {x = price} {y = 0} (ground arith)))
      (λ f.
        if-elim (λ r. r ≡ min (price * limit) top) (limit == 0) (λ t. absurd (ground arith))
          (λ g.
            if-elim (λ r. r ≡ min (price * limit) top) (ltb (top / limit) price)
              (λ t. omega (
                arith,
                above (top / limit) limit price top (lt-div-mul-add {a = top} {b = limit} some_unit)
                    (ltb→lt _ _ t),
              ))
              (λ h. omega (
                arith,
                within (top / limit) limit price top (div-mul-le_self top limit) (not_lt→le _ _ h),
              ))))

compute_units-pos : (t : Transaction) → 1 ≤ compute_units t
compute_units-pos t =
    if-elim (λ n. 1 ≤ n) (not (t.compute_limit == 0)) (λ p. ground arith) (λ p. omega arith)

-- The effective fee of a version 2 transaction, with a base fee and a priority fee of 64 bits, is the
-- lesser of its maximal fee and of the sum of the two, and its bid is its units at their price; the
-- sum and the product are exact up to the largest 64-bit number, and that number beyond it. Without
-- compute fields there is no bid.
pub effective-exact :
    (tx : Transaction) (base : ℕ)
    → ltb tx.version 2 ≡ false
    → tx.priority_fee_per_gas < 2 ^ 64
    → base < 2 ^ 64
    → (effective_fee_per_gas tx base
        ≡ min (max_fee_per_gas tx) (min (base + tx.priority_fee_per_gas) (2 ^ 64 - 1)))
      × (effective_compute_bid tx ≡ (
          if (tx.compute_limit == 0) && (tx.compute_price_per_unit == 0)
          then 0
          else min (compute_price tx * compute_units tx) (2 ^ 64 - 1)))
unfolding effective_fee_per_gas effective_compute_bid
effective-exact tx base v2 prio base_fits = (
  if_false _ _ v2 ∙ fee (max_fee_per_gas tx) base tx.priority_fee_per_gas base_fits prio,
  if_false _ _ v2
      ∙ ap (λ n. if (tx.compute_limit == 0) && (tx.compute_price_per_unit == 0) then 0 else n)
          (bid_of-min (compute_price tx) (compute_units tx) (compute_units-pos tx)),
)
  where
    fee :
        (m b p : ℕ)
        → b < 2 ^ 64
        → p < 2 ^ 64
        → (if ltb m (if ltb (2 ^ 64 - 1 - b) p then 2 ^ 64 - 1 else (b + p) % 2 ^ 64)
            then m
            else if ltb (2 ^ 64 - 1 - b) p
            then 2 ^ 64 - 1
            else (b + p) % 2 ^ 64)
          ≡ min m (min (b + p) (2 ^ 64 - 1))
    fee m b p h k = ground arith
