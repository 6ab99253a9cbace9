-- ===== src/Mempool/Fees.antt =====
-- The fees of a transaction, and the keys that order the pool: the first functions of
-- src/mempool.cpp.
use randioum.Base.{
  ℕ, ◌+◌, ◌-◌, ◌*◌, ◌/◌, ◌%◌, ◌^◌, Bool, true, false, not, ◌&&◌, ltb, ◌==◌, if◌then◌else◌,
}
use randioum.Base.Maps.{text_ltb}
use randioum.Codec.Tx.{Transaction}
use randioum.Chain.Merkle.{Hash256}

pub record Key : Type 0 where
  pub is_v2 : Bool
  pub effective_fee_per_gas : ℕ
  pub effective_compute_bid : ℕ
  pub fee_rate_per_byte : ℕ
  pub fee : ℕ
  pub id : Hash256

-- The three numbers and the identifier by which two keys of one version are compared: more is less.
abbrev pub less_by : ℕ → ℕ → ℕ → ℕ → Hash256 → Hash256 → Bool
less_by a1 b1 a2 b2 a_id b_id =
    if not (a1 == b1) then ltb b1 a1 else if not (a2 == b2) then ltb b2 a2 else text_ltb a_id b_id

-- Version 2 goes first; within a version, another test decides.
abbrev pub by_version : Bool → Bool → Bool → Bool → Bool
by_version a_is_v2 b_is_v2 v2_less v1_less =
    if a_is_v2 then if b_is_v2 then v2_less else true else if b_is_v2 then false else v1_less

unfoldable pub key_less : Key → Key → Bool
key_less a b =
    by_version a.is_v2 b.is_v2
      (less_by a.effective_compute_bid b.effective_compute_bid a.effective_fee_per_gas
        b.effective_fee_per_gas a.id b.id)
      (less_by a.fee_rate_per_byte b.fee_rate_per_byte a.fee b.fee a.id b.id)

unfoldable pub fee_rate : Transaction → ℕ → ℕ
fee_rate tx bytes =
    if bytes == 0 then 0 else ((tx.fee + bytes) % 2 ^ 64 + 2 ^ 64 - 1) % 2 ^ 64 / bytes

abbrev pub max_fee_per_gas : Transaction → ℕ
max_fee_per_gas tx = if not (tx.max_fee_per_gas == 0) then tx.max_fee_per_gas else tx.fee

unfoldable pub effective_fee_per_gas : Transaction → ℕ → ℕ
effective_fee_per_gas tx base_fee_per_gas =
    let sum =
      if ltb (2 ^ 64 - 1 - base_fee_per_gas) tx.priority_fee_per_gas
      then 2 ^ 64 - 1
      else (base_fee_per_gas + tx.priority_fee_per_gas) % 2 ^ 64 in
    if ltb tx.version 2 then 0 else if ltb (max_fee_per_gas tx) sum then max_fee_per_gas tx else sum

abbrev pub compute_price : Transaction → ℕ
compute_price tx =
    if not (tx.compute_price_per_unit == 0)
    then tx.compute_price_per_unit
    else tx.priority_fee_per_gas

abbrev pub compute_units : Transaction → ℕ
compute_units tx = if not (tx.compute_limit == 0) then tx.compute_limit else 1

abbrev pub bid_of : ℕ → ℕ → ℕ
bid_of price limit =
    if price == 0
    then 0
    else if limit == 0
    then 0
    else if ltb ((2 ^ 64 - 1) / limit) price
    then 2 ^ 64 - 1
    else price * limit % 2 ^ 64

unfoldable pub effective_compute_bid : Transaction → ℕ
effective_compute_bid tx =
    if ltb tx.version 2
    then 0
    else if (tx.compute_limit == 0) && (tx.compute_price_per_unit == 0)
    then 0
    else bid_of (compute_price tx) (compute_units tx)
