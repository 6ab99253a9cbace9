-- ===== src/Mempool/Runs.antt =====
-- The pool on concrete inputs, and its theorems there.
use randioum.Base.{◌≡◌, refl, [], some, arith, List, ◌∷◌, All}
use randioum.Codec.Tx.{Transaction, serialize_tx, append_fees}
use randioum.Mempool.Fees.{effective_fee_per_gas, effective_compute_bid, fee_rate}
use randioum.Mempool.Bids.{effective-exact}
use randioum.Mempool.Pool.{MempoolOptions, Mempool, mempool}
use randioum.Mempool.Counts.{IsSound}
use randioum.Mempool.Changes.{
  Request, adding, removing, HasRoom, handle_requests, handle_requests-IsSound,
}
use randioum.Codec.Bytes.{append_u32_le, append_u64_le}

abbrev options : MempoolOptions
options = record {
  max_txs = 1;
  max_total_bytes = 1000;
  shards = 4;
  min_fee_rate_per_byte = 1;
  base_fee_per_gas = 5;
  max_tx_payload_bytes = 100;
  max_tx_version = 2;
}

abbrev bidding_tx : Transaction
bidding_tx = record {
  version = 2;
  nonce = 7;
  fee = 900;
  max_fee_per_gas = 8;
  priority_fee_per_gas = 2;
  compute_limit = 16;
  compute_price_per_unit = 18446744073709551615;
  payload = [];
}

-- The fee is 5 + 2, and the bid does not fit 64 bits.
effective_fee-bidding_tx : effective_fee_per_gas bidding_tx 5 ≡ 7
unfolding effective_fee_per_gas
effective_fee-bidding_tx = refl

effective-exact_example :
    (effective_fee_per_gas bidding_tx 5 ≡ 7)
    × (effective_compute_bid bidding_tx ≡ 18446744073709551615)
effective-exact_example = effective-exact bidding_tx 5 refl (omega arith) (omega arith)

-- A fee of 2 ^ 64 - 10 on 100 bytes: the sum that rounds the rate up wraps.
fee_rate-wrapped : fee_rate (record bidding_tx { fee = 18446744073709551606 }) 100 ≡ 0
unfolding fee_rate
fee_rate-wrapped = refl

-- A transaction that bids less, and then the other one, for a pool of one.
abbrev requests : List Request
requests =
    adding (record bidding_tx { max_fee_per_gas = 6; priority_fee_per_gas = 1 })
    ∷ adding bidding_tx
    ∷ removing []
    ∷ []

rooms : All (HasRoom options) requests
unfolding serialize_tx append_fees append_u32_le append_u64_le
rooms = ((omega arith, omega arith), ((omega arith, omega arith), ((omega arith, omega arith), tt)))

handle_requests-IsSound_example :
    (pool : Mempool) × (handle_requests requests (mempool options) ≡ some pool)
    × IsSound pool
    × (pool.opt ≡ (mempool options).opt)
handle_requests-IsSound_example = handle_requests-IsSound options requests rooms
