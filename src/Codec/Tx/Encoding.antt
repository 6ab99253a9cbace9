-- ===== src/Codec/Tx/Encoding.antt =====
-- What `encode_tx` writes, field by field.
use randioum.Base.{ℕ, ◌%◌, ◌^◌, ◌≡◌, List, ◌++◌, append_assoc, length, true, false, leb}
use randioum.Codec.Bytes.{IsU32, IsU64}
use randioum.Codec.Bytes.Laws.{le_bytes, append_u32_le_lem, append_u64_le_lem}
use randioum.Codec.Tx.{Transaction, has_compute, max_fee, encode_tx}

-- Each field is in the range of its C++ type, and the payload's size is one that 32 bits hold.
pub record IsTx (tx : Transaction) : Type 0 where
  pub version_fits : IsU32 tx.version
  pub nonce_fits : IsU64 tx.nonce
  pub fee_fits : IsU64 tx.fee
  pub max_fee_fits : IsU64 tx.max_fee_per_gas
  pub priority_fits : IsU64 tx.priority_fee_per_gas
  pub limit_fits : IsU64 tx.compute_limit
  pub price_fits : IsU64 tx.compute_price_per_unit
  pub payload_fits : IsU32 (length tx.payload)

abbrev pub tail_bytes : Transaction → List ℕ
tail_bytes tx = le_bytes 4 (length tx.payload % 2 ^ 32) ++ tx.payload

-- The three layouts.
abbrev pub layout_v1 : Transaction → List ℕ
layout_v1 tx =
    le_bytes 4 tx.version ++ (le_bytes 8 tx.nonce ++ (le_bytes 8 tx.fee ++ tail_bytes tx))

abbrev pub layout_v2 : Transaction → List ℕ
layout_v2 tx =
    le_bytes 4 tx.version
    ++ (le_bytes 8 tx.nonce
        ++ (le_bytes 8 (max_fee tx) ++ (le_bytes 8 tx.priority_fee_per_gas ++ tail_bytes tx)))

abbrev pub layout_compute : Transaction → List ℕ
layout_compute tx =
    le_bytes 4 tx.version
    ++ (le_bytes 8 tx.nonce
        ++ (le_bytes 8 (max_fee tx)
            ++ (le_bytes 8 tx.priority_fee_per_gas
                ++ (le_bytes 8 tx.compute_limit
                    ++ (le_bytes 8 tx.compute_price_per_unit ++ tail_bytes tx)))))

pub encode_tx-v1 : (tx : Transaction) → leb 2 tx.version ≡ false → encode_tx tx ≡ layout_v1 tx
unfolding encode_tx
encode_tx-v1 tx h = rw h (simp (append_u32_le_lem, append_u64_le_lem, append_assoc))

pub encode_tx-v2 :
    (tx : Transaction)
    → leb 2 tx.version ≡ true
    → has_compute tx ≡ false
    → encode_tx tx ≡ layout_v2 tx
unfolding encode_tx
encode_tx-v2 tx h k = rw (h, k) (simp (append_u32_le_lem, append_u64_le_lem, append_assoc))

pub encode_tx-compute :
    (tx : Transaction)
    → leb 2 tx.version ≡ true
    → has_compute tx ≡ true
    → encode_tx tx ≡ layout_compute tx
unfolding encode_tx
encode_tx-compute tx h k = rw (h, k) (simp (append_u32_le_lem, append_u64_le_lem, append_assoc))
