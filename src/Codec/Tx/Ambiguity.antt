-- ===== src/Codec/Tx/Ambiguity.antt =====
-- The format of a version 2 transaction is ambiguous: the layout with compute fields can have the
-- length that the layout without them would have.
use randioum.Base.{
  ℕ, ◌+◌, ◌%◌, ◌^◌, ◌≤◌, ◌≡◌, ◌≢◌, refl, ap, ◌∙◌, sym, List, ◌++◌, length, drop, arith,
}
use randioum.Result.{ok}
use randioum.Codec.Bytes.Laws.{le_bytes, read_u32_le-at, read_u64_le-at}
use randioum.Codec.Tx.{
  Transaction, DecodeOptions, max_fee, encode_tx, decode_tx, decode_v1, decode_v2, finish_v2,
  serialize_tx,
}
use randioum.Codec.Tx.Encoding.{IsTx, layout_v2, layout_compute, encode_tx-v2, encode_tx-compute}
use randioum.Codec.Tx.RoundTrip.{IsAmbiguous}

-- The transaction that the decoder reads instead: no compute fields, and a payload that begins
-- with the bytes of the compute fields.
abbrev pub misread : Transaction → Transaction
misread tx = record tx {
  fee = max_fee tx;
  max_fee_per_gas = max_fee tx;
  compute_limit = 0;
  compute_price_per_unit = 0;
  payload = drop 32 (layout_compute tx);
}

-- The encoding of an ambiguous transaction, whose fields fit their types and whose payload and 16
-- bytes more are within the decoder's limit, is decoded to another transaction, whose compute fields
-- are 0 and whose payload is 16 bytes longer.
pub decode_tx_ambiguous :
    (tx : Transaction) (opt : DecodeOptions)
    → IsTx tx
    → 16 + length tx.payload ≤ opt.max_payload_bytes
    → IsAmbiguous tx
    → (decode_tx (encode_tx tx) opt ≡ ok (misread tx))
      × (length (misread tx).payload ≡ 16 + length tx.payload)
unfolding decode_tx decode_v1 decode_v2 finish_v2
decode_tx_ambiguous tx opt w room (new, market, clash) = (
  rw (encode_tx-compute tx new market) (
      ground (
        arith,
        read_u32_le-at (layout_compute tx) 0 tx.version _ refl,
        read_u64_le-at (layout_compute tx) 4 tx.nonce _ w.nonce_fits refl,
        read_u64_le-at (layout_compute tx) 12 (max_fee tx) _ (ground arith) refl,
        read_u64_le-at (layout_compute tx) 20 tx.priority_fee_per_gas _ w.priority_fits refl,
        read_u32_le-at (layout_compute tx) 28 tx.compute_limit _ refl,
      )),
  omega arith,
)

pub low_bytes : (a b : ℕ) → a % 2 ^ 32 ≡ b % 2 ^ 32 → le_bytes 4 a ≡ le_bytes 4 b
low_bytes a b e = ground arith

pub serialize_tx-encode_tx : (tx : Transaction) → serialize_tx tx ≡ encode_tx tx
unfolding serialize_tx encode_tx
serialize_tx-encode_tx tx = refl

max_fee-misread : (tx : Transaction) → max_fee (misread tx) ≡ max_fee tx
max_fee-misread tx = ground arith

-- Both layouts of 48 bytes, with the maximal fee and the four bytes at offset 28 left open.
abbrev shared_layout : Transaction → ℕ → List ℕ → List ℕ
shared_layout tx fee bytes =
    le_bytes 4 tx.version
    ++ (le_bytes 8 tx.nonce
        ++ (le_bytes 8 fee
            ++ (le_bytes 8 tx.priority_fee_per_gas ++ (bytes ++ drop 32 (layout_compute tx)))))

layout-misread :
    (tx : Transaction)
    → IsTx tx
    → tx.compute_limit % 2 ^ 32 ≡ 16 + length tx.payload
    → layout_v2 (misread tx) ≡ layout_compute tx
layout-misread tx w clash =
    ap (λ a. shared_layout tx a (le_bytes 4 (length (misread tx).payload % 2 ^ 32)))
      (max_fee-misread tx)
    ∙ ap (shared_layout tx (max_fee tx)) (low_bytes _ tx.compute_limit (omega arith))

-- Two transactions with one serialization, and so with one transaction id: an ambiguous one, and
-- the one that the decoder reads in its place, which is another.
pub serialize_tx_collision :
    (tx : Transaction)
    → IsTx tx
    → IsAmbiguous tx
    → (serialize_tx (misread tx) ≡ serialize_tx tx) × (misread tx ≢ tx)
serialize_tx_collision tx w (new, market, clash) = (
  serialize_tx-encode_tx (misread tx)
      ∙ encode_tx-v2 (misread tx) new refl
      ∙ layout-misread tx w clash
      ∙ sym (encode_tx-compute tx new market)
      ∙ sym (serialize_tx-encode_tx tx),
  λ e. omega (arith, ap (λ (t : Transaction). length t.payload) e),
)
