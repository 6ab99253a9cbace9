-- ===== src/Codec/Tx/RoundTrip.antt =====
-- `decode_tx` after `encode_tx`.
use randioum.Base.{
  ◌+◌, ◌%◌, ◌^◌, ◌≤◌, ◌<◌, ◌≡◌, ◌≢◌, refl, length, true, false, leb, if◌then◌else◌, Bool-cases, inl,
  inr, arith,
}
use randioum.Result.{ok}
use randioum.Codec.Bytes.Laws.{read_u32_le-at, read_u64_le-at}
use randioum.Codec.Tx.{
  Transaction, DecodeOptions, has_compute, max_fee, encode_tx, decode_tx, decode_v1, decode_v2,
  finish_v2,
}
use randioum.Codec.Tx.Encoding.{
  IsTx, layout_v1, layout_v2, layout_compute, encode_tx-v1, encode_tx-v2, encode_tx-compute,
}

-- What the format keeps of a transaction: an old one has no fields of the new fee market, and in
-- a new one the legacy fee is the maximal fee.
abbrev pub canonical : Transaction → Transaction
canonical tx =
    if leb 2 tx.version
    then record tx { fee = max_fee tx; max_fee_per_gas = max_fee tx }
    else record tx {
      max_fee_per_gas = 0;
      priority_fee_per_gas = 0;
      compute_limit = 0;
      compute_price_per_unit = 0;
    }

-- The low 32 bits of the compute limit, read as a payload size, fit the length of the encoding.
abbrev pub IsAmbiguous : Transaction → Type 0
IsAmbiguous tx =
    (leb 2 tx.version ≡ true)
    × (has_compute tx ≡ true)
    × (tx.compute_limit % 2 ^ 32 ≡ 16 + length tx.payload)

module _ (tx : Transaction) (opt : DecodeOptions) (w : IsTx tx)
    (room : length tx.payload ≤ opt.max_payload_bytes) where
  decode_layout_v1 : leb 2 tx.version ≡ false → decode_tx (layout_v1 tx) opt ≡ ok (canonical tx)
  unfolding decode_tx decode_v1 decode_v2 finish_v2
  decode_layout_v1 old = ground (
    arith,
    read_u32_le-at (layout_v1 tx) 0 tx.version _ refl,
    read_u64_le-at (layout_v1 tx) 4 tx.nonce _ w.nonce_fits refl,
    read_u64_le-at (layout_v1 tx) 12 tx.fee _ w.fee_fits refl,
    read_u32_le-at (layout_v1 tx) 20 (length tx.payload % 2 ^ 32) _ refl,
  )

  max_fee_fits : max_fee tx < 2 ^ 64
  max_fee_fits = ground arith

  decode_layout_v2 :
      leb 2 tx.version ≡ true
      → has_compute tx ≡ false
      → decode_tx (layout_v2 tx) opt ≡ ok (canonical tx)
  unfolding decode_tx decode_v1 decode_v2 finish_v2
  decode_layout_v2 new plain = ground (
    arith,
    read_u32_le-at (layout_v2 tx) 0 tx.version _ refl,
    read_u64_le-at (layout_v2 tx) 4 tx.nonce _ w.nonce_fits refl,
    read_u64_le-at (layout_v2 tx) 12 (max_fee tx) _ max_fee_fits refl,
    read_u64_le-at (layout_v2 tx) 20 tx.priority_fee_per_gas _ w.priority_fits refl,
    read_u32_le-at (layout_v2 tx) 28 (length tx.payload % 2 ^ 32) _ refl,
  )

  decode_layout_compute :
      leb 2 tx.version ≡ true
      → has_compute tx ≡ true
      → tx.compute_limit % 2 ^ 32 ≢ 16 + length tx.payload
      → decode_tx (layout_compute tx) opt ≡ ok (canonical tx)
  unfolding decode_tx decode_v1 decode_v2 finish_v2
  decode_layout_compute new market clear = ground (
    arith,
    read_u32_le-at (layout_compute tx) 0 tx.version _ refl,
    read_u64_le-at (layout_compute tx) 4 tx.nonce _ w.nonce_fits refl,
    read_u64_le-at (layout_compute tx) 12 (max_fee tx) _ max_fee_fits refl,
    read_u64_le-at (layout_compute tx) 20 tx.priority_fee_per_gas _ w.priority_fits refl,
    read_u32_le-at (layout_compute tx) 28 tx.compute_limit _ refl,
    read_u64_le-at (layout_compute tx) 28 tx.compute_limit _ w.limit_fits refl,
    read_u64_le-at (layout_compute tx) 36 tx.compute_price_per_unit _ w.price_fits refl,
    read_u32_le-at (layout_compute tx) 44 (length tx.payload % 2 ^ 32) _ refl,
  )

-- A transaction whose fields fit their types, and whose payload is within the decoder's limit,
-- is decoded from its encoding to its canonical form, unless it is ambiguous.
pub decode_tx-encode_tx :
    (tx : Transaction) (opt : DecodeOptions)
    → IsTx tx
    → length tx.payload ≤ opt.max_payload_bytes
    → ¬ IsAmbiguous tx
    → decode_tx (encode_tx tx) opt ≡ ok (canonical tx)
decode_tx-encode_tx tx opt w room clear = elim (Bool-cases (leb 2 tx.version)) [
  | inr old ↦ rw (encode_tx-v1 tx old) (decode_layout_v1 tx opt w room old)
  | inl new ↦ elim (Bool-cases (has_compute tx)) [
    | inr plain ↦ rw (encode_tx-v2 tx new plain) (decode_layout_v2 tx opt w room new plain)
    | inl market ↦
        rw (encode_tx-compute tx new market)
          (decode_layout_compute tx opt w room new market (λ e. clear (new, market, e)))
  ]
]
