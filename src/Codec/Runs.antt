-- ===== src/Codec/Runs.antt =====
-- The codecs on concrete inputs, and their theorems there.
use randioum.Base.{true, ℕ, ◌+◌, ◌≡◌, ◌≢◌, refl, List, [], ◌∷◌, ◌++◌, length, replicate, arith}
use mathlib.Core.List.{map}
use randioum.Result.{ok, err}
use randioum.Codec.Bytes.{read_u32_le, read_u64_le, append_u32_le, append_u64_le}
use randioum.Codec.Tx.{
  Transaction, encode_tx, decode_tx, serialize_tx, append_fees, decode_v1, decode_v2, finish_v2,
}
use randioum.Codec.Tx
use randioum.Codec.Tx.RoundTrip.{canonical, decode_tx-encode_tx}
use randioum.Codec.Tx.Ambiguity.{misread, decode_tx_ambiguous, serialize_tx_collision}
use randioum.Codec.Tx.Canonical.{encode_tx-decode_tx}
use randioum.Codec.Header.{BlockHeader, encode_header, decode_header}
use randioum.Codec.Header.RoundTrip.{decode_header-encode_header}
use randioum.Codec.Header.Canonical.{encode_header-decode_header}
use randioum.Codec.Block
use randioum.Codec.Varint
use randioum.Codec.Varint.{non_canonical, encode_loop, decode_loop, finish_u64}
use randioum.Codec.Varint.RoundTrip.{decode_u64-encode_u64}
use randioum.Codec.Block.{Block, encode_block, append_txs, decode_block}
use randioum.Codec.Block.RoundTrip.{IsCarried, IsCarriedBlock, decode_block-encode_block}

abbrev tx_limits : Tx.DecodeOptions
tx_limits = record { max_payload_bytes = 100 }

abbrev old_tx : Transaction
old_tx = record {
  version = 1;
  nonce = 7;
  fee = 300;
  max_fee_per_gas = 5;
  priority_fee_per_gas = 0;
  compute_limit = 0;
  compute_price_per_unit = 0;
  payload = 1 ∷ 2 ∷ 3 ∷ [];
}

-- A compute limit of 16 and no payload: the encoding has 48 bytes, and the low half of the limit,
-- read as a payload size, says 32 + 16.
abbrev unlucky_tx : Transaction
unlucky_tx = record {
  version = 2;
  nonce = 7;
  fee = 9;
  max_fee_per_gas = 9;
  priority_fee_per_gas = 1;
  compute_limit = 16;
  compute_price_per_unit = 3;
  payload = [];
}

abbrev old_bytes : List ℕ
old_bytes =
    1 ∷ 0 ∷ 0 ∷ 0 ∷ 7 ∷ 0 ∷ 0 ∷ 0 ∷ 0 ∷ 0 ∷ 0 ∷ 0 ∷ 44 ∷ 1 ∷ 0 ∷ 0 ∷ 0 ∷ 0 ∷ 0 ∷ 0 ∷ 3 ∷ 0 ∷ 0 ∷ 0
    ∷ 1 ∷ 2 ∷ 3 ∷ []

encode-old_tx : encode_tx old_tx ≡ old_bytes
unfolding encode_tx append_u32_le append_u64_le
encode-old_tx = refl

decode-old_bytes : decode_tx old_bytes tx_limits ≡ ok (record old_tx { max_fee_per_gas = 0 })
unfolding decode_tx decode_v1 read_u32_le read_u64_le
decode-old_bytes = refl

decode-short : decode_tx (1 ∷ 0 ∷ []) tx_limits ≡ err Tx.too_short
unfolding decode_tx
decode-short = refl

decode_tx-encode_tx_example : decode_tx (encode_tx old_tx) tx_limits ≡ ok (canonical old_tx)
decode_tx-encode_tx_example =
    decode_tx-encode_tx old_tx tx_limits (omega arith) (omega arith) (λ a. cc a.0)

encode_tx-decode_tx_example : encode_tx (record old_tx { max_fee_per_gas = 0 }) ≡ old_bytes
encode_tx-decode_tx_example =
    encode_tx-decode_tx old_bytes tx_limits (record old_tx { max_fee_per_gas = 0 }) (omega arith)
      decode-old_bytes (λ a. cc a.0)

decode_tx_ambiguous_example :
    (decode_tx (encode_tx unlucky_tx) tx_limits ≡ ok (misread unlucky_tx))
    × (length (misread unlucky_tx).payload ≡ 16 + length unlucky_tx.payload)
decode_tx_ambiguous_example =
    decode_tx_ambiguous unlucky_tx tx_limits (omega arith) (omega arith) (refl, refl, refl)

serialize_tx_collision_example :
    (serialize_tx (misread unlucky_tx) ≡ serialize_tx unlucky_tx)
    × (misread unlucky_tx ≢ unlucky_tx)
serialize_tx_collision_example = serialize_tx_collision unlucky_tx (omega arith) (refl, refl, refl)

abbrev header : BlockHeader
header = record {
  version = 1;
  height = 12;
  prev_block = replicate 32 200;
  merkle_root = replicate 32 17;
  timestamp_unix_seconds = 1_700_000_000;
  nonce = 5;
}

decode_header-encode_header_example : decode_header (encode_header header) ≡ ok header
decode_header-encode_header_example = decode_header-encode_header header (omega arith)

abbrev header_bytes : List ℕ
header_bytes =
    1
    ∷ 0
    ∷ 0
    ∷ 0
    ∷ 12
    ∷ 0
    ∷ 0
    ∷ 0
    ∷ 0
    ∷ 0
    ∷ 0
    ∷ 0
    ∷ (replicate 32 200
        ++ (replicate 32 17
            ++ (0 ∷ 241 ∷ 83 ∷ 101 ∷ 0 ∷ 0 ∷ 0 ∷ 0 ∷ 5 ∷ 0 ∷ 0 ∷ 0 ∷ 0 ∷ 0 ∷ 0 ∷ 0 ∷ [])))

decode-header_bytes : decode_header header_bytes ≡ ok header
unfolding decode_header read_u32_le read_u64_le
decode-header_bytes = refl

encode_header-decode_header_example : encode_header header ≡ header_bytes
encode_header-decode_header_example =
    encode_header-decode_header header_bytes header (omega arith) decode-header_bytes

abbrev block : Block
block = record { header = header; transactions = old_tx ∷ old_tx ∷ [] }

abbrev block_limits : Block.DecodeOptions
block_limits = record { max_txs = 2; max_tx_bytes = 27; max_block_bytes = 158 }

size-old_tx : length (encode_tx old_tx) ≡ 27
unfolding encode_tx append_u32_le append_u64_le
size-old_tx = refl

size-block : length (encode_block block) ≡ 158
unfolding encode_block append_txs encode_header encode_tx append_u32_le append_u64_le
size-block = refl

old_tx-IsCarried : IsCarried block_limits old_tx
old_tx-IsCarried = record {
  shape = omega arith;
  clear = λ a. cc a.0;
  within = omega (arith, size-old_tx);
  fits = omega (arith, size-old_tx);
}

block-IsCarried : IsCarriedBlock block_limits block
block-IsCarried = record {
  header_shape = omega arith;
  txs_carried = (old_tx-IsCarried, (old_tx-IsCarried, tt));
  count_within = omega arith;
  count_fits = omega arith;
  size_within = omega (arith, size-block);
}

decode_block-encode_block_example :
    decode_block (encode_block block) block_limits
    ≡ ok (record block { transactions = map canonical block.transactions })
decode_block-encode_block_example = decode_block-encode_block block block_limits block-IsCarried

abbrev canonical_only : Varint.DecodeOptions
canonical_only = record { require_canonical = true }

-- 300 is two bytes, and a padded 5 is refused.
encode-300 : Varint.encode_u64 300 ≡ 172 ∷ 2 ∷ []
unfolding Varint.encode_u64 encode_loop
encode-300 = refl

decode-padded : Varint.decode_u64 canonical_only (133 ∷ 0 ∷ []) ≡ err non_canonical
unfolding Varint.decode_u64 decode_loop finish_u64
decode-padded = refl

decode_u64-encode_u64_example :
    Varint.decode_u64 canonical_only (Varint.encode_u64 300 ++ 7 ∷ [])
    ≡ ok (300, length (Varint.encode_u64 300))
decode_u64-encode_u64_example = decode_u64-encode_u64 canonical_only 300 (7 ∷ []) (omega arith)
