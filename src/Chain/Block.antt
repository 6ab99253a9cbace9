-- ===== src/Chain/Block.antt =====
-- Identifiers of transactions and blocks, the Merkle root of a block, and its validation: `txid` of
-- src/tx.cpp, src/block.cpp and src/validate.cpp.
pub mod Copies
use randioum.Base.{
  ℕ, suc, ◌+◌, Bool, true, false, not, ◌&&◌, ◌||◌, ltb, ◌==◌, if◌then◌else◌, List, [], ◌∷◌, ◌++◌,
  length, get_or,
}
use randioum.Base.Text.{same_bytes}
use randioum.Codec.Bytes.{append_u32_le, append_u64_le}
use randioum.Codec.Header.{BlockHeader}
use randioum.Codec.Tx.{Transaction, serialize_tx}
use randioum.Codec.Block.{Block}
use randioum.Hash.Sha256.{sha256, sha256_2x32}
use randioum.Chain.Merkle.{Hash256, merkle_loop}

unfoldable pub txid : Transaction → Hash256
txid tx = sha256 (serialize_tx tx)

unfoldable pub serialize_block_header : BlockHeader → List ℕ
serialize_block_header h =
    append_u64_le
      (append_u64_le
        ((append_u64_le (append_u32_le [] h.version) h.height ++ h.prev_block) ++ h.merkle_root)
        h.timestamp_unix_seconds)
      h.nonce

unfoldable pub block_hash : BlockHeader → Hash256
block_hash h = sha256 (serialize_block_header h)

abbrev pub txids : List Transaction → List Hash256
txids [] = []
txids (tx ∷ txs) = txid tx ∷ txids txs

unfoldable pub merkle_root : List Transaction → Hash256
merkle_root txs =
    if length txs == 0
    then sha256 []
    else get_or [] (merkle_loop sha256_2x32 (length txs) (txids txs)) 0

pub record ValidationOptions : Type 0 where
  pub max_tx_payload_bytes : ℕ
  pub max_block_txs : ℕ
  pub max_tx_version : ℕ

unfoldable pub validate_tx : Transaction → ValidationOptions → Bool
validate_tx tx opt =
    let compute = not (tx.compute_limit == 0) || not (tx.compute_price_per_unit == 0) in
    if ltb opt.max_tx_version tx.version
    then false
    else if ltb opt.max_tx_payload_bytes (length tx.payload)
    then false
    else if ltb tx.version 2
    then not compute
    else not (compute && tx.compute_limit == 0)

unfoldable pub validate_txs : List Transaction → ValidationOptions → Bool
validate_txs [] opt = true
validate_txs (tx ∷ txs) opt =
    let rest = validate_txs txs opt in if validate_tx tx opt then rest else false

unfoldable pub validate_block : Block → ValidationOptions → Bool
validate_block b opt =
    if ltb opt.max_block_txs (length b.transactions)
    then false
    else if not (validate_txs b.transactions opt)
    then false
    else same_bytes (merkle_root b.transactions) b.header.merkle_root
