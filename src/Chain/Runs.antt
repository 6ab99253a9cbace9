-- ===== src/Chain/Runs.antt =====
-- Merkle roots, proofs and block validation on concrete inputs, and their theorems there.
use randioum.Base.{
  ℕ, ◌⊎◌, get_elem?, ◌≡◌, sym, ap, ◌∙◌, refl, true, List, [], ◌∷◌, ◌++◌, replicate, some, none,
  arith,
}
use randioum.Base.Text.{same_bytes, same_bytes_refl}
use randioum.Codec.Header.{BlockHeader}
use randioum.Codec.Tx.{Transaction, serialize_tx}
use randioum.Chain.Merkle.{Hash256, merkle_root_hashes, merkle_loop, next_layer, path_root}
use randioum.Chain.Proof.Collisions.{IsHash, Collision}
use randioum.Hash.Sha256.Reference.{sha256_2x32-sha256}
use randioum.Chain.Block.{
  txid, merkle_root, ValidationOptions, validate_tx, validate_txs, validate_block,
}
use randioum.Chain.Block.Copies.{validate_block_copy}
use randioum.Chain.Proof.{
  MerkleProof, TxInclusionProof, depth_loop, merkle_depth, merkle_parent, compute_merkle_root,
  validate_merkle_proof_shape, verify_merkle_root, build_merkle_proof, verify_tx_inclusion,
}
use randioum.Chain.Proof.Depth.{IsDepth, merkle_depth-IsDepth, merkle_depth_hangs}
use randioum.Chain.Proof.Complete.{build_merkle_proof-verifies}
use randioum.Chain.Proof.Transactions.{
  txids-IsHash, checked_inputs, hashed_inputs, verify_tx_inclusion_sound,
}

-- Five leaves need three levels.
depth-five : merkle_depth 5 ≡ some 3
unfolding merkle_depth depth_loop
depth-five = refl

merkle_depth-IsDepth_example : (d : ℕ) × (merkle_depth 5 ≡ some d) × IsDepth 5 d
merkle_depth-IsDepth_example = merkle_depth-IsDepth 5 (omega arith)

merkle_depth_hangs_example : depth_loop 1000 1 0 9223372036854775809 ≡ none
merkle_depth_hangs_example = merkle_depth_hangs 1000 9223372036854775809 (omega arith)

abbrev three_leaves : List Hash256
three_leaves = replicate 32 1 ∷ replicate 32 2 ∷ replicate 32 3 ∷ []

build_merkle_proof-verifies_example :
    (mp : MerkleProof) × (build_merkle_proof three_leaves 2 ≡ some (some mp))
    × (mp.leaf_index ≡ 2)
    × (mp.leaf_count ≡ 3)
    × (verify_merkle_root (merkle_root_hashes three_leaves) (replicate 32 3) mp ≡ some true)
build_merkle_proof-verifies_example =
    build_merkle_proof-verifies three_leaves 2 (omega arith) (omega arith)

abbrev payment : ℕ → Transaction
payment n = record {
  version = 1;
  nonce = n;
  fee = 10;
  max_fee_per_gas = 0;
  priority_fee_per_gas = 0;
  compute_limit = 0;
  compute_price_per_unit = 0;
  payload = 5 ∷ [];
}

abbrev limits : ValidationOptions
limits = record { max_tx_payload_bytes = 100; max_block_txs = 4; max_tx_version = 2 }

abbrev header_over : List Transaction → BlockHeader
header_over txs = record {
  version = 1;
  height = 8;
  prev_block = replicate 32 0;
  merkle_root = merkle_root txs;
  timestamp_unix_seconds = 1000;
  nonce = 0;
}

abbrev two_payments : List Transaction
two_payments = payment 1 ∷ payment 2 ∷ []

three-valid :
    validate_block
      (record {
        header = header_over (two_payments ++ payment 3 ∷ []);
        transactions = two_payments ++ payment 3 ∷ [];
      })
      limits
    ≡ true
unfolding validate_block validate_txs validate_tx
three-valid = same_bytes_refl (merkle_root (two_payments ++ payment 3 ∷ []))

-- The fourth transaction is a copy of the third, under the header of the three.
validate_block_copy_example :
    validate_block
      (record {
        header = header_over (two_payments ++ payment 3 ∷ []);
        transactions = two_payments ++ payment 3 ∷ payment 3 ∷ [];
      })
      limits
    ≡ true
validate_block_copy_example =
    validate_block_copy (header_over (two_payments ++ payment 3 ∷ [])) two_payments (payment 3)
      limits refl (omega arith) (omega arith) three-valid

-- The first of two payments, with the identifier of the second beside it.
abbrev first_proof : TxInclusionProof
first_proof = record {
  header = header_over two_payments;
  tx = payment 1;
  merkle = record { leaf_index = 0; leaf_count = 2; siblings = txid (payment 2) ∷ [] };
}

first_proof-root : merkle_parent (txid (payment 1)) (txid (payment 2)) ≡ merkle_root two_payments
unfolding merkle_parent merkle_root merkle_loop next_layer
first_proof-root = sym (sha256_2x32-sha256 (txid (payment 1)) (txid (payment 2)))

first_proof-accepted : verify_tx_inclusion first_proof ≡ some true
unfolding verify_tx_inclusion verify_merkle_root compute_merkle_root validate_merkle_proof_shape
    merkle_depth depth_loop path_root
first_proof-accepted =
    ap (λ r. some (same_bytes r (merkle_root two_payments))) first_proof-root
    ∙ ap some (same_bytes_refl (merkle_root two_payments))

verify_tx_inclusion_sound_example :
    ((tx : Transaction) × (get_elem? two_payments 0 ≡ some tx)
      × (serialize_tx (payment 1) ≡ serialize_tx tx))
    ⊎ Collision (checked_inputs first_proof) (hashed_inputs two_payments)
verify_tx_inclusion_sound_example =
    verify_tx_inclusion_sound two_payments first_proof (omega arith) refl refl (second-IsHash, tt)
      ((omega arith, tt), ((omega arith, tt), tt)) (omega arith, tt) first_proof-accepted
  where
    second-IsHash : IsHash (txid (payment 2))
    second-IsHash = (txids-IsHash two_payments).1.0
