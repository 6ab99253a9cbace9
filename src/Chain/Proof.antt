-- ===== src/Chain/Proof.antt =====
-- Merkle proofs and proofs of inclusion: src/proof.cpp, without its byte formats, and
-- `build_merkle_proof` of src/cli.cpp.
-- A function that may not return gives an Option, which is `none` where it does not.
pub mod Depth
pub mod Inclusion
pub mod Collisions
pub mod Sound
pub mod Complete
pub mod Transactions
use randioum.Base.{
  ℕ, zero, suc, ◌+◌, ◌*◌, ◌%◌, ◌^◌, Bool, true, false, not, ltb, leb, ◌==◌, if◌then◌else◌, List, [],
  ◌∷◌, ◌++◌, length, get_or, Option, none, some,
}
use randioum.Base.Text.{same_bytes}
use randioum.Codec.Bytes.{append_u64_le}
use randioum.Codec.Header.{BlockHeader}
use randioum.Codec.Tx.{Transaction}
use randioum.Hash.Sha256.{sha256}
use randioum.Chain.Merkle.{Hash256, path_root, collect_siblings}
use randioum.Chain.Block.{txid}

pub record MerkleProof : Type 0 where
  pub leaf_index : ℕ
  pub leaf_count : ℕ
  pub siblings : List Hash256

-- The loop that doubles `n`, for a number of rounds: `none` when they do not suffice.
unfoldable pub depth_loop : ℕ → ℕ → ℕ → ℕ → Option ℕ
depth_loop zero n d leaf_count = none
depth_loop (suc rounds) n d leaf_count =
    let rest = depth_loop rounds (n * 2 % 2 ^ 64) (d + 1) leaf_count in
    if ltb n leaf_count then rest else some d

-- 64 rounds suffice wherever any number does.
unfoldable pub merkle_depth : ℕ → Option ℕ
merkle_depth leaf_count = if leb leaf_count 1 then some 0 else depth_loop 64 1 0 leaf_count

unfoldable pub merkle_parent : Hash256 → Hash256 → Hash256
merkle_parent left right = sha256 (left ++ right)

abbrev pub map_option : {A B : Type 0} → (A → B) → Option A → Option B
map_option f none = none
map_option f (some a) = some (f a)

unfoldable pub validate_merkle_proof_shape : MerkleProof → Option Bool
validate_merkle_proof_shape p =
    if p.leaf_count == 0
    then some false
    else if leb p.leaf_count p.leaf_index
    then some false
    else map_option (λ d. length p.siblings == d) (merkle_depth p.leaf_count)

abbrev pub root_of_shape : Hash256 → MerkleProof → Bool → Option Hash256
root_of_shape leaf_hash p false = none
root_of_shape leaf_hash p true = some (path_root merkle_parent leaf_hash p.leaf_index p.siblings)

-- Of the two options, the inner one is that of the source.
unfoldable pub compute_merkle_root : Hash256 → MerkleProof → Option (Option Hash256)
compute_merkle_root leaf_hash p =
    map_option (root_of_shape leaf_hash p) (validate_merkle_proof_shape p)

abbrev pub is_root : Hash256 → Option Hash256 → Bool
is_root expected none = false
is_root expected (some r) = same_bytes r expected

unfoldable pub verify_merkle_root : Hash256 → Hash256 → MerkleProof → Option Bool
verify_merkle_root expected_root leaf_hash p =
    map_option (is_root expected_root) (compute_merkle_root leaf_hash p)

pub record TxInclusionProof : Type 0 where
  pub header : BlockHeader
  pub tx : Transaction
  pub merkle : MerkleProof

pub record Account : Type 0 where
  pub nonce : ℕ
  pub balance : ℕ

pub record AccountProof : Type 0 where
  pub height : ℕ
  pub state_root : Hash256
  pub id : List ℕ
  pub account : Account
  pub merkle : MerkleProof

pub record ReceiptInclusionProof : Type 0 where
  pub header : BlockHeader
  pub txid : Hash256
  pub applied : Bool
  pub receipt_root : Hash256
  pub merkle : MerkleProof

unfoldable pub verify_tx_inclusion : TxInclusionProof → Option Bool
verify_tx_inclusion p = verify_merkle_root p.header.merkle_root (txid p.tx) p.merkle

unfoldable pub serialize_account_bytes : Account → List ℕ
serialize_account_bytes a = append_u64_le (append_u64_le [] a.nonce) a.balance

unfoldable pub account_leaf_hash : List ℕ → Account → Hash256
account_leaf_hash id a = sha256 ((0xA1 ∷ []) ++ id ++ serialize_account_bytes a)

unfoldable pub verify_account_proof : AccountProof → Option Bool
verify_account_proof p = verify_merkle_root p.state_root (account_leaf_hash p.id p.account) p.merkle

-- `buf` is the 32 bytes of the identifier and a byte 0.
unfoldable pub receipt_leaf_hash : Hash256 → Bool → Hash256
receipt_leaf_hash txid_in applied = if applied then txid_in else sha256 (txid_in ++ (0 ∷ []))

unfoldable pub verify_receipt_inclusion : ReceiptInclusionProof → Option Bool
verify_receipt_inclusion p =
    if not p.applied
    then some false
    else if not (same_bytes p.receipt_root p.header.merkle_root)
    then some false
    else verify_merkle_root p.receipt_root (receipt_leaf_hash p.txid p.applied) p.merkle

abbrev pub check_depth : MerkleProof → ℕ → Option MerkleProof
check_depth mp d = if length mp.siblings == d then some mp else none

-- `build_merkle_proof` of src/cli.cpp.
unfoldable pub build_merkle_proof : List Hash256 → ℕ → Option (Option MerkleProof)
build_merkle_proof leaves leaf_index =
    if length leaves == 0
    then some none
    else if leb (length leaves) leaf_index
    then some none
    else let mp : MerkleProof = record {
      leaf_index = leaf_index;
      leaf_count = length leaves;
      siblings = collect_siblings merkle_parent (length leaves) leaves leaf_index;
    } in
      map_option (check_depth mp) (merkle_depth mp.leaf_count)
