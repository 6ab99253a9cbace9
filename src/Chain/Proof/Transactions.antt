-- ===== src/Chain/Proof/Transactions.antt =====
-- What `verify_tx_inclusion` of src/proof.cpp guarantees of a transaction.
use mathlib.Core.Option.{none-ne-some}
use randioum.Base.{
  ℕ, zero, suc, ◌^◌, ◌≤◌, ◌<◌, ◌≡◌, ◌⊎◌, inl, inr, refl, sym, ap, ◌∙◌, ◌==◌, if◌then◌else◌, Bool,
  true, false, List, [], ◌∷◌, length, get_or, get_elem?, All, Option, none, some, some-eq, arith,
  ◌++◌, ◌%◌, leb, if-elim, subst, All-append,
}
use randioum.Base.Text.{same_bytes_eq}
use randioum.Codec.Tx.{Transaction, serialize_tx, max_fee, has_compute, append_fees}
use randioum.Hash.Sha256.{sha256, sha256_2x32}
use randioum.Hash.Sha256.Reference.{sha256-IsHash}
use randioum.Chain.Merkle.{Hash256, merkle_loop, collect_siblings, path_root, merkle_root_hashes}
use randioum.Chain.Proof.Sound.{path_root_sound}
use randioum.Chain.Block.{txid, txids, merkle_root}
use randioum.Chain.Block.Copies.{length-txids}
use randioum.Chain.Proof.{
  MerkleProof, merkle_depth, merkle_parent, map_option, validate_merkle_proof_shape, root_of_shape,
  compute_merkle_root, is_root, verify_merkle_root, TxInclusionProof, verify_tx_inclusion,
}
use randioum.Chain.Proof.Depth.{IsDepth-unique, merkle_depth-IsDepth}
use randioum.Chain.Proof.Collisions.{
  IsHash, Among, Among-left, Among-right, Collision, Collision-widen, path_inputs, tree_inputs,
  sha256_split,
}
use randioum.Chain.Proof.Inclusion.{collect-IsDepth}
use randioum.Codec.Bytes.{IsByte, append_u32_le, append_u64_le}
use randioum.Codec.Bytes.Laws.{le_bytes, le_bytes-IsByte, append_u32_le_lem, append_u64_le_lem}
use randioum.Chain.Proof.Complete.{shape_inv, root_by_parent}

pub txids-IsHash : (txs : List Transaction) → All IsHash (txids txs)
unfolding txid
txids-IsHash [] = tt
txids-IsHash (tx ∷ txs) = (sha256-IsHash (serialize_tx tx), txids-IsHash txs)

get_or-txids :
    (txs : List Transaction) (i : ℕ)
    → i < length txs
    → (tx : Transaction) × (get_elem? txs i ≡ some tx) × (get_or [] (txids txs) i ≡ txid tx)
get_or-txids [] i inside = elim inside [ ]
get_or-txids (tx ∷ txs) zero inside = (tx, refl, refl)
get_or-txids (tx ∷ txs) (suc i) inside = get_or-txids txs i (omega (arith, inside))

-- The root of a block is the root of its transactions' identifiers.
pub merkle_root-txids : (txs : List Transaction) → merkle_root txs ≡ merkle_root_hashes (txids txs)
unfolding merkle_root merkle_root_hashes
merkle_root-txids [] = refl
merkle_root-txids (tx ∷ txs) =
    ap
      (λ n.
        if suc n == 0
        then sha256 []
        else get_or [] (merkle_loop sha256_2x32 (suc n) (txid tx ∷ txids txs)) 0)
      (sym (length-txids txs))

-- What a proof that is accepted satisfies.
verify_inv :
    (root leaf : Hash256) (p : MerkleProof)
    → verify_merkle_root root leaf p ≡ some true
    → (validate_merkle_proof_shape p ≡ some true)
      × (path_root merkle_parent leaf p.leaf_index p.siblings ≡ root)
unfolding verify_merkle_root compute_merkle_root
verify_inv root leaf p h = read (validate_merkle_proof_shape p) h
  where
    read :
        (o : Option Bool)
        → map_option (is_root root) (map_option (root_of_shape leaf p) o) ≡ some true
        → (o ≡ some true) × (path_root merkle_parent leaf p.leaf_index p.siblings ≡ root)
    read none e = absurd (none-ne-some true e)
    read (some false) e = let no : false ≡ true = some-eq e in absurd (ground arith)
    read (some true) e = (refl, same_bytes_eq _ _ (some-eq e))

-- A proof that `verify_merkle_root` accepts for the root of at most 2 ^ 63 hashes and for their
-- number shows that the leaf is the hash at its index, or that the path and the tree collide.
pub verify_merkle_root_sound :
    (leaves : List Hash256) (leaf : Hash256) (p : MerkleProof)
    → length leaves ≤ 2 ^ 63
    → p.leaf_count ≡ length leaves
    → All IsHash leaves
    → IsHash leaf
    → All IsHash p.siblings
    → verify_merkle_root (merkle_root_hashes leaves) leaf p ≡ some true
    → (p.leaf_index < length leaves)
      × ((leaf ≡ get_or [] leaves p.leaf_index)
          ⊎ Collision
              (path_inputs leaf p.leaf_index p.siblings)
              (tree_inputs (length leaves) leaves))
verify_merkle_root_sound leaves leaf p fits count all hash siblings h =
    let (shape, root) = verify_inv (merkle_root_hashes leaves) leaf p h in
    let (below, depth) = shape_inv p shape in
    let inside : p.leaf_index < length leaves = omega (arith, below, count) in
    let path = collect_siblings merkle_parent (length leaves) leaves p.leaf_index in
    let (d, found, good) = merkle_depth-IsDepth (length leaves) fits in
    let levels =
      IsDepth-unique (length leaves) d (length path) good (
        collect-IsDepth (length leaves) leaves p.leaf_index (omega arith)
          (omega (arith, inside))) in
    (
      inside,
      path_root_sound (length leaves) leaves p.leaf_index leaf p.siblings (omega arith) inside
          (some-eq (sym depth ∙ ap merkle_depth count ∙ found) ∙ levels) all hash siblings
          (root ∙ root_by_parent leaves (omega (arith, inside))),
    )

-- What a check of a transaction hashes.
abbrev pub checked_inputs : TxInclusionProof → List (List ℕ)
checked_inputs p = serialize_tx p.tx ∷ path_inputs (txid p.tx) p.merkle.leaf_index p.merkle.siblings

abbrev pub serialized : List Transaction → List (List ℕ)
serialized [] = []
serialized (tx ∷ txs) = serialize_tx tx ∷ serialized txs

-- What the Merkle root of a block hashes.
abbrev pub hashed_inputs : List Transaction → List (List ℕ)
hashed_inputs txs = serialized txs ++ tree_inputs (length (txids txs)) (txids txs)

abbrev pub HasBytes : Transaction → Type 0
HasBytes tx = All IsByte tx.payload

append_u64_le-IsByte : (out : List ℕ) (v : ℕ) → All IsByte out → All IsByte (append_u64_le out v)
append_u64_le-IsByte out v bytes =
    subst (All IsByte) (sym (append_u64_le_lem out v))
      (All-append IsByte out (le_bytes 8 v) bytes (le_bytes-IsByte 8 v))

append_u32_le-IsByte : (out : List ℕ) (v : ℕ) → All IsByte out → All IsByte (append_u32_le out v)
append_u32_le-IsByte out v bytes =
    subst (All IsByte) (sym (append_u32_le_lem out v))
      (All-append IsByte out (le_bytes 4 v) bytes (le_bytes-IsByte 4 v))

append_fees-IsByte :
    (out : List ℕ) (tx : Transaction) → All IsByte out → All IsByte (append_fees out tx)
unfolding append_fees
append_fees-IsByte out tx bytes =
    if-elim (All IsByte) (leb 2 tx.version)
      (λ t.
        if-elim (All IsByte) (has_compute tx)
          (λ u.
            append_u64_le-IsByte _ tx.compute_price_per_unit
              (append_u64_le-IsByte _ tx.compute_limit fees))
          (λ f. fees))
      (λ f. append_u64_le-IsByte out tx.fee bytes)
  where
    fees : All IsByte (append_u64_le (append_u64_le out (max_fee tx)) tx.priority_fee_per_gas)
    fees =
        append_u64_le-IsByte _ tx.priority_fee_per_gas (append_u64_le-IsByte out (max_fee tx) bytes)

serialize_tx-IsByte : (tx : Transaction) → HasBytes tx → All IsByte (serialize_tx tx)
unfolding serialize_tx
serialize_tx-IsByte tx payload =
    All-append IsByte _ tx.payload
      (append_u32_le-IsByte _ (length tx.payload % 2 ^ 32) (
        append_fees-IsByte _ tx
          (append_u64_le-IsByte _ tx.nonce (append_u32_le-IsByte [] tx.version tt))))
      payload

-- A transaction at an index is among those that are hashed, and is of bytes.
serialized-at :
    (txs : List Transaction) (i : ℕ) (tx : Transaction)
    → All HasBytes txs
    → get_elem? txs i ≡ some tx
    → Among (serialize_tx tx) (serialized txs) × HasBytes tx
serialized-at [] i tx all e = absurd (none-ne-some tx e)
serialized-at (x ∷ txs) zero tx (p, all) e =
    (inl (ap serialize_tx (sym (some-eq e))), subst HasBytes (some-eq e) p)
serialized-at (x ∷ txs) (suc i) tx (p, all) e =
    let (among, bytes) = serialized-at txs i tx all e in (inr among, bytes)

-- A proof that `verify_tx_inclusion` accepts under a header with the Merkle root of at most 2 ^ 63
-- transactions, with their number and with siblings of 32 bytes, shows that the transaction has the
-- bytes of the one at its index, or that an input that the check hashes (the transaction or a pair
-- on its path) and another input that the block's root hashes (a transaction or a pair of its tree),
-- both of bytes, have one SHA-256 hash. The payloads consist of bytes.
pub verify_tx_inclusion_sound :
    (txs : List Transaction) (p : TxInclusionProof)
    → length txs ≤ 2 ^ 63
    → p.header.merkle_root ≡ merkle_root txs
    → p.merkle.leaf_count ≡ length txs
    → All IsHash p.merkle.siblings
    → All HasBytes txs
    → HasBytes p.tx
    → verify_tx_inclusion p ≡ some true
    → ((tx : Transaction) × (get_elem? txs p.merkle.leaf_index ≡ some tx)
        × (serialize_tx p.tx ≡ serialize_tx tx))
      ⊎ Collision (checked_inputs p) (hashed_inputs txs)
unfolding verify_tx_inclusion txid
verify_tx_inclusion_sound txs p fits root count siblings bytes payload h =
    let (inside, found) =
      verify_merkle_root_sound (txids txs) (txid p.tx) p.merkle
        (omega (arith, fits, length-txids txs)) (count ∙ sym (length-txids txs)) (txids-IsHash txs)
        (sha256-IsHash (serialize_tx p.tx)) siblings
        (ap (λ r. verify_merkle_root r (txid p.tx) p.merkle) (sym (root ∙ merkle_root-txids txs))
          ∙ h) in
    let (tx, there, hashed) =
      get_or-txids txs p.merkle.leaf_index (omega (arith, inside, length-txids txs)) in
    let (among, tx_bytes) = serialized-at txs p.merkle.leaf_index tx bytes there in
    elim found [
      | inl e ↦
          elim (sha256_split (checked_inputs p) (hashed_inputs txs) (serialize_tx p.tx)
            (serialize_tx tx) (inl refl) (Among-left _ (serialized txs) _ among)
            (serialize_tx-IsByte p.tx payload) (serialize_tx-IsByte tx tx_bytes) (e ∙ hashed)) [
              | inl same ↦ inl (tx, there, same)
              | inr bad ↦ inr bad
            ]
      | inr bad ↦
          inr
            (Collision-widen _ _ _ _ (λ x q. inr q) (λ x q. Among-right x (serialized txs) _ q) bad)
    ]
