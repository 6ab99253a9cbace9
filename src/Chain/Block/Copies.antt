-- ===== src/Chain/Block/Copies.antt =====
-- A block with a copy of its last transaction: what the Merkle root of src/block.cpp, which pairs an
-- odd hash out with itself, and `validate_block` of src/validate.cpp say of it.
use randioum.Base.{
  ℕ, zero, suc, ◌+◌, ◌%◌, ◌≤◌, ◌≡◌, refl, sym, ap, ◌∙◌, Bool, true, false, not, ltb, ◌==◌,
  if◌then◌else◌, if-elim, List, [], ◌∷◌, ◌++◌, length, get_or, length-append, arith,
}
use randioum.Base.Text.{same_bytes}
use randioum.Codec.Header.{BlockHeader}
use randioum.Codec.Tx.{Transaction}
use randioum.Hash.Sha256.{sha256_2x32}
use randioum.Chain.Merkle.{Hash256, next_layer, merkle_loop}
use randioum.Chain.Merkle.Layers.{length-next_layer, merkle_loop_fuel}
use randioum.Chain.Merkle.Paths.{loop_go}
use randioum.Chain.Block.{
  txid, txids, merkle_root, ValidationOptions, validate_tx, validate_txs, validate_block,
}

txids-append : (front back : List Transaction) → txids (front ++ back) ≡ txids front ++ txids back
txids-append [] back = refl
txids-append (tx ∷ front) back = ap (λ r. txid tx ∷ r) (txids-append front back)

pub length-txids : (txs : List Transaction) → length (txids txs) ≡ length txs
length-txids [] = refl
length-txids (tx ∷ txs) = ap suc (length-txids txs)

next_layer-copy :
    (parent : Hash256 → Hash256 → Hash256) (front : List Hash256) (h : Hash256)
    → length front % 2 ≡ 0
    → next_layer parent (front ++ h ∷ h ∷ []) ≡ next_layer parent (front ++ h ∷ [])
unfolding next_layer
next_layer-copy parent [] h even = refl
next_layer-copy parent (x ∷ []) h even = absurd (omega (arith, even))
next_layer-copy parent (x ∷ y ∷ front) h even =
    ap (λ r. parent x y ∷ r) (next_layer-copy parent front h (omega (arith, even)))

-- From two hashes on, the loop goes through the next layer.
loop_next :
    (parent : Hash256 → Hash256 → Hash256) (n m : ℕ) (layer : List Hash256)
    → length layer ≡ n
    → 2 ≤ n
    → n ≤ m
    → merkle_loop parent n layer ≡ merkle_loop parent m (next_layer parent layer)
loop_next parent zero m layer len two le = elim two [ ]
loop_next parent (suc n) m layer len two le =
    loop_go parent n layer (ground arith)
    ∙ merkle_loop_fuel parent n m (next_layer parent layer)
        (omega (arith, length-next_layer parent layer, len, two))
        (omega (arith, length-next_layer parent layer, len, two, le))

root_next :
    (txs : List Transaction) (m : ℕ)
    → 2 ≤ length txs
    → length txs ≤ m
    → merkle_root txs ≡ get_or [] (merkle_loop sha256_2x32 m (next_layer sha256_2x32 (txids txs))) 0
unfolding merkle_root
root_next txs m two le =
    if-elim (λ r. r ≡ get_or [] (merkle_loop sha256_2x32 m (next_layer sha256_2x32 (txids txs))) 0)
      (length txs == 0) (λ t. absurd (ground arith))
      (λ f.
        ap (λ l. get_or [] l 0)
          (loop_next sha256_2x32 (length txs) m (txids txs) (length-txids txs) two le))

-- An odd number of transactions, from three on, has the Merkle root of the same transactions with a
-- copy of the last one.
pub merkle_root_copy :
    (front : List Transaction) (tx : Transaction)
    → length front % 2 ≡ 0
    → 2 ≤ length front
    → merkle_root (front ++ tx ∷ tx ∷ []) ≡ merkle_root (front ++ tx ∷ [])
merkle_root_copy front tx even two =
    let long = length-append front (tx ∷ tx ∷ []) in
    let short = length-append front (tx ∷ []) in
    let parent = sha256_2x32 in
    root_next (front ++ tx ∷ tx ∷ []) (length front + 2) (omega (arith, long)) (omega (arith, long))
    ∙ ap (λ l. get_or [] (merkle_loop parent (length front + 2) l) 0)
        (ap (next_layer parent) (txids-append front (tx ∷ tx ∷ []))
          ∙ next_layer-copy parent (txids front) (txid tx)
              (ap (λ n. n % 2) (length-txids front) ∙ even)
          ∙ ap (next_layer parent) (sym (txids-append front (tx ∷ []))))
    ∙ sym (
        root_next (front ++ tx ∷ []) (length front + 2) (omega (arith, short, two))
          (omega (arith, short)))

validate_txs-copy :
    (front : List Transaction) (tx : Transaction) (opt : ValidationOptions)
    → validate_txs (front ++ tx ∷ []) opt ≡ true
    → validate_txs (front ++ tx ∷ tx ∷ []) opt ≡ true
unfolding validate_txs
validate_txs-copy [] tx opt h =
    if-elim
      (λ r.
        r ≡ true
        → (if validate_tx tx opt then if validate_tx tx opt then true else false else false) ≡ true)
      (validate_tx tx opt) (λ t e. rw t refl) (λ f e. absurd (ground arith)) h
validate_txs-copy (x ∷ front) tx opt h =
    if-elim
      (λ r.
        r ≡ true
        → (if validate_tx x opt then validate_txs (front ++ tx ∷ tx ∷ []) opt else false) ≡ true)
      (validate_tx x opt) (λ t e. rw t (validate_txs-copy front tx opt e))
      (λ f e. absurd (ground arith)) h

-- The three tests of `validate_block`.
passed :
    (many valid same : Bool)
    → (if many then false else if not valid then false else same) ≡ true
    → (valid ≡ true) × (same ≡ true)
passed true valid same h = absurd (ground arith)
passed false false same h = absurd (ground arith)
passed false true same h = (refl, h)

passes :
    (many valid same : Bool)
    → many ≡ false
    → valid ≡ true
    → same ≡ true
    → (if many then false else if not valid then false else same) ≡ true
passes many valid same m v s = rw (m, v) s

-- A block that `validate_block` accepts, with an odd number of transactions, from three on, is
-- accepted under the same header with a copy of its last transaction, where the options leave room.
pub validate_block_copy :
    (h : BlockHeader) (front : List Transaction) (tx : Transaction) (opt : ValidationOptions)
    → length front % 2 ≡ 0
    → 2 ≤ length front
    → length front + 2 ≤ opt.max_block_txs
    → validate_block (record { header = h; transactions = front ++ tx ∷ [] }) opt ≡ true
    → validate_block (record { header = h; transactions = front ++ tx ∷ tx ∷ [] }) opt ≡ true
unfolding validate_block
validate_block_copy h front tx opt even two room valid =
    let (txs_good, root_good) =
      passed (ltb opt.max_block_txs (length (front ++ tx ∷ [])))
        (validate_txs (front ++ tx ∷ []) opt)
        (same_bytes (merkle_root (front ++ tx ∷ [])) h.merkle_root) valid in
    passes _ _ _ (within (omega (arith, room, length-append front (tx ∷ tx ∷ []))))
      (validate_txs-copy front tx opt txs_good)
      (ap (λ r. same_bytes r h.merkle_root) (merkle_root_copy front tx even two) ∙ root_good)
  where
    within : {a b : ℕ} → b ≤ a → ltb a b ≡ false
    within le = ground arith
