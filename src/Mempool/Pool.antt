-- ===== src/Mempool/Pool.antt =====
-- The state of the pool, its shards, and its lookups. A set of keys is a list in their order, a hash
-- map is a list of entries, and the shards are a list.
use randioum.Base.{
  ℕ, zero, suc, ◌%◌, Bool, true, false, not, ltb, ◌==◌, if◌then◌else◌, List, [], ◌∷◌, length,
  get_or, replicate, Option, none, some,
}
use randioum.Base.Text.{same_bytes, to_hex}
use randioum.Base.Maps.{lookup}
use randioum.Codec.Tx.{Transaction, serialize_tx}
use randioum.Chain.Merkle.{Hash256}
use randioum.Mempool.Fees.{Key, key_less, fee_rate, max_fee_per_gas}

pub record MempoolOptions : Type 0 where
  pub max_txs : ℕ
  pub max_total_bytes : ℕ
  pub shards : ℕ
  pub min_fee_rate_per_byte : ℕ
  pub base_fee_per_gas : ℕ
  pub max_tx_payload_bytes : ℕ
  pub max_tx_version : ℕ

pub record Entry : Type 0 where
  pub tx : Transaction
  pub id : Hash256
  pub fee_rate_per_byte : ℕ
  pub effective_fee_per_gas : ℕ
  pub effective_compute_bid : ℕ
  pub bytes : ℕ

pub record Shard : Type 0 where
  pub order : List Key
  pub by_id : List (List ℕ × Entry)
  pub key_by_id : List (List ℕ × Key)
  pub total_bytes : ℕ
  pub total_txs : ℕ

pub record Mempool : Type 0 where
  pub opt : MempoolOptions
  pub shards : List Shard
  pub total_bytes : ℕ
  pub total_txs : ℕ

abbrev pub empty_shard : Shard
empty_shard = record { order = []; by_id = []; key_by_id = []; total_bytes = 0; total_txs = 0 }

unfoldable pub mempool : MempoolOptions → Mempool
mempool options =
    let n = if options.shards == 0 then 1 else options.shards in
    record {
      opt = record options { shards = n };
      shards = replicate n empty_shard;
      total_bytes = 0;
      total_txs = 0;
    }

-- Insertion into the set, which holds no two keys of which neither is less.
unfoldable pub insert_key : Key → List Key → List Key
insert_key k [] = k ∷ []
insert_key k (x ∷ xs) =
    let rest = insert_key k xs in
    if key_less k x then k ∷ x ∷ xs else if key_less x k then x ∷ rest else x ∷ xs

abbrev pub same_key : Key → Key → Bool
same_key a b = if key_less a b then false else not (key_less b a)

unfoldable pub find_key : Key → List Key → Option Key
find_key k [] = none
find_key k (x ∷ xs) = let rest = find_key k xs in if same_key k x then some x else rest

unfoldable pub erase_key : Key → List Key → List Key
erase_key k [] = []
erase_key k (x ∷ xs) = let rest = erase_key k xs in if same_key k x then xs else x ∷ rest

unfoldable pub erase : {V : Type 0} → List ℕ → List (List ℕ × V) → List (List ℕ × V)
erase key [] = []
erase key ((k, v) ∷ entries) =
    let rest = erase key entries in if same_bytes key k then entries else (k, v) ∷ rest

-- `emplace`, which keeps an entry that is there.
unfoldable pub emplace : {V : Type 0} → List ℕ → V → List (List ℕ × V) → List (List ℕ × V)
emplace key v [] = (key, v) ∷ []
emplace key v ((k, old) ∷ entries) =
    let rest = emplace key v entries in
    if same_bytes key k then (k, old) ∷ entries else (k, old) ∷ rest

abbrev pub set_at : {A : Type 0} → ℕ → A → List A → List A
set_at i a [] = []
set_at zero a (x ∷ xs) = a ∷ xs
set_at (suc i) a (x ∷ xs) = x ∷ set_at i a xs

-- `shards_.at`, which throws out of range: every index is in range in a pool that `mempool` makes.
abbrev pub shard_at : Mempool → ℕ → Shard
shard_at pool si = get_or empty_shard pool.shards si

unfoldable pub shard_index : Mempool → Hash256 → ℕ
shard_index pool id = get_or 0 id 0 % (if pool.opt.shards == 0 then 1 else pool.opt.shards)

abbrev pub entry_of : Shard → Hash256 → Option Entry
entry_of sh id = lookup same_bytes (to_hex id) sh.by_id

abbrev pub is_some : {A : Type 0} → Option A → Bool
is_some none = false
is_some (some a) = true

unfoldable pub contains : Mempool → Hash256 → Bool
contains pool id = is_some (entry_of (shard_at pool (shard_index pool id)) id)

abbrev pub tx_of : Option Entry → Option Transaction
tx_of none = none
tx_of (some e) = some e.tx

unfoldable pub get_tx : Mempool → Hash256 → Option Transaction
get_tx pool id = tx_of (entry_of (shard_at pool (shard_index pool id)) id)

unfoldable pub admit_basic : Mempool → Transaction → Bool
admit_basic pool tx =
    let low =
      if ltb tx.version 2 then false else ltb (max_fee_per_gas tx) pool.opt.base_fee_per_gas in
    if ltb pool.opt.max_tx_version tx.version
    then false
    else if ltb pool.opt.max_tx_payload_bytes (length tx.payload)
    then false
    else if low
    then false
    else not (ltb (fee_rate tx (length (serialize_tx tx))) pool.opt.min_fee_rate_per_byte)
