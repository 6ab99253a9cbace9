-- ===== src/Mempool/Eviction.antt =====
-- What goes into the pool and out of it: `evict_until_fit_`, `add` and `remove` of src/mempool.cpp.
use randioum.Base.{
  ℕ, zero, suc, ◌+◌, ◌-◌, ◌%◌, ◌^◌, Bool, true, false, not, ◌||◌, ltb, ◌==◌, if◌then◌else◌, List,
  [], ◌∷◌, length, Option, none, some,
}
use randioum.Base.Text.{same_bytes, to_hex}
use randioum.Base.Maps.{lookup, text_ltb}
use randioum.Codec.Tx.{Transaction, serialize_tx}
use randioum.Chain.Merkle.{Hash256}
use randioum.Chain.Block.{txid}
use randioum.Mempool.Fees.{Key, key_less, fee_rate, effective_fee_per_gas, effective_compute_bid}
use randioum.Mempool.Pool.{
  Entry, Shard, Mempool, insert_key, find_key, erase_key, erase, emplace, set_at, shard_at,
  shard_index, entry_of, contains, admit_basic,
}

abbrev pub sub64 : ℕ → ℕ → ℕ
sub64 a b = (a + 2 ^ 64 - b) % 2 ^ 64

-- The step back from the last key: `before` holds the keys in front of `it`, the nearest first.
unfoldable pub worst_from : ℕ → Key → List Key → Key
worst_from eff it [] = it
worst_from eff it (prev ∷ before) =
    let rest = worst_from eff prev before in
    if not prev.is_v2 || not (prev.effective_fee_per_gas == eff) then it else rest

abbrev pub pick_from : List Key → Option Key
pick_from [] = none
pick_from (it ∷ before) =
    if not it.is_v2 then some it else some (worst_from it.effective_fee_per_gas it before)

abbrev pub reverse_onto : List Key → List Key → List Key
reverse_onto [] keys = keys
reverse_onto (k ∷ rest) keys = reverse_onto rest (k ∷ keys)

-- No key where the set is empty.
unfoldable pub pick_worst_key : List Key → Option Key
pick_worst_key order = pick_from (reverse_onto order [])

unfoldable pub worse_for_eviction : Key → Key → Bool
worse_for_eviction a b =
    if a.is_v2
    then (if b.is_v2
        then (if not (a.effective_fee_per_gas == b.effective_fee_per_gas)
            then ltb a.effective_fee_per_gas b.effective_fee_per_gas
            else text_ltb a.id b.id)
        else false)
    else if b.is_v2
    then true
    else key_less b a

unfoldable pub better_than_worst_for_admission : Key → Key → Bool
better_than_worst_for_admission nk wk =
    if nk.is_v2
    then (if wk.is_v2
        then (if not (nk.effective_fee_per_gas == wk.effective_fee_per_gas)
            then ltb wk.effective_fee_per_gas nk.effective_fee_per_gas
            else text_ltb wk.id nk.id)
        else true)
    else if wk.is_v2
    then false
    else key_less nk wk

-- The worst key so far with its shard, and the worst one of the next shard.
abbrev pub worse_of : Option (ℕ × Key) → ℕ → Option Key → Option (ℕ × Key)
worse_of worst si none = worst
worse_of none si (some k) = some (si, k)
worse_of (some (worst_shard, worst)) si (some k) =
    if worse_for_eviction k worst
    then some (si, k)
    else if not (worse_for_eviction worst k)
    then if ltb si worst_shard then some (si, k) else some (worst_shard, worst)
    else some (worst_shard, worst)

unfoldable pub scan_shards : List Shard → ℕ → Option (ℕ × Key) → Option (ℕ × Key)
scan_shards [] si worst = worst
scan_shards (sh ∷ rest) si worst =
    scan_shards rest (si + 1) (worse_of worst si (pick_worst_key sh.order))

abbrev pub shrink : Shard → Key → Hash256 → Entry → Shard
shrink sh wk worst_id e = record {
  order = erase_key wk sh.order;
  by_id = erase (to_hex worst_id) sh.by_id;
  key_by_id = erase (to_hex worst_id) sh.key_by_id;
  total_bytes = sub64 sh.total_bytes e.bytes;
  total_txs = sub64 sh.total_txs 1;
}

abbrev pub evict_entry : Mempool → ℕ → Key → Hash256 → Option Entry → Option Mempool
evict_entry pool si wk worst_id none = none
evict_entry pool si wk worst_id (some e) = some (record pool {
  shards = set_at si (shrink (shard_at pool si) wk worst_id e) pool.shards;
  total_bytes = sub64 pool.total_bytes e.bytes;
  total_txs = sub64 pool.total_txs 1;
})

abbrev pub evict_key : Mempool → ℕ → Key → Option Key → Option Mempool
evict_key pool si wk none = none
evict_key pool si wk (some found) =
    evict_entry pool si wk found.id (entry_of (shard_at pool si) found.id)

abbrev pub evict_worst : Mempool → Key → Option (ℕ × Key) → Option Mempool
evict_worst pool new_key none = none
evict_worst pool new_key (some (si, wk)) =
    if not (better_than_worst_for_admission new_key wk)
    then none
    else evict_key pool si wk (find_key wk (shard_at pool si).order)

-- One round of the loop: none where it returns false.
unfoldable pub evict_one : Mempool → Key → Option Mempool
evict_one pool new_key = evict_worst pool new_key (scan_shards pool.shards 0 none)

abbrev pub over : Mempool → ℕ → Bool
over pool new_bytes =
    ltb pool.opt.max_txs ((pool.total_txs + 1) % 2 ^ 64)
    || ltb pool.opt.max_total_bytes ((pool.total_bytes + new_bytes) % 2 ^ 64)

-- What the loop leaves: a pool where the transaction fits, or one where it does not.
pub data Eviction : Type 0 where
  fits : Mempool → Eviction
  refused : Mempool → Eviction
  stuck : Eviction

unfoldable pub evict_until_fit : ℕ → Mempool → Key → ℕ → Eviction
evict_until_fit zero pool new_key new_bytes = stuck
evict_until_fit (suc fuel) pool new_key new_bytes =
    let next : Eviction = elim (evict_one pool new_key) [
      | none ↦ refused pool
      | some smaller ↦ evict_until_fit fuel smaller new_key new_bytes
    ] in
    if over pool new_bytes then next else fits pool

abbrev pub count_keys : List Shard → ℕ
count_keys [] = 0
count_keys (sh ∷ rest) = length sh.order + count_keys rest

abbrev pub entry_for : Mempool → Transaction → Entry
entry_for pool t = record {
  tx = t;
  id = txid t;
  fee_rate_per_byte = fee_rate t (length (serialize_tx t));
  effective_fee_per_gas = effective_fee_per_gas t pool.opt.base_fee_per_gas;
  effective_compute_bid = effective_compute_bid t;
  bytes = length (serialize_tx t);
}

abbrev pub key_for : Entry → Key
key_for e = record {
  is_v2 = not (ltb e.tx.version 2);
  effective_fee_per_gas = e.effective_fee_per_gas;
  effective_compute_bid = e.effective_compute_bid;
  fee_rate_per_byte = e.fee_rate_per_byte;
  fee = e.tx.fee;
  id = e.id;
}

-- The identifier is new here, so that the entry that `at` finds is this one.
abbrev pub extend : Shard → Entry → Shard
extend sh e = record {
  order = insert_key (key_for e) sh.order;
  by_id = emplace (to_hex e.id) e sh.by_id;
  key_by_id = emplace (to_hex e.id) (key_for e) sh.key_by_id;
  total_bytes = (sh.total_bytes + e.bytes) % 2 ^ 64;
  total_txs = (sh.total_txs + 1) % 2 ^ 64;
}

abbrev pub place : Mempool → Entry → Mempool
place pool e =
    let si = shard_index pool e.id in
    record pool {
      shards = set_at si (extend (shard_at pool si) e) pool.shards;
      total_bytes = (pool.total_bytes + e.bytes) % 2 ^ 64;
      total_txs = (pool.total_txs + 1) % 2 ^ 64;
    }

abbrev pub add_to : Entry → Eviction → Option (Bool × Mempool)
add_to e (fits pool) = some (true, place pool e)
add_to e (refused pool) = some (false, pool)
add_to e stuck = none

-- A round of the eviction for each key, and one more, suffice.
unfoldable pub add : Mempool → Transaction → Option (Bool × Mempool)
add pool tx =
    let e = entry_for pool tx in
    if not (admit_basic pool tx)
    then some (false, pool)
    else if contains pool (txid tx)
    then some (false, pool)
    else add_to e (evict_until_fit (suc (count_keys pool.shards)) pool (key_for e) e.bytes)

abbrev pub erase_order : Option Key → List Key → List Key
erase_order none order = order
erase_order (some k) order = erase_key k order

abbrev pub remove_from : Mempool → ℕ → Hash256 → Option Entry → Bool × Mempool
remove_from pool si id none = (false, pool)
remove_from pool si id (some e) =
    let sh = shard_at pool si in
    let rest : Shard = record {
      order = erase_order (lookup same_bytes (to_hex id) sh.key_by_id) sh.order;
      by_id = erase (to_hex id) sh.by_id;
      key_by_id = erase (to_hex id) sh.key_by_id;
      total_bytes = sub64 sh.total_bytes e.bytes;
      total_txs = sub64 sh.total_txs 1;
    } in
    (
      true,
      record pool {
        shards = set_at si rest pool.shards;
        total_bytes = sub64 pool.total_bytes e.bytes;
        total_txs = sub64 pool.total_txs 1;
      },
    )

unfoldable pub remove : Mempool → Hash256 → Bool × Mempool
remove pool id =
    let si = shard_index pool id in remove_from pool si id (entry_of (shard_at pool si) id)
