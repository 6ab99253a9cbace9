-- ===== src/Mempool/Changes.antt =====
-- Calls of `add` and `remove` of src/mempool.cpp, one after the other.
use randioum.Base.{
  ℕ, zero, suc, ◌≤◌, ◌≡◌, refl, sym, ap, subst, ◌∙◌, Bool, if◌then◌else◌, ◌==◌, List, [], ◌∷◌,
  length, replicate, All, Option, none, some, arith,
}
use randioum.Codec.Tx.{Transaction, serialize_tx}
use randioum.Chain.Merkle.{Hash256}
use randioum.Mempool.Pool.{MempoolOptions, Mempool, mempool, empty_shard}
use randioum.Mempool.Eviction.{add, remove}
use randioum.Mempool.Counts.{IsCounted, IsSound, txs_of, bytes_of, sum_of}
use randioum.Mempool.Sound.{IsRoomy}
use randioum.Mempool.Caps.{KeepsSound, add-KeepsSound, remove-KeepsSound}

pub data Request : Type 0 where
  adding : Transaction → Request
  removing : Hash256 → Request

-- The pool after a request, without the answer.
abbrev pub pool_after : Option (Bool × Mempool) → Option Mempool
pool_after none = none
pool_after (some r) = some r.1

abbrev pub handle : Request → Mempool → Option Mempool
handle (adding tx) pool = pool_after (add pool tx)
handle (removing id) pool = some (remove pool id).1

-- No pool where a call does not return.
abbrev pub handle_requests : List Request → Mempool → Option Mempool
handle_requests [] pool = some pool
handle_requests (r ∷ requests) pool = elim (handle r pool) [
  | none ↦ none
  | some next ↦ handle_requests requests next
]

-- The bytes that a request brings.
abbrev pub request_bytes : Request → ℕ
request_bytes (adding tx) = length (serialize_tx tx)
request_bytes (removing id) = 0

abbrev pub HasRoom : MempoolOptions → Request → Type 0
HasRoom opt r = IsRoomy opt (request_bytes r)

handle-KeepsSound :
    (r : Request) (pool : Mempool)
    → IsSound pool
    → HasRoom pool.opt r
    → (next : Mempool) × (handle r pool ≡ some next) × KeepsSound pool.opt next
handle-KeepsSound (adding tx) pool sound room =
    let ((answer, next), e, keeps) = add-KeepsSound pool tx sound room in
    (next, ap pool_after e, keeps)
handle-KeepsSound (removing id) pool sound room =
    ((remove pool id).1, refl, remove-KeepsSound pool id 0 sound room)

handle_requests-KeepsSound :
    (requests : List Request) (pool : Mempool)
    → IsSound pool
    → All (HasRoom pool.opt) requests
    → (next : Mempool) × (handle_requests requests pool ≡ some next) × KeepsSound pool.opt next
handle_requests-KeepsSound [] pool sound rooms = (pool, refl, (sound, refl))
handle_requests-KeepsSound (r ∷ requests) pool sound (room, rooms) =
    let (next, first, (good, same)) = handle-KeepsSound r pool sound room in
    let (last, rest, (sound', same')) =
      handle_requests-KeepsSound requests next good
        (subst (λ o. All (HasRoom o) requests) (sym same) rooms) in
    (
      last,
      ap (λ o. elim o [ none ↦ none | some p ↦ handle_requests requests p ]) first ∙ rest,
      (sound', same' ∙ same),
    )

mempool-IsSound : (opt : MempoolOptions) → IsSound (mempool opt)
unfolding mempool
mempool-IsSound opt = record {
  counted = all_empty n;
  some_shards = some_lem opt.shards;
  all_shards = sym (length_lem n);
  txs_counted = sym (no_txs n);
  bytes_counted = sym (no_bytes n);
  few = omega arith;
  small = omega arith;
}
  where
    n : ℕ
    n = if opt.shards == 0 then 1 else opt.shards

    some_lem : (k : ℕ) → 1 ≤ (if k == 0 then 1 else k)
    some_lem k = ground arith

    all_empty : (k : ℕ) → All IsCounted (replicate k empty_shard)
    all_empty zero = tt
    all_empty (suc k) = ((refl, refl), all_empty k)

    length_lem : (k : ℕ) → length (replicate k empty_shard) ≡ k
    length_lem zero = refl
    length_lem (suc k) = ap suc (length_lem k)

    no_txs : (k : ℕ) → sum_of txs_of (replicate k empty_shard) ≡ 0
    no_txs zero = refl
    no_txs (suc k) = omega (arith, no_txs k)

    no_bytes : (k : ℕ) → sum_of bytes_of (replicate k empty_shard) ≡ 0
    no_bytes zero = refl
    no_bytes (suc k) = omega (arith, no_bytes k)

-- Any calls of `add` and `remove` on a new pool, one after the other, all return, keep the options,
-- and leave a pool whose entries, and their bytes, are within the limits: the counters of each shard
-- are the number of its entries and the sum of their bytes, and those of the pool are the sums over
-- the shards. The limits are such that one transaction more would not wrap a counter.
pub handle_requests-IsSound :
    (opt : MempoolOptions) (requests : List Request)
    → All (HasRoom opt) requests
    → (pool : Mempool) × (handle_requests requests (mempool opt) ≡ some pool)
      × IsSound pool
      × (pool.opt ≡ (mempool opt).opt)
unfolding mempool
handle_requests-IsSound opt requests rooms =
    let (pool, e, (sound, same)) =
      handle_requests-KeepsSound requests (mempool opt) (mempool-IsSound opt) rooms in
    (pool, e, sound, same)
