-- ===== src/Mempool/Caps.antt =====
-- What `evict_until_fit_`, `add` and `remove` of src/mempool.cpp leave in the pool.
use randioum.Base.{
  ℕ, zero, suc, ◌+◌, ◌%◌, ◌^◌, ◌<◌, ◌≡◌, refl, sym, ap, subst, ◌∙◌, Bool, true, false, not, ltb,
  ◌==◌, if◌then◌else◌, if-elim, neither, not_lt→le, length, get_or, Option, none, some, arith,
  some-eq,
}
use randioum.Base.Text.{to_hex}
use randioum.Codec.Tx.{Transaction, serialize_tx}
use randioum.Chain.Merkle.{Hash256}
use randioum.Chain.Block.{txid}
use randioum.Mempool.Fees.{Key}
use randioum.Mempool.Pool.{
  MempoolOptions, Entry, Mempool, shard_at, shard_index, entry_of, is_some, contains, admit_basic,
}
use randioum.Mempool.Eviction.{
  shrink, evict_one, over, Eviction, fits, refused, stuck, evict_until_fit, count_keys, entry_for,
  key_for, place, add_to, add, remove_from, remove,
}
use randioum.Mempool.Evicted.{
  Evicted, evict_one-Evicted, evict_one-shrinks, evict_one-opt, evict_one-absent, inside_range,
}
use randioum.Mempool.Counts.{IsSound}
use randioum.Mempool.Sound.{IsRoomy, take_out, place-IsSound}

evict_one-IsSound :
    (pool smaller : Mempool) (bytes : ℕ)
    → IsSound pool
    → IsRoomy pool.opt bytes
    → Evicted pool smaller
    → IsSound smaller
evict_one-IsSound pool smaller bytes sound room ev = subst IsSound (some-eq ev.result) (
    take_out pool ev.si (to_hex ev.found.id) ev.old
      (shrink (shard_at pool ev.si) ev.wk ev.found.id ev.old) bytes sound room
      (inside_range pool ev.si ev.found.id ev.old ev.entry_found) ev.entry_found refl refl refl)

-- What the eviction leaves: a sound pool with the options of the one before. It is below its limits
-- and has no entry of the identifier, or it refuses.
abbrev IsSettled : MempoolOptions → ℕ → Hash256 → ℕ → Eviction → Type 0
IsSettled opt si id bytes (fits p) =
    IsSound p × (p.opt ≡ opt) × (over p bytes ≡ false) × (entry_of (shard_at p si) id ≡ none)
IsSettled opt si id bytes (refused p) = IsSound p × (p.opt ≡ opt)
IsSettled opt si id bytes stuck = ⊥

evict_until_fit-IsSettled :
    (fuel : ℕ) (pool : Mempool) (opt : MempoolOptions) (si : ℕ) (id : Hash256) (new_key : Key)
    (bytes : ℕ)
    → count_keys pool.shards < fuel
    → IsSound pool
    → pool.opt ≡ opt
    → IsRoomy opt bytes
    → entry_of (shard_at pool si) id ≡ none
    → IsSettled opt si id bytes (evict_until_fit fuel pool new_key bytes)
unfolding evict_until_fit
evict_until_fit-IsSettled zero pool opt si id new_key bytes enough sound same room absent =
    elim enough [ ]
evict_until_fit-IsSettled (suc fuel) pool opt si id new_key bytes enough sound same room absent =
    if-elim (IsSettled opt si id bytes) (over pool bytes)
      (λ t.
        next (λ smaller. evict_until_fit-IsSettled fuel smaller opt si id new_key bytes)
          (evict_one pool new_key) refl)
      (λ f. (sound, same, f, absent))
  where
    next :
        ((smaller : Mempool)
          → count_keys smaller.shards < fuel
          → IsSound smaller
          → smaller.opt ≡ opt
          → IsRoomy opt bytes
          → entry_of (shard_at smaller si) id ≡ none
          → IsSettled opt si id bytes (evict_until_fit fuel smaller new_key bytes))
        → (o : Option Mempool) → evict_one pool new_key ≡ o
        → IsSettled opt si id bytes (elim o [
          | none ↦ refused pool
          | some smaller ↦ evict_until_fit fuel smaller new_key bytes
        ])
    next rest none e = (sound, same)
    next rest (some smaller) e =
        let ev = evict_one-Evicted pool new_key smaller e in
        rest smaller (omega (arith, enough, evict_one-shrinks pool smaller ev))
          (evict_one-IsSound pool smaller bytes sound (subst (λ o. IsRoomy o bytes) (sym same) room)
            ev)
          (evict_one-opt pool smaller ev ∙ same) room
          (evict_one-absent pool smaller si id ev absent)

shard_index-opt :
    (p pool : Mempool) (id : Hash256) → p.opt ≡ pool.opt → shard_index p id ≡ shard_index pool id
unfolding shard_index
shard_index-opt p pool id same =
    ap (λ (o : MempoolOptions). get_or 0 id 0 % (if o.shards == 0 then 1 else o.shards)) same

not_some→none : {A : Type 0} (o : Option A) → is_some o ≡ false → o ≡ none
not_some→none none e = refl
not_some→none (some a) e = let no : true ≡ false = e in absurd (ground arith)

-- A pool that is sound and has the options of another one.
abbrev pub KeepsSound : MempoolOptions → Mempool → Type 0
KeepsSound opt p = IsSound p × (p.opt ≡ opt)

pub add-KeepsSound :
    (pool : Mempool) (tx : Transaction)
    → IsSound pool
    → IsRoomy pool.opt (length (serialize_tx tx))
    → (r : Bool × Mempool) × (add pool tx ≡ some r) × KeepsSound pool.opt r.1
unfolding add contains
add-KeepsSound pool tx sound room =
    if-elim Returns (not (admit_basic pool tx)) (λ t. unchanged)
      (λ f.
        if-elim Returns (contains pool (txid tx)) (λ t. unchanged)
          (λ g. added (evict_until_fit (suc (count_keys pool.shards)) pool (key_for e) e.bytes) (
            evict_until_fit-IsSettled (suc (count_keys pool.shards)) pool pool.opt
              (shard_index pool e.id) e.id (key_for e) e.bytes (omega arith) sound refl room
              (not_some→none _ g))))
  where
    e : Entry
    e = entry_for pool tx

    Returns : Option (Bool × Mempool) → Type 0
    Returns o = (r : Bool × Mempool) × (o ≡ some r) × KeepsSound pool.opt r.1

    unchanged : Returns (some (false, pool))
    unchanged = ((false, pool), refl, (sound, refl))

    added :
        (o : Eviction)
        → IsSettled pool.opt (shard_index pool e.id) e.id e.bytes o
        → Returns (add_to e o)
    added stuck s = absurd s
    added (refused p) s = ((false, p), refl, s)
    added (fits p) (good, same, below, absent) =
        let (few, small) =
          neither (ltb p.opt.max_txs ((p.total_txs + 1) % 2 ^ 64))
            (ltb p.opt.max_total_bytes ((p.total_bytes + e.bytes) % 2 ^ 64)) below in
        (
          (true, place p e),
          refl,
          (
            place-IsSound p e good (subst (λ o. IsRoomy o e.bytes) (sym same) room)
                (ap (λ si. entry_of (shard_at p si) e.id) (shard_index-opt p pool e.id same)
                  ∙ absent)
                (not_lt→le _ _ few) (not_lt→le _ _ small),
            same,
          ),
        )

pub remove-KeepsSound :
    (pool : Mempool) (id : Hash256) (bytes : ℕ)
    → IsSound pool
    → IsRoomy pool.opt bytes
    → KeepsSound pool.opt (remove pool id).1
unfolding remove
remove-KeepsSound pool id bytes sound room = found (entry_of (shard_at pool si) id) refl
  where
    si : ℕ
    si = shard_index pool id

    found :
        (o : Option Entry)
        → entry_of (shard_at pool si) id ≡ o
        → KeepsSound pool.opt (remove_from pool si id o).1
    found none at = (sound, refl)
    found (some e) at = (
      take_out pool si (to_hex id) e _ bytes sound room (inside_range pool si id e at) at refl refl
          refl,
      refl,
    )
