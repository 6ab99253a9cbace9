-- ===== src/Mempool/Evicted.antt =====
-- A round of the loop of `evict_until_fit_` in src/mempool.cpp: what it takes out of the pool.
use mathlib.Core.Option.{none-ne-some}
use randioum.Base.{
  ℕ, zero, suc, ◌≤◌, ◌<◌, ◌≡◌, refl, sym, ap, ◌∙◌, Bool, true, false, not, if◌then◌else◌, if-elim,
  List, [], ◌∷◌, length, get_or, Option, none, some, some-eq, arith,
}
use randioum.Base.Text.{to_hex}
use randioum.Chain.Merkle.{Hash256}
use randioum.Mempool.Fees.{Key}
use randioum.Mempool.Pool.{
  Entry, Shard, Mempool, empty_shard, find_key, erase_key, same_key, set_at, shard_at, entry_of,
}
use randioum.Mempool.Eviction.{
  scan_shards, shrink, evict_entry, evict_key, evict_worst, evict_one,
  better_than_worst_for_admission, count_keys,
}
use randioum.Mempool.Counts.{erase-absent, shard-set_at}

-- The key and the entry that a round has found.
pub record Evicted (pool smaller : Mempool) : Type 0 where
  pub si : ℕ
  pub wk : Key
  pub found : Key
  pub old : Entry
  pub key_found : find_key wk (shard_at pool si).order ≡ some found
  pub entry_found : entry_of (shard_at pool si) found.id ≡ some old
  pub result : evict_entry pool si wk found.id (some old) ≡ some smaller

pub evict_one-Evicted :
    (pool : Mempool) (new_key : Key) (smaller : Mempool)
    → evict_one pool new_key ≡ some smaller
    → Evicted pool smaller
unfolding evict_one
evict_one-Evicted pool new_key smaller = worst (scan_shards pool.shards 0 none)
  where
    entry :
        (si : ℕ) (wk found : Key)
        → find_key wk (shard_at pool si).order ≡ some found
        → (o : Option Entry) → entry_of (shard_at pool si) found.id ≡ o
        → evict_entry pool si wk found.id o ≡ some smaller
        → Evicted pool smaller
    entry si wk found at none there e = absurd (none-ne-some smaller e)
    entry si wk found at (some old) there e = record {
      si = si;
      wk = wk;
      found = found;
      old = old;
      key_found = at;
      entry_found = there;
      result = e;
    }

    key :
        (si : ℕ) (wk : Key) (o : Option Key)
        → find_key wk (shard_at pool si).order ≡ o
        → evict_key pool si wk o ≡ some smaller
        → Evicted pool smaller
    key si wk none at e = absurd (none-ne-some smaller e)
    key si wk (some found) at e = entry si wk found at (entry_of (shard_at pool si) found.id) refl e

    worst :
        (o : Option (ℕ × Key)) → evict_worst pool new_key o ≡ some smaller → Evicted pool smaller
    worst none e = absurd (none-ne-some smaller e)
    worst (some (si, wk)) e =
        (if-elim (λ o. o ≡ some smaller → Evicted pool smaller)
            (not (better_than_worst_for_admission new_key wk))
            (λ t e. absurd (none-ne-some smaller e))
            (λ f. key si wk (find_key wk (shard_at pool si).order) refl))
          e

-- Erasing a key that is found takes one away.
length-erase_key :
    (k found : Key) (order : List Key)
    → find_key k order ≡ some found
    → suc (length (erase_key k order)) ≡ length order
unfolding find_key erase_key
length-erase_key k found [] h = absurd (none-ne-some found h)
length-erase_key k found (x ∷ order) h = at (same_key k x) (length-erase_key k found order) h
  where
    at :
        (b : Bool)
        → (find_key k order ≡ some found → suc (length (erase_key k order)) ≡ length order)
        → (if b then some x else find_key k order) ≡ some found
        → suc (length (if b then order else x ∷ erase_key k order)) ≡ suc (length order)
    at true rest e = refl
    at false rest e = ap suc (rest e)

-- A shard with a key fewer is in the pool, not out of its range.
count_keys-set_at :
    (si : ℕ) (shards : List Shard) (next : Shard)
    → suc (length next.order) ≡ length (get_or empty_shard shards si).order
    → suc (count_keys (set_at si next shards)) ≡ count_keys shards
count_keys-set_at si [] next h = let no : 1 ≤ 0 = omega (arith, h) in elim no [ ]
count_keys-set_at zero (sh ∷ shards) next h = omega (arith, h)
count_keys-set_at (suc si) (sh ∷ shards) next h = omega (arith, count_keys-set_at si shards next h)

-- A round takes a key away.
pub evict_one-shrinks :
    (pool smaller : Mempool)
    → Evicted pool smaller
    → suc (count_keys smaller.shards) ≡ count_keys pool.shards
evict_one-shrinks pool smaller ev =
    ap (λ (p : Mempool). suc (count_keys p.shards)) (sym (some-eq ev.result))
    ∙ count_keys-set_at ev.si pool.shards (shrink (shard_at pool ev.si) ev.wk ev.found.id ev.old)
        (length-erase_key ev.wk ev.found (shard_at pool ev.si).order ev.key_found)

pub evict_one-opt : (pool smaller : Mempool) → Evicted pool smaller → smaller.opt ≡ pool.opt
evict_one-opt pool smaller ev = ap Mempool.opt (sym (some-eq ev.result))

-- An entry that is not there is not there after the round.
pub evict_one-absent :
    (pool smaller : Mempool) (j : ℕ) (id : Hash256)
    → Evicted pool smaller
    → entry_of (shard_at pool j) id ≡ none
    → entry_of (shard_at smaller j) id ≡ none
evict_one-absent pool smaller j id ev absent =
    ap (λ (p : Mempool). entry_of (shard_at p j) id) (sym (some-eq ev.result))
    ∙ shard-set_at (λ sh. entry_of sh id ≡ none) ev.si j pool.shards
        (shrink (shard_at pool ev.si) ev.wk ev.found.id ev.old)
        (erase-absent (to_hex id) (to_hex ev.found.id) (shard_at pool ev.si).by_id) absent

-- A shard with an entry is in the range of the pool.
pub inside_range :
    (pool : Mempool) (i : ℕ) (id : Hash256) (e : Entry)
    → entry_of (shard_at pool i) id ≡ some e
    → i < length pool.shards
inside_range pool i id e = within i pool.shards
  where
    within :
        (i : ℕ) (shards : List Shard)
        → entry_of (get_or empty_shard shards i) id ≡ some e
        → i < length shards
    within i [] h = absurd (none-ne-some e h)
    within zero (sh ∷ shards) h = omega arith
    within (suc i) (sh ∷ shards) h = omega (arith, within i shards h)
