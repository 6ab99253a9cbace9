-- ===== src/Mempool/Sound.antt =====
-- An entry that `evict_until_fit_` or `remove` of src/mempool.cpp takes out of the pool, and one that
-- `add` puts into it: the counters follow.
use randioum.Base.{
  ℕ, suc, ◌+◌, ◌%◌, ◌^◌, ◌≤◌, ◌<◌, ◌≡◌, sym, ap, ◌∙◌, List, length, none, some, arith, ◌==◌,
  if◌then◌else◌, get_or,
}
use randioum.Base.Text.{same_bytes, to_hex}
use randioum.Base.Maps.{lookup}
use randioum.Chain.Merkle.{Hash256}
use randioum.Mempool.Pool.{
  MempoolOptions, Entry, Shard, Mempool, erase, set_at, shard_at, shard_index, entry_of,
}
use randioum.Mempool.Eviction.{sub64, extend, place}
use randioum.Mempool.Counts.{
  IsCounted, IsSound, txs_of, bytes_of, sum_of, bytes_in, erase-found, emplace-absent, sum-set_at,
  part-sum, length-set_at, All-set_at, All-shard,
}

-- The options leave room above the limits, for a transaction of some bytes.
abbrev pub IsRoomy : MempoolOptions → ℕ → Type 0
IsRoomy opt bytes = (opt.max_txs + 1 < 2 ^ 64) × (opt.max_total_bytes + bytes < 2 ^ 64)

sub64_exact : (a b c : ℕ) → a < 2 ^ 64 → c + b ≡ a → sub64 a b ≡ c
sub64_exact a b c fits e = omega (arith, fits, e)

sub64_part : (a b c s x y : ℕ) → a < 2 ^ 64 → a ≡ s → c + x ≡ s + y → y + b ≡ x → sub64 a b ≡ c
sub64_part a b c s x y fits e sum part = omega (arith, fits, e, sum, part)

-- `next` is the shard without the entry.
pub take_out :
    (pool : Mempool) (si : ℕ) (key : List ℕ) (e : Entry) (next : Shard) (bytes : ℕ)
    → IsSound pool
    → IsRoomy pool.opt bytes
    → si < length pool.shards
    → lookup same_bytes key (shard_at pool si).by_id ≡ some e
    → next.by_id ≡ erase key (shard_at pool si).by_id
    → next.total_txs ≡ sub64 (shard_at pool si).total_txs 1
    → next.total_bytes ≡ sub64 (shard_at pool si).total_bytes e.bytes
    → IsSound (record pool {
      shards = set_at si next pool.shards;
      total_bytes = sub64 pool.total_bytes e.bytes;
      total_txs = sub64 pool.total_txs 1;
    })
take_out pool si key e next bytes sound room inside found ids txs total =
    let sh = shard_at pool si in
    let (fewer, smaller) = erase-found key e sh.by_id found in
    let (shard_txs, shard_bytes) = All-shard IsCounted si pool.shards sound.counted inside in
    let next_txs : suc (txs_of next) ≡ txs_of sh = ap (λ l. suc (length l)) ids ∙ fewer in
    let next_bytes : bytes_of next + e.bytes ≡ bytes_of sh =
      ap (λ l. bytes_in l + e.bytes) ids ∙ smaller in
    let txs_fit : pool.total_txs < 2 ^ 64 = below sound.few room.0 in
    let bytes_fit : pool.total_bytes < 2 ^ 64 = below_by bytes sound.small room.1 in
    let txs_part = part-sum txs_of si pool.shards inside in
    let bytes_part = part-sum bytes_of si pool.shards inside in
    let all_txs : sub64 pool.total_txs 1 ≡ sum_of txs_of (set_at si next pool.shards) =
      sub64_part pool.total_txs 1 _ _ _ _ txs_fit sound.txs_counted
        (sum-set_at txs_of si pool.shards next inside) (omega (arith, next_txs)) in
    let all_bytes : sub64 pool.total_bytes e.bytes ≡ sum_of bytes_of (set_at si next pool.shards) =
      sub64_part pool.total_bytes e.bytes _ _ _ _ bytes_fit sound.bytes_counted
        (sum-set_at bytes_of si pool.shards next inside) next_bytes in
    record {
      counted = All-set_at IsCounted si pool.shards next sound.counted (
        txs
            ∙ sub64_exact sh.total_txs 1 (txs_of next)
                (part_fits shard_txs txs_part sound.txs_counted txs_fit) (step next_txs shard_txs),
        total
            ∙ sub64_exact sh.total_bytes e.bytes (bytes_of next)
                (part_fits shard_bytes bytes_part sound.bytes_counted bytes_fit)
                (next_bytes ∙ sym shard_bytes),
      );
      some_shards = sound.some_shards;
      all_shards = sound.all_shards ∙ sym (length-set_at si pool.shards next);
      txs_counted = all_txs;
      bytes_counted = all_bytes;
      few =
          less
            (sub64_le pool.total_txs 1 _ _ _ _ txs_fit sound.txs_counted
              (sum-set_at txs_of si pool.shards next inside) (omega (arith, next_txs)))
            sound.few;
      small =
          less
            (sub64_le pool.total_bytes e.bytes _ _ _ _ bytes_fit sound.bytes_counted
              (sum-set_at bytes_of si pool.shards next inside) next_bytes)
            sound.small;
    }
  where
    below : {a m : ℕ} → a ≤ m → m + 1 < 2 ^ 64 → a < 2 ^ 64
    below le lt = omega (arith, le, lt)

    below_by : {a m : ℕ} (b : ℕ) → a ≤ m → m + b < 2 ^ 64 → a < 2 ^ 64
    below_by b le lt = omega (arith, le, lt)

    part_fits : {a b s t : ℕ} → a ≡ b → b ≤ s → t ≡ s → t < 2 ^ 64 → a < 2 ^ 64
    part_fits e le e' lt = omega (arith, e, le, e', lt)

    step : {a b c : ℕ} → suc a ≡ b → c ≡ b → a + 1 ≡ c
    step e e' = omega (arith, e, e')

    less : {a b c : ℕ} → a ≤ b → b ≤ c → a ≤ c
    less p q = omega (arith, p, q)

    sub64_le : (a b c s x y : ℕ) → a < 2 ^ 64 → a ≡ s → c + x ≡ s + y → y + b ≡ x → sub64 a b ≤ a
    sub64_le a b c s x y fits e sum part = omega (arith, fits, e, sum, part)

-- An identifier's index is in the range of the pool.
pub index_inside :
    (pool : Mempool) (id : Hash256) → IsSound pool → shard_index pool id < length pool.shards
unfolding shard_index
index_inside pool id sound =
    rest_inside (get_or 0 id 0) pool.opt.shards (length pool.shards) sound.some_shards
      sound.all_shards
  where
    rest_inside : (x n k : ℕ) → 1 ≤ n → n ≡ k → x % (if n == 0 then 1 else n) < k
    rest_inside x n k some_shards all = ground arith

-- A new entry, with room for it.
pub place-IsSound :
    (pool : Mempool) (e : Entry)
    → IsSound pool
    → IsRoomy pool.opt e.bytes
    → entry_of (shard_at pool (shard_index pool e.id)) e.id ≡ none
    → (pool.total_txs + 1) % 2 ^ 64 ≤ pool.opt.max_txs
    → (pool.total_bytes + e.bytes) % 2 ^ 64 ≤ pool.opt.max_total_bytes
    → IsSound (place pool e)
place-IsSound pool e sound room absent few small =
    let si = shard_index pool e.id in
    let sh = shard_at pool si in
    let next = extend sh e in
    let inside = index_inside pool e.id sound in
    let (more, larger) = emplace-absent (to_hex e.id) e sh.by_id absent in
    let (shard_txs, shard_bytes) = All-shard IsCounted si pool.shards sound.counted inside in
    let txs_fit : pool.total_txs + 1 < 2 ^ 64 = below 1 sound.few room.0 in
    let bytes_fit : pool.total_bytes + e.bytes < 2 ^ 64 = below e.bytes sound.small room.1 in
    record {
      counted = All-set_at IsCounted si pool.shards next sound.counted (
        part _ _ _ _ _ 1 shard_txs (part-sum txs_of si pool.shards inside) sound.txs_counted txs_fit
            (more ∙ omega arith),
        part _ _ _ _ _ e.bytes shard_bytes (part-sum bytes_of si pool.shards inside)
            sound.bytes_counted bytes_fit larger,
      );
      some_shards = sound.some_shards;
      all_shards = sound.all_shards ∙ sym (length-set_at si pool.shards next);
      txs_counted =
          whole _ _ _ _ _ 1 sound.txs_counted txs_fit (sum-set_at txs_of si pool.shards next inside)
            (more ∙ omega arith);
      bytes_counted =
          whole _ _ _ _ _ e.bytes sound.bytes_counted bytes_fit
            (sum-set_at bytes_of si pool.shards next inside) larger;
      few = few;
      small = small;
    }
  where
    below : {a m : ℕ} (b : ℕ) → a ≤ m → m + b < 2 ^ 64 → a + b < 2 ^ 64
    below b le lt = omega (arith, le, lt)

    part :
        (a n s t n' b : ℕ)
        → a ≡ n
        → n ≤ s
        → t ≡ s
        → t + b < 2 ^ 64
        → n' ≡ n + b
        → (a + b) % 2 ^ 64 ≡ n'
    part a n s t n' b e le e' lt new = omega (arith, e, le, e', lt, new)

    whole :
        (t s s' n n' b : ℕ)
        → t ≡ s
        → t + b < 2 ^ 64
        → s' + n ≡ s + n'
        → n' ≡ n + b
        → (t + b) % 2 ^ 64 ≡ s'
    whole t s s' n n' b e lt sum new = omega (arith, e, lt, sum, new)
