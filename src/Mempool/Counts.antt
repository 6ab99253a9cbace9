-- ===== src/Mempool/Counts.antt =====
-- What the counters of the pool and of its shards stand for, in src/mempool.cpp.
use mathlib.Core.Option.{none-ne-some}
use randioum.Base.{
  ℕ, zero, suc, ◌+◌, ◌≤◌, ◌<◌, ◌≡◌, refl, sym, ap, ◌∙◌, Bool, true, false, if◌then◌else◌, if-elim,
  if_true, if_false, Bool-cases, inl, inr, List, [], ◌∷◌, length, get_or, All, none, some, some-eq,
  arith,
}
use randioum.Base.Text.{same_bytes}
use randioum.Base.Maps.{lookup}
use randioum.Mempool.Pool.{Entry, Shard, Mempool, empty_shard, erase, emplace, set_at}

abbrev pub bytes_in : List (List ℕ × Entry) → ℕ
bytes_in [] = 0
bytes_in ((k, e) ∷ entries) = e.bytes + bytes_in entries

abbrev pub sum_of : (Shard → ℕ) → List Shard → ℕ
sum_of f [] = 0
sum_of f (sh ∷ rest) = f sh + sum_of f rest

abbrev pub txs_of : Shard → ℕ
txs_of sh = length sh.by_id

abbrev pub bytes_of : Shard → ℕ
bytes_of sh = bytes_in sh.by_id

-- The counters of a shard are those of its entries.
abbrev pub IsCounted : Shard → Type 0
IsCounted sh = (sh.total_txs ≡ txs_of sh) × (sh.total_bytes ≡ bytes_of sh)

-- So are those of the pool, which are within the limits, and each index leads to a shard.
pub record IsSound (pool : Mempool) : Type 0 where
  pub counted : All IsCounted pool.shards
  pub some_shards : 1 ≤ pool.opt.shards
  pub all_shards : pool.opt.shards ≡ length pool.shards
  pub txs_counted : pool.total_txs ≡ sum_of txs_of pool.shards
  pub bytes_counted : pool.total_bytes ≡ sum_of bytes_of pool.shards
  pub few : pool.total_txs ≤ pool.opt.max_txs
  pub small : pool.total_bytes ≤ pool.opt.max_total_bytes

-- Erasing an entry that is found takes away one, with its bytes.
pub erase-found :
    (key : List ℕ) (e : Entry) (entries : List (List ℕ × Entry))
    → lookup same_bytes key entries ≡ some e
    → (suc (length (erase key entries)) ≡ length entries)
      × (bytes_in (erase key entries) + e.bytes ≡ bytes_in entries)
unfolding erase
erase-found key e [] h = absurd (none-ne-some e h)
erase-found key e ((k, x) ∷ entries) h = at (same_bytes key k) (erase-found key e entries) h
  where
    at :
        (b : Bool)
        → (lookup same_bytes key entries ≡ some e
            → (suc (length (erase key entries)) ≡ length entries)
              × (bytes_in (erase key entries) + e.bytes ≡ bytes_in entries))
        → (if b then some x else lookup same_bytes key entries) ≡ some e
        → (suc (length (if b then entries else (k, x) ∷ erase key entries)) ≡ suc (length entries))
          × (bytes_in (if b then entries else (k, x) ∷ erase key entries) + e.bytes
              ≡ x.bytes + bytes_in entries)
    at true rest found = let bytes = ap Entry.bytes (some-eq found) in (refl, omega (arith, bytes))
    at false rest found = let (one, bytes) = rest found in (ap suc one, omega (arith, bytes))

-- An entry that is not found is not found after another one is erased.
pub erase-absent :
    {V : Type 0} (key other : List ℕ) (entries : List (List ℕ × V))
    → lookup same_bytes key entries ≡ none
    → lookup same_bytes key (erase other entries) ≡ none
unfolding erase
erase-absent key other [] h = refl
erase-absent {V = V} key other ((k, x) ∷ entries) h = elim (Bool-cases (same_bytes key k)) [
  | inl t ↦ absurd (none-ne-some x (sym h ∙ if_true _ _ t))
  | inr f ↦
      let missing = sym (if_false _ _ f) ∙ h in
      if-elim (λ (l : List (List ℕ × V)). lookup same_bytes key l ≡ none) (same_bytes other k)
        (λ t. missing) (λ g. if_false _ _ f ∙ erase-absent key other entries missing)
]

-- A new entry is one more, with its bytes.
pub emplace-absent :
    (key : List ℕ) (e : Entry) (entries : List (List ℕ × Entry))
    → lookup same_bytes key entries ≡ none
    → (length (emplace key e entries) ≡ suc (length entries))
      × (bytes_in (emplace key e entries) ≡ bytes_in entries + e.bytes)
unfolding emplace
emplace-absent key e [] h = (refl, omega arith)
emplace-absent key e ((k, x) ∷ entries) h = at (same_bytes key k) (emplace-absent key e entries) h
  where
    at :
        (b : Bool)
        → (lookup same_bytes key entries ≡ none
            → (length (emplace key e entries) ≡ suc (length entries))
              × (bytes_in (emplace key e entries) ≡ bytes_in entries + e.bytes))
        → (if b then some x else lookup same_bytes key entries) ≡ none
        → (length (if b then (k, x) ∷ entries else (k, x) ∷ emplace key e entries)
            ≡ suc (suc (length entries)))
          × (bytes_in (if b then (k, x) ∷ entries else (k, x) ∷ emplace key e entries)
              ≡ x.bytes + bytes_in entries + e.bytes)
    at true rest absent = absurd (none-ne-some x (sym absent))
    at false rest absent = let (one, bytes) = rest absent in (ap suc one, omega (arith, bytes))

-- A shard in the place of another one.
pub sum-set_at :
    (f : Shard → ℕ) (i : ℕ) (shards : List Shard) (next : Shard)
    → i < length shards
    → sum_of f (set_at i next shards) + f (get_or empty_shard shards i) ≡ sum_of f shards + f next
sum-set_at f i [] next inside = elim inside [ ]
sum-set_at f zero (sh ∷ shards) next inside = omega arith
sum-set_at f (suc i) (sh ∷ shards) next inside =
    omega (arith, sum-set_at f i shards next (omega (arith, inside)))

pub part-sum :
    (f : Shard → ℕ) (i : ℕ) (shards : List Shard)
    → i < length shards
    → f (get_or empty_shard shards i) ≤ sum_of f shards
part-sum f i [] inside = elim inside [ ]
part-sum f zero (sh ∷ shards) inside = omega arith
part-sum f (suc i) (sh ∷ shards) inside = omega (arith, part-sum f i shards (omega (arith, inside)))

pub length-set_at :
    (i : ℕ) (shards : List Shard) (next : Shard) → length (set_at i next shards) ≡ length shards
length-set_at i [] next = refl
length-set_at zero (sh ∷ shards) next = refl
length-set_at (suc i) (sh ∷ shards) next = ap suc (length-set_at i shards next)

pub All-set_at :
    (P : Shard → Type 0) (i : ℕ) (shards : List Shard) (next : Shard)
    → All P shards
    → P next
    → All P (set_at i next shards)
All-set_at P i [] next all p = tt
All-set_at P zero (sh ∷ shards) next (q, all) p = (p, all)
All-set_at P (suc i) (sh ∷ shards) next (q, all) p = (q, All-set_at P i shards next all p)

pub All-shard :
    (P : Shard → Type 0) (i : ℕ) (shards : List Shard)
    → All P shards
    → i < length shards
    → P (get_or empty_shard shards i)
All-shard P i [] all inside = elim inside [ ]
All-shard P zero (sh ∷ shards) (p, all) inside = p
All-shard P (suc i) (sh ∷ shards) (p, all) inside = All-shard P i shards all (omega (arith, inside))

pub shard-set_at :
    (P : Shard → Type 0) (i j : ℕ) (shards : List Shard) (next : Shard)
    → (P (get_or empty_shard shards i) → P next)
    → P (get_or empty_shard shards j)
    → P (get_or empty_shard (set_at i next shards) j)
shard-set_at P i j [] next keep p = p
shard-set_at P zero zero (sh ∷ shards) next keep p = keep p
shard-set_at P zero (suc j) (sh ∷ shards) next keep p = p
shard-set_at P (suc i) zero (sh ∷ shards) next keep p = p
shard-set_at P (suc i) (suc j) (sh ∷ shards) next keep p = shard-set_at P i j shards next keep p
