-- ===== src/Amm/Store/Laws.antt =====
-- What a token transfer and an event change, when they succeed.
use randioum.Base.{
  ℕ, ◌+◌, ◌-◌, ◌%◌, ◌^◌, ◌≤◌, ◌<◌, ◌≡◌, refl, sym, subst, ap, ◌∙◌, ltb, not, not_lt→le, ◌==◌,
  if-elim, List, [], ◌∷◌, ◌++◌, append_assoc, All, length, take, drop, Option, none, some, some-eq,
  arith,
}
use mathlib.Core.Option.{none-ne-some}
use randioum.Codec.Bytes.{IsByte, IsU64}
use randioum.Codec.Bytes.Range.{read_u64_le-IsU64, All-take}
use randioum.Codec.Bytes.Inverse.{All-drop}
use randioum.Result.{ok, bind_inv, fail_if_inv, ok-injective, err-ne-ok}
use randioum.Amm.Key
use randioum.Amm.Key.{Hash256}
use randioum.Amm.Store.{
  Storage, Change, refused, need, decode_u64, encode_u64, read_storage_u64, read_u64_at,
  storage_entry, token_transfer, record_event,
}

-- Every stored value is a byte vector.
abbrev pub IsStored : Storage → Type 0
IsStored get =
    (contract : List ℕ) (key : Hash256) (v : List ℕ) → get contract key ≡ some v → All IsByte v

-- The list of changes sets a 64-bit number of a contract's storage.
abbrev pub Writes : List ℕ → Hash256 → ℕ → List Change → Type 0
Writes contract key v out =
    (before : List Change) × (after : List Change) × (out
      ≡ before ++ (storage_entry contract key (encode_u64 v) ∷ after))

pub Writes-append :
    (contract : List ℕ) (key : Hash256) (v : ℕ) (out more : List Change)
    → Writes contract key v out
    → Writes contract key v (out ++ more)
Writes-append contract key v out more (before, after, e) = (
  before,
  after ++ more,
  ap (λ t. t ++ more) e
      ∙ append_assoc before (storage_entry contract key (encode_u64 v) ∷ after) more,
)

pub need_inv :
    {A : Type 0} (out : List Change) (o : Option A) {a : A} → need out o ≡ ok a → o ≡ some a
need_inv out none h = absurd (err-ne-ok _ _ h)
need_inv out (some b) h = ap some (ok-injective h)

decode_u64-IsU64 : (b : List ℕ) (v : ℕ) → All IsByte b → decode_u64 b ≡ some v → IsU64 v
unfolding decode_u64
decode_u64-IsU64 b v all h =
    if-elim (λ o. o ≡ some v → IsU64 v) (not (length b == 8)) (λ t. λ e. absurd (none-ne-some v e))
      (λ f. λ e. subst IsU64 (some-eq e) (read_u64_le-IsU64 b (ground arith) all)) h

pub read_u64_at-IsU64 :
    (b : List ℕ) (off v : ℕ) → All IsByte b → read_u64_at b off ≡ some v → IsU64 v
unfolding read_u64_at
read_u64_at-IsU64 b off v all h =
    if-elim (λ o. o ≡ some v → IsU64 v) (ltb (length b) (off + 8))
      (λ t. λ e. absurd (none-ne-some v e))
      (λ f. λ e.
        decode_u64-IsU64 (take 8 (drop off b)) v (All-take 8 (drop off b) (All-drop off b all)) e)
      h

pub read_storage_u64-IsU64 :
    (get : Storage) (contract : List ℕ) (key : Hash256) (v : ℕ)
    → IsStored get
    → read_storage_u64 get contract key ≡ some v
    → IsU64 v
unfolding read_storage_u64
read_storage_u64-IsU64 get contract key v stored h = by_cases (get contract key) refl h
  where
    by_cases :
        (o : Option (List ℕ))
        → get contract key ≡ o
        → elim o [ none ↦ some 0 | some b ↦ decode_u64 b ] ≡ some v
        → IsU64 v
    by_cases none e r = subst IsU64 (some-eq r) (omega arith)
    by_cases (some b) e r = decode_u64-IsU64 b v (stored contract key b e) r

-- The two balances as they are read, and the changes to them.
pub record Moved (sha256 : List ℕ → Hash256) (get : Storage) (token : List ℕ) (from to : Hash256)
    (amt : ℕ) (out out' : List Change) : Type 0 where
  pub from_bal : ℕ
  pub to_bal : ℕ
  pub from_read : read_storage_u64 get token (Key.rand20_balance sha256 from) ≡ some from_bal
  pub to_read : read_storage_u64 get token (Key.rand20_balance sha256 to) ≡ some to_bal
  pub some_amount : 0 < amt
  pub covered : amt ≤ from_bal
  pub in_range : IsU64 (to_bal + amt)
  pub changes :
      out'
      ≡ out
        ++ (storage_entry token (Key.rand20_balance sha256 from) (encode_u64 (from_bal - amt))
            ∷ storage_entry token (Key.rand20_balance sha256 to) (encode_u64 (to_bal + amt))
            ∷ [])

-- A transfer that succeeds, of a 64-bit amount on a storage of bytes, is such a move: the amount is
-- above 0 and the sender has it, the receiver's balance does not wrap, and the two balances are
-- all that changes.
pub token_transfer-Moved :
    (sha256 : List ℕ → Hash256) (get : Storage) (token : List ℕ) (from to : Hash256) (amt : ℕ)
    (out out' : List Change)
    → IsStored get
    → IsU64 amt
    → token_transfer sha256 get token from to amt out ≡ ok out'
    → Moved sha256 get token from to amt out out'
unfolding token_transfer
token_transfer-Moved sha256 get token from to amt out out' stored fits h =
    let (zero_test, h1) = fail_if_inv (amt == 0) (refused out) _ h in
    let (from_bal, from_need, h2) =
      bind_inv (need out (read_storage_u64 get token (Key.rand20_balance sha256 from))) _ h1 in
    let (cover_test, h3) = fail_if_inv (ltb from_bal amt) (refused out) _ h2 in
    let (to_bal, to_need, h4) =
      bind_inv (need out (read_storage_u64 get token (Key.rand20_balance sha256 to))) _ h3 in
    let (wrap_test, h5) = fail_if_inv (ltb ((to_bal + amt) % 2 ^ 64) to_bal) (refused out) _ h4 in
    let to_read = need_inv out _ to_need in
    let to_fits = read_storage_u64-IsU64 get token _ to_bal stored to_read in
    let no_wrap : (to_bal + amt) % 2 ^ 64 ≡ to_bal + amt = ground arith in
    record {
      from_bal = from_bal;
      to_bal = to_bal;
      from_read = need_inv out _ from_need;
      to_read = to_read;
      some_amount = ground arith;
      covered = ground arith;
      in_range = ground arith;
      changes =
          sym (ok-injective h5)
          ∙ ap
              (λ n.
                out
                ++ (storage_entry token (Key.rand20_balance sha256 from)
                      (encode_u64 (from_bal - amt))
                    ∷ storage_entry token (Key.rand20_balance sha256 to) (encode_u64 n)
                    ∷ []))
              no_wrap;
    }

pub record_event_inv :
    (sha256 : List ℕ → Hash256) (contract : List ℕ) (evt_seq : ℕ) (ev : List ℕ)
    (out out' : List Change)
    → record_event sha256 contract evt_seq ev out ≡ ok out'
    → (more : List Change) × (out' ≡ out ++ more)
unfolding record_event
record_event_inv sha256 contract evt_seq ev out out' h =
    let (_, h1) = fail_if_inv (ltb ((evt_seq + 1) % 2 ^ 64) evt_seq) (refused out) _ h in
    (_, sym (ok-injective h1))

-- The number of the event and the event itself, where the number does not wrap.
pub record_event-Recorded :
    (sha256 : List ℕ → Hash256) (contract : List ℕ) (evt_seq : ℕ) (ev : List ℕ)
    (out out' : List Change)
    → record_event sha256 contract evt_seq ev out ≡ ok out'
    → (evt_seq ≤ (evt_seq + 1) % 2 ^ 64)
      × (out'
          ≡ out
            ++ (storage_entry contract (Key.evt_seq sha256) (encode_u64 ((evt_seq + 1) % 2 ^ 64))
                ∷ storage_entry contract (Key.evt_n sha256 ((evt_seq + 1) % 2 ^ 64)) ev
                ∷ []))
unfolding record_event
record_event-Recorded sha256 contract evt_seq ev out out' h =
    let (in_order, h1) = fail_if_inv (ltb ((evt_seq + 1) % 2 ^ 64) evt_seq) (refused out) _ h in
    (not_lt→le _ _ in_order, sym (ok-injective h1))
