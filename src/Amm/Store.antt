-- ===== src/Amm/Store.antt =====
-- What src/module119_amm_apply.cpp reads and writes: 64-bit integers and addresses in byte
-- vectors, the storage of contracts, and the list of changes that an operation makes.
-- A contract is known by the bytes of its hexadecimal name, and `GlobalState::get_contract_storage`
-- is a function from the contract and the key; the module reads the state by it alone, and changes
-- nothing but the list. `crypto::sha256` is a parameter.
pub mod Laws
use randioum.Base.{
  ℕ, ◌+◌, ◌-◌, ◌%◌, ◌^◌, not, ltb, ◌==◌, if◌then◌else◌, List, [], ◌∷◌, ◌++◌, length, take, drop,
  Option, none, some,
}
use randioum.Base.Text.{codes, to_hex}
use randioum.Amm.Key
use randioum.Amm.Key.{Hash256}
use randioum.Codec.Bytes.{read_u64_le, append_u64_le}
use randioum.Result.{Result, ok, err, ◌>>=◌, ◌>>◌, fail_if}

unfoldable pub decode_u64 : List ℕ → Option ℕ
decode_u64 b = if not (length b == 8) then none else some (read_u64_le b 0)

unfoldable pub encode_u64 : ℕ → List ℕ
encode_u64 v = append_u64_le [] v

unfoldable pub read_u64_at : List ℕ → ℕ → Option ℕ
read_u64_at b off = if ltb (length b) (off + 8) then none else decode_u64 (take 8 (drop off b))

unfoldable pub read_addr32_at : List ℕ → ℕ → Option Hash256
read_addr32_at b off = if ltb (length b) (off + 32) then none else some (take 32 (drop off b))

abbrev pub Storage : Type 0
Storage = List ℕ → Hash256 → Option (List ℕ)

-- An absent entry reads as 0, and one that has not 8 bytes fails.
unfoldable pub read_storage_u64 : Storage → List ℕ → Hash256 → Option ℕ
read_storage_u64 get contract key = elim (get contract key) [
  | none ↦ some 0
  | some v ↦ decode_u64 v
]

unfoldable pub read_storage_hash256 : Storage → List ℕ → Hash256 → Option Hash256
read_storage_hash256 get contract key = elim (get contract key) [
  | none ↦ none
  | some v ↦ if not (length v == 32) then none else some v
]

-- `contract_hex + ":" + to_hex(key)`, and the new value.
pub record Change : Type 0 where
  pub entry : List ℕ
  pub value : Option (List ℕ)

unfoldable pub storage_entry : List ℕ → Hash256 → List ℕ → Change
storage_entry contract key val = record {
  entry = contract ++ codes ":" ++ to_hex key;
  value = some val;
}

-- The calls that do not return `true`: those that return `false`, with the changes made up to
-- there, and those that do not return.
pub data Stop : Type 0 where
  refused : List Change → Stop
  hanging : Stop

-- `if (!o) return false;`
abbrev pub need : {A : Type 0} → List Change → Option A → Result Stop A
need out none = err (refused out)
need out (some a) = ok a

-- `token_transfer_`: both balances are read from the state before the call.
unfoldable pub token_transfer :
    (List ℕ → Hash256)
    → Storage
    → List ℕ
    → Hash256
    → Hash256
    → ℕ
    → List Change
    → Result Stop (List Change)
token_transfer sha256 get token from to amt out = do
  fail_if (amt == 0) (refused out)
  from_bal ← need out (read_storage_u64 get token (Key.rand20_balance sha256 from))
  fail_if (ltb from_bal amt) (refused out)
  to_bal ← need out (read_storage_u64 get token (Key.rand20_balance sha256 to))
  let next_to = (to_bal + amt) % 2 ^ 64
  fail_if (ltb next_to to_bal) (refused out)
  ok (
      out
      ++ (storage_entry token (Key.rand20_balance sha256 from) (encode_u64 (from_bal - amt))
          ∷ storage_entry token (Key.rand20_balance sha256 to) (encode_u64 next_to)
          ∷ []))

-- `next_evt` and `emit_evt`.
unfoldable pub record_event :
    (List ℕ → Hash256) → List ℕ → ℕ → List ℕ → List Change → Result Stop (List Change)
record_event sha256 contract evt_seq ev out = do
  let next = (evt_seq + 1) % 2 ^ 64
  fail_if (ltb next evt_seq) (refused out)
  ok (
      out
      ++ (storage_entry contract (Key.evt_seq sha256) (encode_u64 next)
          ∷ storage_entry contract (Key.evt_n sha256 next) ev
          ∷ []))
