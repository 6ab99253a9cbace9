-- ===== src/Amm/Runs.antt =====
-- Runs of the automated market maker on a small pool, with the identity for the hash function.
use native.Mathlib.Nat.{mul-le-mul}
use randioum.Base.{
  inl, inr, le-or-lt, ℕ, ◌+◌, ◌*◌, ◌≤◌, ◌<◌, ◌≡◌, ◌≢◌, ◌⊎◌, refl, if-elim, if◌then◌else◌, List, [],
  ◌∷◌, ◌++◌, All, replicate, none, some, some-eq, subst, arith,
}
use mathlib.Core.Option.{none-ne-some}
use randioum.Base.Text.{same_bytes, codes, to_hex, hex_digit}
use randioum.Codec.Bytes.{IsByte, IsU64, read_u64_le, append_u64_le}
use randioum.Result.{ok, err}
use randioum.Amm.Key
use randioum.Amm.Key.{Hash256}
use randioum.Amm.Sqrt.{isqrt_u128, isqrt_loop, Root, narrow_root}
use randioum.Amm.Sqrt.Ending.{IsRoot, isqrt_u128_ends, isqrt_u128-IsRoot}
use randioum.Amm.Sqrt.Hanging.{isqrt_u128_hangs}
use randioum.Amm.Store.{
  Storage, Change, hanging, encode_u64, decode_u64, read_u64_at, read_storage_u64,
  read_storage_hash256, storage_entry, token_transfer, record_event,
}
use randioum.Amm.Store.Laws.{IsStored, Moved, token_transfer-Moved}
use randioum.Amm.Pool.{Call, Pool, read_pool}
use randioum.Amm.Liquidity.{share_minted, share_out, remove_liquidity}
use randioum.Amm.Liquidity.Shares.{share_minted-bound}
use randioum.Amm.Liquidity.Withdrawal.{Withdrawn, remove_liquidity-Withdrawn}
use randioum.Amm.Swap.{swap_out, swap_changes, swap_exact_in}
use randioum.Amm.Swap.Trade.{Traded, swap_exact_in-Traded}
use randioum.Amm.Apply.{tokens, amm119_apply}
use randioum.Amm.Hanging.{BadDeposit, amm119_apply_hangs}

isqrt_u128_hangs_example : isqrt_u128 1000 8 ≡ Root.hangs
isqrt_u128_hangs_example = isqrt_u128_hangs 1000 8 3 (omega arith) (omega arith) (omega arith)

isqrt_u128-ten : isqrt_u128 10 10 ≡ Root.root (some 3)
unfolding isqrt_u128 isqrt_loop
isqrt_u128-ten = refl

isqrt_u128-IsRoot_example : IsRoot 10 3 × IsU64 3
isqrt_u128-IsRoot_example = isqrt_u128-IsRoot 10 10 3 (omega arith) isqrt_u128-ten

abbrev digest : List ℕ → Hash256
digest t = t

abbrev caller : List ℕ
caller = codes "alice"

abbrev contract : List ℕ
contract = codes "c0"

abbrev token0 : Hash256
token0 = replicate 32 1

abbrev token1 : Hash256
token1 = replicate 32 2

lookup : List (List ℕ × List ℕ) → Storage
lookup [] c key = none
lookup ((k, v) ∷ entries) c key =
    let rest = lookup entries c key in if same_bytes (c ++ key) k then some v else rest

lookup-IsStored :
    (entries : List (List ℕ × List ℕ))
    → All (λ e. All IsByte e.1) entries
    → IsStored (lookup entries)
unfolding lookup
lookup-IsStored [] all c key v h = absurd (none-ne-some v h)
lookup-IsStored ((k, b) ∷ entries) (first, all) c key v h =
    if-elim (λ o. o ≡ some v → All IsByte v) (same_bytes (c ++ key) k)
      (λ t. λ e. subst (All IsByte) (some-eq e) first)
      (λ f. λ e. lookup-IsStored entries all c key v e) h

-- 1000 of each token, of which 500 pool tokens are given out, all to the caller, who has 100 of
-- the first token.
abbrev entries : List (List ℕ × List ℕ)
entries =
    (contract ++ Key.lp_bal digest caller, 244 ∷ 1 ∷ 0 ∷ 0 ∷ 0 ∷ 0 ∷ 0 ∷ 0 ∷ [])
    ∷ (to_hex token0 ++ Key.rand20_balance digest caller, 100 ∷ 0 ∷ 0 ∷ 0 ∷ 0 ∷ 0 ∷ 0 ∷ 0 ∷ [])
    ∷ (
      to_hex token0 ++ Key.rand20_balance digest (Key.pool_addr digest contract),
      232 ∷ 3 ∷ 0 ∷ 0 ∷ 0 ∷ 0 ∷ 0 ∷ 0 ∷ [],
    )
    ∷ (
      to_hex token1 ++ Key.rand20_balance digest (Key.pool_addr digest contract),
      232 ∷ 3 ∷ 0 ∷ 0 ∷ 0 ∷ 0 ∷ 0 ∷ 0 ∷ [],
    )
    ∷ []

entries-IsStored : IsStored (lookup entries)
entries-IsStored = lookup-IsStored entries (omega arith)

abbrev pool : Pool
pool = record {
  token0_hex = to_hex token0;
  token1_hex = to_hex token1;
  r0 = 1000;
  r1 = 1000;
  lp_supply = 500;
  fee_bps = 30;
}

-- 100 of the first token for at least 1 of the second.
abbrev swap_call : Call
swap_call = record {
  caller = caller;
  contract = contract;
  input =
      4 ∷ (0 ∷ 0 ∷ 0 ∷ 0 ∷ 0 ∷ 0 ∷ 0 ∷ 0 ∷ [])
      ++ (100 ∷ 0 ∷ 0 ∷ 0 ∷ 0 ∷ 0 ∷ 0 ∷ 0 ∷ [])
      ++ (1 ∷ 0 ∷ 0 ∷ 0 ∷ 0 ∷ 0 ∷ 0 ∷ 0 ∷ []);
  evt_seq = 6;
}

swap_out-run : swap_out 30 100 1 1000 1000 ≡ ok 90
unfolding swap_out
swap_out-run = refl

abbrev pool_addr : Hash256
pool_addr = Key.pool_addr digest contract

abbrev swapped : List Change
swapped =
    (storage_entry (to_hex token0) (Key.rand20_balance digest caller) (encode_u64 0)
      ∷ storage_entry (to_hex token0) (Key.rand20_balance digest pool_addr) (encode_u64 1100)
      ∷ storage_entry (to_hex token1) (Key.rand20_balance digest pool_addr) (encode_u64 910)
      ∷ storage_entry (to_hex token1) (Key.rand20_balance digest caller) (encode_u64 90)
      ∷ storage_entry contract (Key.r0 digest) (encode_u64 1100)
      ∷ storage_entry contract (Key.r1 digest) (encode_u64 910)
      ∷ storage_entry contract (Key.evt_seq digest) (encode_u64 7)
      ∷ storage_entry contract (Key.evt_n digest 7)
          ((4 ∷ []) ++ digest caller ++ encode_u64 0 ++ encode_u64 100 ++ encode_u64 90)
      ∷ [])

swap_exact_in-run : swap_exact_in digest (lookup entries) swap_call pool ≡ ok swapped
unfolding swap_exact_in swap_out swap_changes token_transfer record_event read_u64_at decode_u64
    encode_u64 read_storage_u64 lookup same_bytes to_hex hex_digit read_u64_le append_u64_le
swap_exact_in-run = refl

swap_exact_in-Traded_example :
    Traded digest
      (lookup entries)
      swap_call
      (to_hex token0)
      (to_hex token1)
      (Key.r0 digest)
      (Key.r1 digest)
      1000
      1000
      swapped
    ⊎ Traded digest
        (lookup entries)
        swap_call
        (to_hex token1)
        (to_hex token0)
        (Key.r1 digest)
        (Key.r0 digest)
        1000
        1000
        swapped
swap_exact_in-Traded_example =
    swap_exact_in-Traded digest (lookup entries) swap_call pool swapped entries-IsStored
      (omega arith) (omega arith) (omega arith) swap_exact_in-run

abbrev paid : List Change
paid =
    (storage_entry (to_hex token0) (Key.rand20_balance digest caller) (encode_u64 40)
      ∷ storage_entry (to_hex token0) (Key.rand20_balance digest pool_addr) (encode_u64 1060)
      ∷ [])

token_transfer-run :
    token_transfer digest (lookup entries) (to_hex token0) caller pool_addr 60 [] ≡ ok paid
unfolding token_transfer decode_u64 encode_u64 read_storage_u64 lookup same_bytes to_hex hex_digit
    read_u64_le append_u64_le
token_transfer-run = refl

token_transfer-Moved_example :
    Moved digest (lookup entries) (to_hex token0) caller pool_addr 60 [] paid
token_transfer-Moved_example =
    token_transfer-Moved digest (lookup entries) (to_hex token0) caller pool_addr 60 [] paid
      entries-IsStored (omega arith) token_transfer-run

share_minted-run : share_minted pool 100 50 ≡ ok 25
unfolding share_minted
share_minted-run = refl

share_minted-bound_example : (25 * 1000 ≤ 100 * 500) × (25 * 1000 ≤ 50 * 500) × (0 < 25) × IsU64 25
share_minted-bound_example = share_minted-bound pool 100 50 25 share_minted-run

-- 100 pool tokens back, for 200 of each token.
abbrev remove_call : Call
remove_call = record {
  caller = caller;
  contract = contract;
  input =
      3 ∷ (100 ∷ 0 ∷ 0 ∷ 0 ∷ 0 ∷ 0 ∷ 0 ∷ 0 ∷ [])
      ++ (1 ∷ 0 ∷ 0 ∷ 0 ∷ 0 ∷ 0 ∷ 0 ∷ 0 ∷ [])
      ++ (1 ∷ 0 ∷ 0 ∷ 0 ∷ 0 ∷ 0 ∷ 0 ∷ 0 ∷ []);
  evt_seq = 6;
}

abbrev removed : List Change
removed =
    (storage_entry (to_hex token0) (Key.rand20_balance digest pool_addr) (encode_u64 800)
      ∷ storage_entry (to_hex token0) (Key.rand20_balance digest caller) (encode_u64 300)
      ∷ storage_entry (to_hex token1) (Key.rand20_balance digest pool_addr) (encode_u64 800)
      ∷ storage_entry (to_hex token1) (Key.rand20_balance digest caller) (encode_u64 200)
      ∷ storage_entry contract (Key.r0 digest) (encode_u64 800)
      ∷ storage_entry contract (Key.r1 digest) (encode_u64 800)
      ∷ storage_entry contract (Key.lp_supply digest) (encode_u64 400)
      ∷ storage_entry contract (Key.lp_bal digest caller) (encode_u64 400)
      ∷ storage_entry contract (Key.evt_seq digest) (encode_u64 7)
      ∷ storage_entry contract (Key.evt_n digest 7)
          ((3 ∷ []) ++ digest caller ++ encode_u64 100 ++ encode_u64 200 ++ encode_u64 200)
      ∷ [])

remove_liquidity-run : remove_liquidity digest (lookup entries) remove_call pool ≡ ok removed
unfolding remove_liquidity share_out token_transfer record_event read_u64_at decode_u64 encode_u64
    read_storage_u64 lookup same_bytes to_hex hex_digit read_u64_le append_u64_le
remove_liquidity-run = refl

remove_liquidity-Withdrawn_example : Withdrawn digest (lookup entries) remove_call pool removed
remove_liquidity-Withdrawn_example =
    remove_liquidity-Withdrawn digest (lookup entries) remove_call pool removed entries-IsStored
      remove_liquidity-run

not_square : (n : ℕ) → 2 ≤ n → n * n ≢ 10 + 1
not_square n two = elim (le-or-lt n 3) [
  | inl le ↦ omega (arith, mul-le-mul {n₁ = n} {m₁ = n} {n₂ = 3} {m₂ = 3} le le)
  | inr lt ↦ omega (arith, mul-le-mul {n₁ = 4} {m₁ = 4} {n₂ = n} {m₂ = n} lt lt)
]

isqrt_u128_ends_example : (s : ℕ) × IsRoot 10 s × (isqrt_u128 12 10 ≡ narrow_root (some s))
isqrt_u128_ends_example = isqrt_u128_ends 12 10 (omega arith) not_square (omega arith)

-- A pool that was just created, by the entries of its tokens.
abbrev fresh : List (List ℕ × List ℕ)
fresh = (contract ++ Key.token0 digest, token0) ∷ (contract ++ Key.token1 digest, token1) ∷ []

abbrev fresh_pool : Pool
fresh_pool = record {
  token0_hex = to_hex token0;
  token1_hex = to_hex token1;
  r0 = 0;
  r1 = 0;
  lp_supply = 0;
  fee_bps = 0;
}

-- A deposit of 1 and 3.
abbrev deposit : List ℕ
deposit =
    2 ∷ (1 ∷ 0 ∷ 0 ∷ 0 ∷ 0 ∷ 0 ∷ 0 ∷ 0 ∷ [])
    ++ (3 ∷ 0 ∷ 0 ∷ 0 ∷ 0 ∷ 0 ∷ 0 ∷ 0 ∷ [])
    ++ (0 ∷ 0 ∷ 0 ∷ 0 ∷ 0 ∷ 0 ∷ 0 ∷ 0 ∷ [])

deposit-BadDeposit : BadDeposit deposit 2
unfolding read_u64_at decode_u64 read_u64_le
deposit-BadDeposit = record {
  amt0 = 1;
  amt1 = 3;
  min_lp = 0;
  size = refl;
  op = refl;
  first = refl;
  second = refl;
  third = refl;
  some0 = omega arith;
  some1 = omega arith;
  above = omega arith;
  square = refl;
  fits = omega arith;
}

fresh-seq : read_storage_u64 (lookup fresh) contract (Key.evt_seq digest) ≡ some 0
unfolding read_storage_u64 lookup same_bytes
fresh-seq = refl

fresh-tokens : tokens digest (lookup fresh) contract ≡ some (token0, token1)
unfolding tokens read_storage_hash256 lookup same_bytes
fresh-tokens = refl

fresh-pool : read_pool digest (lookup fresh) contract token0 token1 ≡ ok fresh_pool
unfolding read_pool read_storage_u64 lookup same_bytes
fresh-pool = refl

amm119_apply_hangs_example :
    amm119_apply 1000 digest (lookup fresh) caller contract deposit ≡ err hanging
amm119_apply_hangs_example =
    amm119_apply_hangs 1000 digest (lookup fresh) caller contract deposit 0 token0 token1 fresh_pool
      2 fresh-seq fresh-tokens fresh-pool refl deposit-BadDeposit
