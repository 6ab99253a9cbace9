-- ===== src/Amm/Apply.antt =====
-- `amm119_apply` of src/module119_amm_apply.cpp: what every call reads first, and the operations.
use randioum.Base.{
  ℕ, true, false, ◌||◌, ltb, ◌==◌, if◌then◌else◌, List, [], length, Option, none, some,
}
use randioum.Codec.Bytes.{byte_at}
use randioum.Result.{Result, err, ◌>>=◌, ◌>>◌, fail_if}
use randioum.Amm.Key
use randioum.Amm.Key.{Hash256}
use randioum.Amm.Store.{Storage, Change, Stop, need, read_storage_u64, read_storage_hash256}
use randioum.Amm.Pool.{Call, Pool, refuse, create_pool, read_pool}
use randioum.Amm.Liquidity.{add_liquidity, remove_liquidity}
use randioum.Amm.Swap.{swap_exact_in}

unfoldable pub pool_op :
    ℕ → (List ℕ → Hash256) → Storage → Call → ℕ → Pool → Result Stop (List Change)
pool_op rounds sha256 get call op pool =
    if op == 2
    then add_liquidity rounds sha256 get call pool
    else if op == 3
    then remove_liquidity sha256 get call pool
    else swap_exact_in sha256 get call pool

-- The operation that the first byte stands for, in a pool with its tokens.
unfoldable pub dispatch :
    ℕ → (List ℕ → Hash256) → Storage → Call → Hash256 → Hash256 → Result Stop (List Change)
dispatch rounds sha256 get call token0 token1 =
    let op = byte_at call.input 0 in
    if op == 2 || op == 3 || op == 4
    then read_pool sha256 get call.contract token0 token1 >>= pool_op rounds sha256 get call op
    else err refuse

-- The tokens of a contract that has a pool.
unfoldable pub tokens : (List ℕ → Hash256) → Storage → List ℕ → Option (Hash256 × Hash256)
tokens sha256 get contract = elim (read_storage_hash256 get contract (Key.token0 sha256)) [
  | none ↦ none
  | some token0 ↦ elim (read_storage_hash256 get contract (Key.token1 sha256)) [
    | none ↦ none
    | some token1 ↦ some (token0, token1)
  ]
]

unfoldable pub apply_op :
    ℕ → (List ℕ → Hash256) → Storage → Call → Option (Hash256 × Hash256) → Result Stop (List Change)
apply_op rounds sha256 get call none =
    if byte_at call.input 0 == 1 then create_pool sha256 call false else err refuse
apply_op rounds sha256 get call (some (token0, token1)) =
    if byte_at call.input 0 == 1
    then create_pool sha256 call true
    else dispatch rounds sha256 get call token0 token1

unfoldable pub amm119_apply :
    ℕ → (List ℕ → Hash256) → Storage → List ℕ → List ℕ → List ℕ → Result Stop (List Change)
amm119_apply rounds sha256 get caller contract input = do
  fail_if (ltb (length input) 1) refuse
  evt_seq ← need [] (read_storage_u64 get contract (Key.evt_seq sha256))
  apply_op rounds sha256 get
      (record { caller = caller; contract = contract; input = input; evt_seq = evt_seq })
      (tokens sha256 get contract)
