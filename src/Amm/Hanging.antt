-- ===== src/Amm/Hanging.antt =====
-- A first deposit on which `amm119_apply` of src/module119_amm_apply.cpp does not return.
use randioum.Base.{
  ℕ, ◌+◌, ◌*◌, ◌^◌, ◌≤◌, ◌<◌, ◌≡◌, refl, ap, ◌∙◌, false, not, ◌==◌, ◌||◌, ltb, List, [], length,
  some, arith,
}
use randioum.Codec.Bytes.{byte_at}
use randioum.Result.{ok, err, ◌>>=◌, goes_on, bind_ok, bind_err}
use randioum.Amm.Key
use randioum.Amm.Key.{Hash256}
use randioum.Amm.Sqrt.Hanging.{isqrt_u128_hangs}
use randioum.Amm.Store.{Storage, hanging, need, read_u64_at, read_storage_u64}
use randioum.Amm.Pool.{Call, Pool, refuse, read_pool}
use randioum.Amm.Liquidity.{lp_minted, first_minted, add_liquidity}
use randioum.Amm.Apply.{tokens, apply_op, dispatch, pool_op, amm119_apply}

lp_minted_hangs :
    (rounds : ℕ) (pool : Pool) (amt0 amt1 n : ℕ)
    → pool.lp_supply ≡ 0
    → 2 ≤ n
    → n * n ≡ amt0 * amt1 + 1
    → amt0 * amt1 + 1 < 2 ^ 128
    → lp_minted rounds pool amt0 amt1 ≡ err hanging
unfolding lp_minted
lp_minted_hangs rounds pool amt0 amt1 n empty two square fits =
    rw empty (ap first_minted (isqrt_u128_hangs rounds (amt0 * amt1) n two square fits))

-- A deposit of two amounts of which the product precedes the square of 2 or more, into a pool
-- without tokens.
pub record BadDeposit (input : List ℕ) (n : ℕ) : Type 0 where
  pub amt0 : ℕ
  pub amt1 : ℕ
  pub min_lp : ℕ
  pub size : length input ≡ 25
  pub op : byte_at input 0 ≡ 2
  pub first : read_u64_at input 1 ≡ some amt0
  pub second : read_u64_at input 9 ≡ some amt1
  pub third : read_u64_at input 17 ≡ some min_lp
  pub some0 : 0 < amt0
  pub some1 : 0 < amt1
  pub above : 2 ≤ n
  pub square : n * n ≡ amt0 * amt1 + 1
  pub fits : amt0 * amt1 + 1 < 2 ^ 128

add_liquidity_hangs :
    (rounds : ℕ) (sha256 : List ℕ → Hash256) (get : Storage) (call : Call) (pool : Pool) (n : ℕ)
    → pool.lp_supply ≡ 0
    → BadDeposit call.input n
    → add_liquidity rounds sha256 get call pool ≡ err hanging
unfolding add_liquidity
add_liquidity_hangs rounds sha256 get call pool n empty bad =
    goes_on (not (length call.input == 25)) refuse _ (not_eq (length call.input) bad.size)
    ∙ bind_ok (need [] (read_u64_at call.input 1)) _ (ap (need []) bad.first)
    ∙ bind_ok (need [] (read_u64_at call.input 9)) _ (ap (need []) bad.second)
    ∙ bind_ok (need [] (read_u64_at call.input 17)) _ (ap (need []) bad.third)
    ∙ goes_on (bad.amt0 == 0 || bad.amt1 == 0) refuse _
        (nonzero bad.amt0 bad.amt1 bad.some0 bad.some1)
    ∙ bind_err (lp_minted rounds pool bad.amt0 bad.amt1) _
        (lp_minted_hangs rounds pool bad.amt0 bad.amt1 n empty bad.above bad.square bad.fits)
  where
    not_eq : (k : ℕ) → k ≡ 25 → not (k == 25) ≡ false
    not_eq k e = ground arith

    nonzero : (a b : ℕ) → 0 < a → 0 < b → (a == 0 || b == 0) ≡ false
    nonzero a b p q = ground arith

apply_op-pool :
    (rounds : ℕ) (sha256 : List ℕ → Hash256) (get : Storage) (call : Call) (token0 token1 : Hash256)
    → byte_at call.input 0 ≡ 2
    → apply_op rounds sha256 get call (some (token0, token1))
      ≡ (read_pool sha256 get call.contract token0 token1 >>= pool_op rounds sha256 get call 2)
unfolding apply_op dispatch
apply_op-pool rounds sha256 get call token0 token1 op = rw op refl

-- On a contract whose event number and pool can be read and whose pool has no tokens yet, a deposit
-- of two amounts whose product plus 1 is the square of 2 or more, below 2 ^ 128, makes
-- `amm119_apply` run forever: no number of rounds of the square root suffices, whoever calls.
pub amm119_apply_hangs :
    (rounds : ℕ) (sha256 : List ℕ → Hash256) (get : Storage) (caller contract input : List ℕ)
    (seq : ℕ) (token0 token1 : Hash256) (pool : Pool) (n : ℕ)
    → read_storage_u64 get contract (Key.evt_seq sha256) ≡ some seq
    → tokens sha256 get contract ≡ some (token0, token1)
    → read_pool sha256 get contract token0 token1 ≡ ok pool
    → pool.lp_supply ≡ 0
    → BadDeposit input n
    → amm119_apply rounds sha256 get caller contract input ≡ err hanging
unfolding amm119_apply pool_op
amm119_apply_hangs rounds sha256 get caller contract input seq token0 token1 pool n seq_read
      has_tokens has_pool empty bad =
    goes_on (ltb (length input) 1) refuse _ (not_short (length input) bad.size)
    ∙ bind_ok (need [] (read_storage_u64 get contract (Key.evt_seq sha256))) _
        (ap (need []) seq_read)
    ∙ ap (apply_op rounds sha256 get call) has_tokens
    ∙ apply_op-pool rounds sha256 get call token0 token1 bad.op
    ∙ bind_ok (read_pool sha256 get contract token0 token1) _ has_pool
    ∙ add_liquidity_hangs rounds sha256 get call pool n empty bad
  where
    call : Call
    call = record { caller = caller; contract = contract; input = input; evt_seq = seq }

    not_short : (k : ℕ) → k ≡ 25 → ltb k 1 ≡ false
    not_short k e = ground arith
