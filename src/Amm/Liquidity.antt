-- ===== src/Amm/Liquidity.antt =====
-- The operations `AddLiquidity` and `RemoveLiquidity` of `amm119_apply` in
-- src/module119_amm_apply.cpp. The products and sums that the source computes with 128 bits are
-- those of 64-bit numbers, and do not wrap there.
pub mod Shares
pub mod Withdrawal
use randioum.Base.{
  ℕ, ◌+◌, ◌-◌, ◌*◌, ◌/◌, ◌%◌, ◌^◌, not, ◌||◌, ltb, ◌==◌, if◌then◌else◌, List, [], ◌∷◌, ◌++◌, length,
  none, some,
}
use randioum.Result.{Result, ok, err, ◌>>=◌, ◌>>◌, fail_if}
use randioum.Amm.Key
use randioum.Amm.Key.{Hash256}
use randioum.Amm.Sqrt.{isqrt_u128, Root}
use randioum.Amm.Store.{
  Storage, Change, Stop, refused, hanging, need, encode_u64, read_u64_at, read_storage_u64,
  storage_entry, token_transfer, record_event,
}
use randioum.Amm.Pool.{Call, Pool, refuse, op_event}

abbrev pub first_minted : Root → Result Stop ℕ
first_minted Root.hangs = err hanging
first_minted (Root.root none) = err refuse
first_minted (Root.root (some s)) = if s == 0 then err refuse else ok s

-- The tokens minted for a deposit into a pool that has some.
unfoldable pub share_minted : Pool → ℕ → ℕ → Result Stop ℕ
share_minted pool amt0 amt1 = do
  fail_if (pool.r0 == 0 || pool.r1 == 0) refuse
  let a = amt0 * pool.lp_supply / pool.r0
  let b = amt1 * pool.lp_supply / pool.r1
  let m = if ltb a b then a else b
  fail_if (m == 0 || ltb (2 ^ 64 - 1) m) refuse
  ok m

unfoldable pub lp_minted : ℕ → Pool → ℕ → ℕ → Result Stop ℕ
lp_minted rounds pool amt0 amt1 =
    if pool.lp_supply == 0
    then first_minted (isqrt_u128 rounds (amt0 * amt1))
    else share_minted pool amt0 amt1

-- The sums are tested for wrapping only behind the transfers.
unfoldable pub add_liquidity :
    ℕ → (List ℕ → Hash256) → Storage → Call → Pool → Result Stop (List Change)
add_liquidity rounds sha256 get call pool = do
  fail_if (not (length call.input == 25)) refuse
  amt0 ← need [] (read_u64_at call.input 1)
  amt1 ← need [] (read_u64_at call.input 9)
  min_lp ← need [] (read_u64_at call.input 17)
  fail_if (amt0 == 0 || amt1 == 0) refuse
  minted ← lp_minted rounds pool amt0 amt1
  fail_if (ltb minted min_lp) refuse
  let caller_addr = sha256 call.caller
  let pool_addr = Key.pool_addr sha256 call.contract
  out0 ← token_transfer sha256 get pool.token0_hex caller_addr pool_addr amt0 []
  out ← token_transfer sha256 get pool.token1_hex caller_addr pool_addr amt1 out0
  let nr0 = (pool.r0 + amt0) % 2 ^ 64
  fail_if (ltb nr0 pool.r0) (refused out)
  let nr1 = (pool.r1 + amt1) % 2 ^ 64
  fail_if (ltb nr1 pool.r1) (refused out)
  let nlp = (pool.lp_supply + minted) % 2 ^ 64
  fail_if (ltb nlp pool.lp_supply) (refused out)
  cur_lp ← need out (read_storage_u64 get call.contract (Key.lp_bal sha256 call.caller))
  let next_lp = (cur_lp + minted) % 2 ^ 64
  fail_if (ltb next_lp cur_lp) (refused out)
  record_event sha256 call.contract call.evt_seq (op_event sha256 2 call amt0 amt1 minted) (
      out
      ++ (storage_entry call.contract (Key.r0 sha256) (encode_u64 nr0)
          ∷ storage_entry call.contract (Key.r1 sha256) (encode_u64 nr1)
          ∷ storage_entry call.contract (Key.lp_supply sha256) (encode_u64 nlp)
          ∷ storage_entry call.contract (Key.lp_bal sha256 call.caller) (encode_u64 next_lp)
          ∷ []))

-- The part of a reserve that belongs to an amount of the pool's tokens.
unfoldable pub share_out : ℕ → ℕ → ℕ → Result Stop ℕ
share_out lp_amt reserve lp_supply = do
  let out_128 = lp_amt * reserve / lp_supply
  fail_if (out_128 == 0 || ltb (2 ^ 64 - 1) out_128) refuse
  ok out_128

unfoldable pub remove_liquidity :
    (List ℕ → Hash256) → Storage → Call → Pool → Result Stop (List Change)
remove_liquidity sha256 get call pool = do
  fail_if (not (length call.input == 25)) refuse
  fail_if (pool.lp_supply == 0 || pool.r0 == 0 || pool.r1 == 0) refuse
  lp_amt ← need [] (read_u64_at call.input 1)
  min0 ← need [] (read_u64_at call.input 9)
  min1 ← need [] (read_u64_at call.input 17)
  fail_if (lp_amt == 0) refuse
  user_lp ← need [] (read_storage_u64 get call.contract (Key.lp_bal sha256 call.caller))
  fail_if (ltb user_lp lp_amt) refuse
  out0 ← share_out lp_amt pool.r0 pool.lp_supply
  out1 ← share_out lp_amt pool.r1 pool.lp_supply
  fail_if (ltb out0 min0 || ltb out1 min1) refuse
  fail_if (ltb pool.r0 out0 || ltb pool.r1 out1) refuse
  let caller_addr = sha256 call.caller
  let pool_addr = Key.pool_addr sha256 call.contract
  moved ← token_transfer sha256 get pool.token0_hex pool_addr caller_addr out0 []
  out ← token_transfer sha256 get pool.token1_hex pool_addr caller_addr out1 moved
  record_event sha256 call.contract call.evt_seq (op_event sha256 3 call lp_amt out0 out1) (
      out
      ++ (storage_entry call.contract (Key.r0 sha256) (encode_u64 (pool.r0 - out0))
          ∷ storage_entry call.contract (Key.r1 sha256) (encode_u64 (pool.r1 - out1))
          ∷ storage_entry call.contract (Key.lp_supply sha256)
              (encode_u64 ((pool.lp_supply + 2 ^ 64 - lp_amt) % 2 ^ 64))
          ∷ storage_entry call.contract (Key.lp_bal sha256 call.caller)
              (encode_u64 (user_lp - lp_amt))
          ∷ []))
