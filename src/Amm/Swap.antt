-- ===== src/Amm/Swap.antt =====
-- The operation `SwapExactIn` of `amm119_apply` in src/module119_amm_apply.cpp. The products and
-- sums that the source computes with 128 bits are those of 64-bit numbers, and do not wrap there.
pub mod Product
pub mod Trade
use randioum.Base.{
  ℕ, ◌+◌, ◌-◌, ◌*◌, ◌/◌, ◌%◌, ◌^◌, not, ◌&&◌, ◌||◌, ltb, ◌==◌, if◌then◌else◌, List, [], ◌∷◌, ◌++◌,
  length,
}
use randioum.Result.{Result, ok, ◌>>=◌, ◌>>◌, fail_if}
use randioum.Amm.Key
use randioum.Amm.Key.{Hash256}
use randioum.Amm.Store.{
  Storage, Change, Stop, refused, need, encode_u64, read_u64_at, storage_entry, token_transfer,
  record_event,
}
use randioum.Amm.Pool.{Call, Pool, refuse, op_event}

-- The amount that a swap pays out, from the reserves on both sides.
unfoldable pub swap_out : ℕ → ℕ → ℕ → ℕ → ℕ → Result Stop ℕ
swap_out fee_bps amt_in min_out rin rout = do
  let in_af = amt_in * (10000 - fee_bps) / 10000
  fail_if (in_af == 0 || ltb (2 ^ 64 - 1) in_af) refuse
  fail_if (rin + in_af == 0) refuse
  let amt_out = in_af * rout / (rin + in_af)
  fail_if (amt_out == 0 || ltb (2 ^ 64 - 1) amt_out) refuse
  fail_if (ltb amt_out min_out) refuse
  fail_if (not (ltb amt_out rout)) refuse
  ok amt_out

-- The two transfers of a swap, the new reserves, and what is written: first the reserve and token
-- of the side that is paid in.
unfoldable pub swap_changes :
    (List ℕ → Hash256)
    → Storage
    → Call
    → List ℕ
    → List ℕ
    → Hash256
    → Hash256
    → ℕ
    → ℕ
    → ℕ
    → ℕ
    → Result Stop (List Change)
swap_changes sha256 get call token_in token_out key_in key_out rin rout amt_in amt_out = do
  let caller_addr = sha256 call.caller
  let pool_addr = Key.pool_addr sha256 call.contract
  paid ← token_transfer sha256 get token_in caller_addr pool_addr amt_in []
  out ← token_transfer sha256 get token_out pool_addr caller_addr amt_out paid
  let nrin = (rin + amt_in) % 2 ^ 64
  fail_if (ltb nrin rin) (refused out)
  fail_if (ltb rout amt_out) (refused out)
  ok (
      out
      ++ (storage_entry call.contract key_in (encode_u64 nrin)
          ∷ storage_entry call.contract key_out (encode_u64 (rout - amt_out))
          ∷ []))

unfoldable pub swap_exact_in :
    (List ℕ → Hash256) → Storage → Call → Pool → Result Stop (List Change)
swap_exact_in sha256 get call pool = do
  fail_if (not (length call.input == 25)) refuse
  fail_if (pool.r0 == 0 || pool.r1 == 0 || ltb 10000 pool.fee_bps) refuse
  dir ← need [] (read_u64_at call.input 1)
  amt_in ← need [] (read_u64_at call.input 9)
  min_out ← need [] (read_u64_at call.input 17)
  fail_if (amt_in == 0 || (not (dir == 0) && not (dir == 1))) refuse
  let rin = if dir == 0 then pool.r0 else pool.r1
  let rout = if dir == 0 then pool.r1 else pool.r0
  amt_out ← swap_out pool.fee_bps amt_in min_out rin rout
  out ←
      if dir == 0
      then swap_changes sha256 get call pool.token0_hex pool.token1_hex (Key.r0 sha256)
          (Key.r1 sha256) rin rout amt_in amt_out
      else swap_changes sha256 get call pool.token1_hex pool.token0_hex (Key.r1 sha256)
          (Key.r0 sha256) rin rout amt_in amt_out
  record_event sha256 call.contract call.evt_seq (op_event sha256 4 call dir amt_in amt_out) out
