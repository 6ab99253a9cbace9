-- ===== src/Amm/Swap/Trade.antt =====
-- What a swap that succeeds changes.
use randioum.Base.{
  ◌⊎◌, inl, inr, Bool, true, false, not, ◌==◌, ◌||◌, ◌&&◌, if◌then◌else◌, All, length, ℕ, ◌+◌, ◌-◌,
  ◌*◌, ◌%◌, ◌^◌, ◌≤◌, ◌<◌, ◌≡◌, sym, ap, ◌∙◌, ltb, List, [], ◌∷◌, ◌++◌, arith,
}
use randioum.Codec.Bytes.{IsU64, IsByte}
use randioum.Result.{◌>>=◌, ok, bind_inv, fail_if_inv, ok-injective}
use randioum.Amm.Key
use randioum.Amm.Swap.{swap_out, swap_exact_in, swap_changes}
use randioum.Amm.Swap.Product.{swap_out-product}
use randioum.Amm.Store.{
  need, read_u64_at, Storage, Change, refused, encode_u64, storage_entry, token_transfer,
  record_event,
}
use randioum.Amm.Store.Laws.{
  need_inv, read_u64_at-IsU64, IsStored, Moved, token_transfer-Moved, record_event_inv,
}
use randioum.Amm.Pool.{Pool, refuse, op_event, Call}
use randioum.Amm.Key.{Hash256}

-- The amounts of a swap, what is known of them, and the changes: the two transfers, the reserve that
-- is paid into, the other one, and the event.
pub record Traded (sha256 : List ℕ → Hash256) (get : Storage) (call : Call)
    (token_in token_out : List ℕ) (key_in key_out : Hash256) (rin rout : ℕ) (out : List Change)
    : Type 0 where
  pub amt_in : ℕ
  pub amt_out : ℕ
  pub paid : List Change
  pub moved : List Change
  pub event : List Change
  pub pays :
      Moved sha256 get token_in
        (sha256 call.caller)
        (Key.pool_addr sha256 call.contract)
        amt_in
        []
        paid
  pub receives :
      Moved sha256 get token_out
        (Key.pool_addr sha256 call.contract)
        (sha256 call.caller)
        amt_out
        paid
        moved
  pub in_range : IsU64 (rin + amt_in)
  pub covered : amt_out < rout
  pub product : rin * rout ≤ (rin + amt_in) * (rout - amt_out)
  pub changes :
      out
      ≡ (moved
          ++ (storage_entry call.contract key_in (encode_u64 (rin + amt_in))
              ∷ storage_entry call.contract key_out (encode_u64 (rout - amt_out))
              ∷ []))
        ++ event

-- From the quoted amount on.
swap_changes-Traded :
    (sha256 : List ℕ → Hash256) (get : Storage) (call : Call) (token_in token_out : List ℕ)
    (key_in key_out : Hash256) (rin rout amt_in amt_out : ℕ) (ev : List ℕ) (moved out : List Change)
    → IsStored get
    → IsU64 rin
    → IsU64 rout
    → IsU64 amt_in
    → amt_out < rout
    → rin * rout ≤ (rin + amt_in) * (rout - amt_out)
    → swap_changes sha256 get call token_in token_out key_in key_out rin rout amt_in amt_out
      ≡ ok moved
    → record_event sha256 call.contract call.evt_seq ev moved ≡ ok out
    → Traded sha256 get call token_in token_out key_in key_out rin rout out
unfolding swap_changes
swap_changes-Traded sha256 get call token_in token_out key_in key_out rin rout amt_in amt_out ev
      moved out stored rin_fits rout_fits in_fits covered product h recorded =
    let caller_addr = sha256 call.caller in
    let pool_addr = Key.pool_addr sha256 call.contract in
    let (paid, pay, h1) =
      bind_inv (token_transfer sha256 get token_in caller_addr pool_addr amt_in []) _ h in
    let (both, receive, h2) =
      bind_inv (token_transfer sha256 get token_out pool_addr caller_addr amt_out paid) _ h1 in
    let (wrap_test, h3) = fail_if_inv (ltb ((rin + amt_in) % 2 ^ 64) rin) (refused both) _ h2 in
    let (_, h4) = fail_if_inv (ltb rout amt_out) (refused both) _ h3 in
    let no_wrap : (rin + amt_in) % 2 ^ 64 ≡ rin + amt_in = ground arith in
    let (event, added) = record_event_inv sha256 call.contract call.evt_seq ev moved out recorded in
    record {
      amt_in = amt_in;
      amt_out = amt_out;
      paid = paid;
      moved = both;
      event = event;
      pays = token_transfer-Moved sha256 get token_in _ _ amt_in [] paid stored in_fits pay;
      receives =
          token_transfer-Moved sha256 get token_out _ _ amt_out paid both stored
            (omega (arith, covered, rout_fits)) receive;
      in_range = ground arith;
      covered = covered;
      product = product;
      changes =
          added
          ∙ ap (λ t. t ++ event) (sym (ok-injective h4))
          ∙ ap
              (λ n.
                (both
                  ++ (storage_entry call.contract key_in (encode_u64 n)
                      ∷ storage_entry call.contract key_out (encode_u64 (rout - amt_out))
                      ∷ []))
                ++ event)
              no_wrap;
    }

-- A swap that succeeds, on reserves of 64 bits and a storage and input of bytes, is a trade of the
-- first token for the second or the other way round: the caller pays one to the pool and gets the
-- other, and the two reserves are written with the same amounts. Neither wraps or runs out, and
-- their product does not fall.
pub swap_exact_in-Traded :
    (sha256 : List ℕ → Hash256) (get : Storage) (call : Call) (pool : Pool) (out : List Change)
    → IsStored get
    → All IsByte call.input
    → IsU64 pool.r0
    → IsU64 pool.r1
    → swap_exact_in sha256 get call pool ≡ ok out
    → Traded sha256 get call pool.token0_hex pool.token1_hex
        (Key.r0 sha256)
        (Key.r1 sha256)
        pool.r0
        pool.r1
        out
      ⊎ Traded sha256 get call pool.token1_hex pool.token0_hex
          (Key.r1 sha256)
          (Key.r0 sha256)
          pool.r1
          pool.r0
          out
unfolding swap_exact_in
swap_exact_in-Traded sha256 get call pool out stored bytes fits0 fits1 h =
    let (_, h1) = fail_if_inv (not (length call.input == 25)) refuse _ h in
    let (_, h2) =
      fail_if_inv (pool.r0 == 0 || pool.r1 == 0 || ltb 10000 pool.fee_bps) refuse _ h1 in
    let (dir, _, h3) = bind_inv (need [] (read_u64_at call.input 1)) _ h2 in
    let (amt_in, in_read, h4) = bind_inv (need [] (read_u64_at call.input 9)) _ h3 in
    let (min_out, _, h5) = bind_inv (need [] (read_u64_at call.input 17)) _ h4 in
    let (_, h6) = fail_if_inv (amt_in == 0 || (not (dir == 0) && not (dir == 1))) refuse _ h5 in
    let in_fits = read_u64_at-IsU64 call.input 9 amt_in bytes (need_inv [] _ in_read) in
    by_direction dir amt_in min_out in_fits (dir == 0) h6
  where
    by_direction :
        (dir amt_in min_out : ℕ)
        → IsU64 amt_in
        → (zero_to_one : Bool)
        → (swap_out pool.fee_bps amt_in min_out
              (if zero_to_one then pool.r0 else pool.r1)
              (if zero_to_one then pool.r1 else pool.r0)
            >>= (λ amt_out.
                (if zero_to_one
                  then swap_changes sha256 get call pool.token0_hex pool.token1_hex
                      (Key.r0 sha256)
                      (Key.r1 sha256)
                      (if zero_to_one then pool.r0 else pool.r1)
                      (if zero_to_one then pool.r1 else pool.r0)
                      amt_in
                      amt_out
                  else swap_changes sha256 get call pool.token1_hex pool.token0_hex
                      (Key.r1 sha256)
                      (Key.r0 sha256)
                      (if zero_to_one then pool.r0 else pool.r1)
                      (if zero_to_one then pool.r1 else pool.r0)
                      amt_in
                      amt_out)
                >>= (λ moved.
                    record_event sha256 call.contract call.evt_seq
                      (op_event sha256 4 call dir amt_in amt_out)
                      moved)))
          ≡ ok out
        → Traded sha256 get call pool.token0_hex pool.token1_hex
            (Key.r0 sha256)
            (Key.r1 sha256)
            pool.r0
            pool.r1
            out
          ⊎ Traded sha256 get call pool.token1_hex pool.token0_hex
              (Key.r1 sha256)
              (Key.r0 sha256)
              pool.r1
              pool.r0
              out
    by_direction dir amt_in min_out in_fits true k =
        let (amt_out, quote, k1) =
          bind_inv (swap_out pool.fee_bps amt_in min_out pool.r0 pool.r1) _ k in
        let (_, covered, product) =
          swap_out-product pool.fee_bps amt_in min_out pool.r0 pool.r1 amt_out quote in
        let (moved, swapped, recorded) =
          bind_inv
            (swap_changes sha256 get call pool.token0_hex pool.token1_hex (Key.r0 sha256)
              (Key.r1 sha256) pool.r0 pool.r1 amt_in amt_out)
            _ k1 in
        inl (
          swap_changes-Traded sha256 get call _ _ _ _ pool.r0 pool.r1 amt_in amt_out _ moved out
            stored fits0 fits1 in_fits covered product swapped recorded)
    by_direction dir amt_in min_out in_fits false k =
        let (amt_out, quote, k1) =
          bind_inv (swap_out pool.fee_bps amt_in min_out pool.r1 pool.r0) _ k in
        let (_, covered, product) =
          swap_out-product pool.fee_bps amt_in min_out pool.r1 pool.r0 amt_out quote in
        let (moved, swapped, recorded) =
          bind_inv
            (swap_changes sha256 get call pool.token1_hex pool.token0_hex (Key.r1 sha256)
              (Key.r0 sha256) pool.r1 pool.r0 amt_in amt_out)
            _ k1 in
        inr (
          swap_changes-Traded sha256 get call _ _ _ _ pool.r1 pool.r0 amt_in amt_out _ moved out
            stored fits1 fits0 in_fits covered product swapped recorded)
