-- ===== src/Amm/Liquidity/Withdrawal.antt =====
-- What a withdrawal that succeeds changes.
use randioum.Base.{
  ◌<◌, ◌⊎◌, inl, inr, le-or-lt, arith, not_lt→le, neither, ℕ, ◌+◌, ◌-◌, ◌*◌, ◌%◌, ◌^◌, ◌≤◌, ◌≡◌,
  ltb, not, ◌==◌, ◌||◌, List, [], ◌∷◌, ◌++◌, length, some,
}
use randioum.Result.{ok, bind_inv, fail_if_inv}
use randioum.Amm.Key
use randioum.Amm.Key.{Hash256}
use randioum.Amm.Store.{
  Storage, Change, need, read_u64_at, read_storage_u64, encode_u64, storage_entry, token_transfer,
}
use randioum.Amm.Store.Laws.{
  IsStored, Moved, token_transfer-Moved, need_inv, record_event-Recorded, read_storage_u64-IsU64,
}
use randioum.Amm.Pool.{Call, Pool, refuse, op_event}
use randioum.Amm.Liquidity.{share_out, remove_liquidity}
use randioum.Amm.Liquidity.Shares.{share_out-bound}

-- The amounts of a withdrawal, what is known of them, and the changes.
pub record Withdrawn (sha256 : List ℕ → Hash256) (get : Storage) (call : Call) (pool : Pool)
    (out : List Change) : Type 0 where
  pub lp_amt : ℕ
  pub user_lp : ℕ
  pub out0 : ℕ
  pub out1 : ℕ
  pub first : List Change
  pub moved : List Change
  pub supply : ℕ
  pub user_read : read_storage_u64 get call.contract (Key.lp_bal sha256 call.caller) ≡ some user_lp
  pub held : lp_amt ≤ user_lp
  pub receives0 :
      Moved sha256 get pool.token0_hex
        (Key.pool_addr sha256 call.contract)
        (sha256 call.caller)
        out0
        []
        first
  pub receives1 :
      Moved sha256 get pool.token1_hex
        (Key.pool_addr sha256 call.contract)
        (sha256 call.caller)
        out1
        first
        moved
  pub share0 : out0 * pool.lp_supply ≤ lp_amt * pool.r0
  pub share1 : out1 * pool.lp_supply ≤ lp_amt * pool.r1
  pub covered0 : out0 ≤ pool.r0
  pub covered1 : out1 ≤ pool.r1
  pub supply_left :
      ((lp_amt ≤ pool.lp_supply) × (supply ≡ (pool.lp_supply - lp_amt) % 2 ^ 64))
      ⊎ ((pool.lp_supply < lp_amt) × (supply ≡ 2 ^ 64 - (lp_amt - pool.lp_supply)))
  pub event_in_order : call.evt_seq ≤ (call.evt_seq + 1) % 2 ^ 64
  pub changes :
      out
      ≡ (moved
          ++ (storage_entry call.contract (Key.r0 sha256) (encode_u64 (pool.r0 - out0))
              ∷ storage_entry call.contract (Key.r1 sha256) (encode_u64 (pool.r1 - out1))
              ∷ storage_entry call.contract (Key.lp_supply sha256) (encode_u64 supply)
              ∷ storage_entry call.contract
                  (Key.lp_bal sha256 call.caller)
                  (encode_u64 (user_lp - lp_amt))
              ∷ []))
        ++ (storage_entry call.contract
              (Key.evt_seq sha256)
              (encode_u64 ((call.evt_seq + 1) % 2 ^ 64))
            ∷ storage_entry call.contract
                (Key.evt_n sha256 ((call.evt_seq + 1) % 2 ^ 64))
                (op_event sha256 3 call lp_amt out0 out1)
            ∷ [])

-- What is left of a supply, which may be less than the amount that is taken away.
supply_left_lem :
    (lp_supply lp_amt user_lp : ℕ)
    → lp_amt ≤ user_lp
    → user_lp < 2 ^ 64
    → ((lp_amt ≤ lp_supply)
        × ((lp_supply + 2 ^ 64 - lp_amt) % 2 ^ 64 ≡ (lp_supply - lp_amt) % 2 ^ 64))
      ⊎ ((lp_supply < lp_amt)
          × ((lp_supply + 2 ^ 64 - lp_amt) % 2 ^ 64 ≡ 2 ^ 64 - (lp_amt - lp_supply)))
supply_left_lem lp_supply lp_amt user_lp held fits = elim (le-or-lt lp_amt lp_supply) [
  | inl le ↦ inl (le, omega (arith, le, held, fits))
  | inr lt ↦ inr (lt, omega (arith, lt, held, fits))
]

-- A withdrawal that succeeds, on a storage of bytes, is of that form: the caller has the tokens
-- that it gives back, is paid no more than their share of each reserve and no more than there is;
-- the reserves and the caller's holding are written less these amounts, the supply less the tokens
-- modulo 2 ^ 64, so that it wraps when they are more than the supply; and one event with the three
-- amounts is recorded under the next number, which has not wrapped.
pub remove_liquidity-Withdrawn :
    (sha256 : List ℕ → Hash256) (get : Storage) (call : Call) (pool : Pool) (out : List Change)
    → IsStored get
    → remove_liquidity sha256 get call pool ≡ ok out
    → Withdrawn sha256 get call pool out
unfolding remove_liquidity
remove_liquidity-Withdrawn sha256 get call pool out stored h =
    let (_, h1) = fail_if_inv (not (length call.input == 25)) refuse _ h in
    let (_, h2) = fail_if_inv (pool.lp_supply == 0 || pool.r0 == 0 || pool.r1 == 0) refuse _ h1 in
    let (lp_amt, _, h3) = bind_inv (need [] (read_u64_at call.input 1)) _ h2 in
    let (min0, _, h4) = bind_inv (need [] (read_u64_at call.input 9)) _ h3 in
    let (min1, _, h5) = bind_inv (need [] (read_u64_at call.input 17)) _ h4 in
    let (_, h6) = fail_if_inv (lp_amt == 0) refuse _ h5 in
    let user = read_storage_u64 get call.contract (Key.lp_bal sha256 call.caller) in
    let (user_lp, user_need, h7) = bind_inv (need [] user) _ h6 in
    let (held_test, h8) = fail_if_inv (ltb user_lp lp_amt) refuse _ h7 in
    let (out0, quote0, h9) = bind_inv (share_out lp_amt pool.r0 pool.lp_supply) _ h8 in
    let (out1, quote1, h10) = bind_inv (share_out lp_amt pool.r1 pool.lp_supply) _ h9 in
    let (_, h11) = fail_if_inv (ltb out0 min0 || ltb out1 min1) refuse _ h10 in
    let (cover_test, h12) = fail_if_inv (ltb pool.r0 out0 || ltb pool.r1 out1) refuse _ h11 in
    let caller_addr = sha256 call.caller in
    let pool_addr = Key.pool_addr sha256 call.contract in
    let (first, pay0, h13) =
      bind_inv (token_transfer sha256 get pool.token0_hex pool_addr caller_addr out0 []) _ h12 in
    let (moved, pay1, h14) =
      bind_inv (token_transfer sha256 get pool.token1_hex pool_addr caller_addr out1 first) _ h13 in
    let (in_order, added) =
      record_event-Recorded sha256 call.contract call.evt_seq
        (op_event sha256 3 call lp_amt out0 out1) _ out h14 in
    let (share0, _, fits0) = share_out-bound lp_amt pool.r0 pool.lp_supply out0 quote0 in
    let (share1, _, fits1) = share_out-bound lp_amt pool.r1 pool.lp_supply out1 quote1 in
    let (cover0, cover1) = neither (ltb pool.r0 out0) (ltb pool.r1 out1) cover_test in
    let user_read = need_inv [] _ user_need in
    let held = not_lt→le user_lp lp_amt held_test in
    let user_fits =
      read_storage_u64-IsU64 get call.contract (Key.lp_bal sha256 call.caller) user_lp stored
        user_read in
    record {
      lp_amt = lp_amt;
      user_lp = user_lp;
      out0 = out0;
      out1 = out1;
      first = first;
      moved = moved;
      supply = (pool.lp_supply + 2 ^ 64 - lp_amt) % 2 ^ 64;
      user_read = user_read;
      held = held;
      receives0 =
          token_transfer-Moved sha256 get pool.token0_hex _ _ out0 [] first stored fits0 pay0;
      receives1 =
          token_transfer-Moved sha256 get pool.token1_hex _ _ out1 first moved stored fits1 pay1;
      share0 = share0;
      share1 = share1;
      covered0 = not_lt→le pool.r0 out0 cover0;
      covered1 = not_lt→le pool.r1 out1 cover1;
      supply_left = supply_left_lem pool.lp_supply lp_amt user_lp held user_fits;
      event_in_order = in_order;
      changes = added;
    }
