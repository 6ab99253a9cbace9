-- ===== src/Amm/Pool.antt =====
-- The pool of src/module119_amm_apply.cpp: its state, and the operation `CreatePool` of
-- `amm119_apply`. Until an operation transfers tokens, it has made no change.
use randioum.Base.Text.{same_bytes, to_hex}
use randioum.Base.{ℕ, Bool, not, ltb, ◌==◌, List, [], ◌∷◌, ◌++◌, length}
use randioum.Result.{Result, ok, ◌>>=◌, ◌>>◌, fail_if}
use randioum.Amm.Key
use randioum.Amm.Key.{Hash256}
use randioum.Amm.Store.{
  Storage, Change, Stop, refused, need, encode_u64, read_u64_at, read_addr32_at, read_storage_u64,
  storage_entry, record_event,
}

abbrev pub refuse : Stop
refuse = refused []

-- What every call reads first, and what `CreatePool` needs beside the input.
pub record Call : Type 0 where
  pub caller : List ℕ
  pub contract : List ℕ
  pub input : List ℕ
  pub evt_seq : ℕ

-- The pool, with `crypto::to_hex` of its tokens.
pub record Pool : Type 0 where
  pub token0_hex : List ℕ
  pub token1_hex : List ℕ
  pub r0 : ℕ
  pub r1 : ℕ
  pub lp_supply : ℕ
  pub fee_bps : ℕ

unfoldable pub create_pool : (List ℕ → Hash256) → Call → Bool → Result Stop (List Change)
create_pool sha256 call initialized = do
  fail_if initialized refuse
  fail_if (not (length call.input == 73)) refuse
  t0 ← need [] (read_addr32_at call.input 1)
  t1 ← need [] (read_addr32_at call.input 33)
  fee_bps ← need [] (read_u64_at call.input 65)
  fail_if (same_bytes t0 t1) refuse
  fail_if (ltb 10000 fee_bps) refuse
  record_event sha256 call.contract call.evt_seq
      ((1 ∷ []) ++ sha256 call.caller ++ t0 ++ t1 ++ encode_u64 fee_bps)
      (storage_entry call.contract (Key.token0 sha256) t0
        ∷ storage_entry call.contract (Key.token1 sha256) t1
        ∷ storage_entry call.contract (Key.r0 sha256) (encode_u64 0)
        ∷ storage_entry call.contract (Key.r1 sha256) (encode_u64 0)
        ∷ storage_entry call.contract (Key.lp_supply sha256) (encode_u64 0)
        ∷ storage_entry call.contract (Key.fee_bps sha256) (encode_u64 fee_bps)
        ∷ [])

-- The event of an operation on three numbers.
abbrev pub op_event : (List ℕ → Hash256) → ℕ → Call → ℕ → ℕ → ℕ → List ℕ
op_event sha256 op call x y z =
    (op ∷ []) ++ sha256 call.caller ++ encode_u64 x ++ encode_u64 y ++ encode_u64 z

unfoldable pub read_pool :
    (List ℕ → Hash256) → Storage → List ℕ → Hash256 → Hash256 → Result Stop Pool
read_pool sha256 get contract token0 token1 = do
  r0 ← need [] (read_storage_u64 get contract (Key.r0 sha256))
  r1 ← need [] (read_storage_u64 get contract (Key.r1 sha256))
  lp_supply ← need [] (read_storage_u64 get contract (Key.lp_supply sha256))
  fee_bps ← need [] (read_storage_u64 get contract (Key.fee_bps sha256))
  ok (record {
    token0_hex = to_hex token0;
    token1_hex = to_hex token1;
    r0 = r0;
    r1 = r1;
    lp_supply = lp_supply;
    fee_bps = fee_bps;
  })
