-- ===== src/Amm/Key.antt =====
-- The storage keys of src/module119_amm_apply.cpp: hashes of texts.
use randioum.Base.{ℕ, List, ◌++◌}
use randioum.Base.Text.{codes, to_string, to_hex}

abbrev pub Hash256 : Type 0
Hash256 = List ℕ

module _ (sha256 : List ℕ → Hash256) where
  abbrev pub token0 : Hash256
  token0 = sha256 (codes "amm119:token0")

  abbrev pub token1 : Hash256
  token1 = sha256 (codes "amm119:token1")

  abbrev pub r0 : Hash256
  r0 = sha256 (codes "amm119:r0")

  abbrev pub r1 : Hash256
  r1 = sha256 (codes "amm119:r1")

  abbrev pub lp_supply : Hash256
  lp_supply = sha256 (codes "amm119:lp_supply")

  abbrev pub fee_bps : Hash256
  fee_bps = sha256 (codes "amm119:fee_bps")

  abbrev pub lp_bal : List ℕ → Hash256
  lp_bal account = sha256 (codes "amm119:lp:" ++ account)

  abbrev pub evt_seq : Hash256
  evt_seq = sha256 (codes "amm119:evt_seq")

  abbrev pub evt_n : ℕ → Hash256
  evt_n n = sha256 (codes "amm119:evt:" ++ to_string n)

  abbrev pub rand20_balance : Hash256 → Hash256
  rand20_balance addr = sha256 (codes "rand20:bal:" ++ to_hex addr)

  abbrev pub pool_addr : List ℕ → Hash256
  pool_addr contract = sha256 (codes "amm119:pool:" ++ contract)
