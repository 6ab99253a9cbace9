-- ===== src/Net/Rate.antt =====
-- The token bucket of include/rand/net_rate.hpp and src/net_rate.cpp, which limits how much a peer
-- may send.
pub mod Budget
pub mod Runs
use randioum.Base.{ℕ, ◌+◌, ◌-◌, ◌%◌, ◌^◌, Bool, true, false, ltb, ◌==◌, if◌then◌else◌}

pub record Options : Type 0 where
  pub capacity : ℕ
  pub refill_per_tick : ℕ

pub record TokenBucket : Type 0 where
  pub opt : Options
  pub tokens : ℕ

-- The constructor: a full bucket.
abbrev pub token_bucket : Options → TokenBucket
token_bucket opt = record { opt = opt; tokens = opt.capacity }

-- The sum of 64 bits may wrap; the bucket is full then.
unfoldable pub tick : TokenBucket → TokenBucket
tick b =
    let next = (b.tokens + b.opt.refill_per_tick) % 2 ^ 64 in
    record b {
      tokens =
          if ltb next b.tokens
          then b.opt.capacity
          else if ltb b.opt.capacity next
          then b.opt.capacity
          else next;
    }

unfoldable pub try_consume : TokenBucket → ℕ → Bool × TokenBucket
try_consume b amount =
    if amount == 0
    then (true, b)
    else if ltb b.tokens amount
    then (false, b)
    else (true, record b { tokens = b.tokens - amount })
