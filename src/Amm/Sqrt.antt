-- ===== src/Amm/Sqrt.antt =====
-- `isqrt_u128_` of src/module119_amm_apply.cpp.
pub mod Rounds
pub mod Ending
pub mod Hanging
use randioum.Base.{
  ℕ, zero, suc, ◌+◌, ◌*◌, ◌/◌, ◌%◌, ◌^◌, ◌-◌, ltb, ◌==◌, if◌then◌else◌, Option, none, some,
}

-- What the loop gives for a number of rounds: `none` when they did not suffice.
-- Newton's iteration on `unsigned __int128` runs while `r` differs from its predecessor.
unfoldable pub isqrt_loop : ℕ → ℕ → ℕ → ℕ → Option ℕ
isqrt_loop zero x r prev = none
isqrt_loop (suc rounds) x r prev =
    let rest = isqrt_loop rounds x ((r + x / r) % 2 ^ 128 / 2) r in
    if r == prev then some r else rest

-- What a function with a loop and an optional result gives.
pub data Root : Type 0 where
  root : Option ℕ → Root
  hangs : Root

abbrev pub narrow_root : Option ℕ → Root
narrow_root none = hangs
narrow_root (some r) = root (if ltb (2 ^ 64 - 1) r then none else some r)

unfoldable pub isqrt_u128 : ℕ → ℕ → Root
isqrt_u128 rounds x = if x == 0 then root (some 0) else narrow_root (isqrt_loop rounds x x 0)
