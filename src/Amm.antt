-- ===== src/Amm.antt =====
-- The automated market maker: src/module119_amm_apply.cpp.
pub mod Key
pub mod Store
pub mod Sqrt
pub mod Pool
pub mod Liquidity
pub mod Swap
pub mod Apply
pub mod Hanging
mod Runs
