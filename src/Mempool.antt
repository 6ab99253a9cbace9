-- ===== src/Mempool.antt =====
-- The pool of transactions that wait: include/rand/mempool.hpp and src/mempool.cpp.
pub mod Fees
pub mod Bids
pub mod Order
pub mod Pool
pub mod Eviction
pub mod Counts
pub mod Evicted
pub mod Sound
pub mod Caps
pub mod Changes
pub mod Runs
