-- ===== src/Consensus.antt =====
-- Validators and their votes: src/validator.cpp and src/consensus.cpp.
pub mod Keys
pub mod Core
pub mod Entries
pub mod Events
pub mod Runs
