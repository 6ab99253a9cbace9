-- ===== src/Chain.antt =====
-- Blocks, their Merkle roots, their validation, and proofs of inclusion: src/block.cpp,
-- src/validate.cpp, src/proof.cpp.
pub mod Merkle
pub mod Block
pub mod Proof
pub mod Runs
