-- ===== src/Hash.antt =====
-- SHA-256: src/sha256.cpp.
pub mod Words
pub mod Sha256
pub mod Runs
