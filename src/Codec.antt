-- ===== src/Codec.antt =====
-- The canonical byte formats: integers, varints, text, transactions, blocks and network frames.
pub mod Bytes
pub mod Tx
pub mod Varint
pub mod Header
pub mod Block
mod Runs
