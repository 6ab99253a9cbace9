-- ===== src/Net.antt =====
-- The network layer.
pub mod Rate
