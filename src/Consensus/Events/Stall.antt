-- ===== src/Consensus/Events/Stall.antt =====
-- A vote of a late round, which `on_vote` does not compare with the round of its block.
