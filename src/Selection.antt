-- ===== src/Selection.antt =====
-- The selection of instruments.
pub mod Capacity
