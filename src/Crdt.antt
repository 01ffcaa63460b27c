-- ===== src/Crdt.antt =====
-- core/crdt
pub mod Hlc
pub mod Merge
