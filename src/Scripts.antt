-- ===== src/Scripts.antt =====
-- The maintenance scripts.
pub mod RebuildIndex
pub mod AdminCreate
