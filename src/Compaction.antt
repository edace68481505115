-- ===== src/Compaction.antt =====
-- The compaction service of src/ingest/compaction.rs and the table compaction_leases of
-- src/db/migrations/V18__add_compaction_leases.sql.
pub mod Leases
pub mod Service
