-- ===== src/Tests.antt =====
-- Concrete runs of the definitions and uses of the theorems.
mod Codec
mod Compaction
mod Search
mod RowGroups
mod Cleanup
mod Retention
mod RunTree
mod Ingest
mod Ranges
