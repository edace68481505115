-- ===== src/Search.antt =====
-- src/search: predicates, term keys, and the choice of groups and terms. The codec is in Codec.
pub mod Ranges
pub mod Terms
pub mod Query
pub mod Selection
pub mod RowGroups
