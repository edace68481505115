-- ===== src/Codec.antt =====
-- The search index file format, src/search/codec.rs.
pub mod Types
pub mod Write
pub mod Reader
pub mod Packing
pub mod U32List
pub mod TermInfos
pub mod Positions
pub mod Directory
pub mod Index
