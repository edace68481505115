-- ===== src/Search/Selection.antt =====
-- src/search/selection.rs: the groups of a directory that a predicate may need, and then the terms
-- of the loaded dictionaries. A `BTreeSet<usize>` is an ascending list, a `BTreeMap` one of pairs.
pub mod Groups
pub mod Pruned
pub mod Terms
pub mod Wanted
pub mod Slices
