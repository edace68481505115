-- ===== src/Lib.antt =====
-- KevinDB, a database for agent traces: object storage holds segments and search indexes, Postgres
-- holds metadata. This library models its search index, its ingest, its run trees, its compaction
-- service, its cleanup of objects and its retention policies.
--
-- Base has what the other parts share: native numbers with Boolean tests, lists by native numbers,
-- `Result` with `?` as bind, maps and sets as ascending lists, signed numbers, and Rust strings.
--
-- Codec is src/search/codec.rs, function by function. Types has the structs, also RowGroup, TermInfo
-- and SearchIndex of src/search/mod.rs. Write has put_vint, put_u32 and their kin, Reader the
-- ByteReader, Packing pack_bits and unpack_bits, U32List the delta-coded lists, Positions and
-- TermInfos the two tables, Directory the header and the directory, Index the whole file.
--
-- Search.Query is src/search/predicate.rs, with SearchQuery.parse and tokens_for_text. Search.Terms
-- has the helpers at the end of src/search/mod.rs: keys, next_prefix, the tests on a group's bounds
-- and path_matches_pattern. Search.RowGroups has build_row_groups and encode_row_group of that file.
-- Search.Selection is src/search/selection.rs: Groups chooses the groups of a directory, Terms the
-- terms of loaded dictionaries, Slices what is read of them. Search.Selection.Wanted says which terms
-- a predicate is about, and Search.Selection.Terms.Chosen which keys it chooses, apart from how they
-- are searched; Search.Selection.Pruned is about the two steps of selection together. The bounds that
-- Search.RowGroups writes are those that Search.Selection.Groups tests, after Codec has carried them.
-- Search.Ranges has the reads of src/query/search.rs, with the merging of ranges.
--
-- Ingest is src/ingest.rs, with the record of src/record.rs. Ingest itself has partitions and the
-- grouping of records, Keys the idempotency keys and the uris of segments, Persist the loop of
-- persist_partition_records with the statements on run_events of src/ingest/metadata.rs, Pending the
-- buffers and the steps of ingest_records and flush, Flush a round of flush. A flush takes a batch
-- from Pending, gives it to Persist, and settles it in Pending with the result; the records of a
-- batch are those of one partition, as Ingest groups them.
--
-- RunTree is src/ingest/tree.rs: RunTree itself has the inputs with the parents that count, Visit the
-- traversal and build_trace_tree_index.
--
-- Compaction is src/ingest/compaction.rs: Leases has the table compaction_leases and the statements
-- on it, Service a pass of run_compaction_service_once. A transaction is one step; the operations of
-- several nodes are a sequence of such steps.
--
-- Cleanup is src/query/cleanup.rs: the queries on trace_segments, and in Run the two cleanups over an
-- object store. Retention is src/query/retention.rs: the policies and their enforcement.
--
-- A usize has 64 bits. A u32 or u64 is a number with its bound as a hypothesis or its wrap-around
-- written out. The loops of put_vint, pack_bits and unpack_bits run on fuel: put_vint has its value as
-- fuel, which falls in each round; the rounds that take bytes out of the accumulator have its count of
-- bits, and those that fill it the width; read_vint needs 5 rounds and has 32. The walk along parents
-- has two rounds more than there are runs, as each round but the last two meets another run; the
-- traversal of a tree has as many levels as there are runs, as no path has more. Decimal printing has
-- the number's successor, which is more than its digits. The loop of persist_partition_records has
-- no bound of its own: its rounds are a list, with what others do in each. No lemma assumes that fuel
-- is enough. Times are nanoseconds since the epoch; in Cleanup and Compaction they are not negative.
--
-- Parameters are the fst crate (its test of an FST, its maps and its builder), hex, the UTF-8 tests of
-- the standard library, the clock, the sequence number of segments, failures of the backends of
-- ingest and the commits of other nodes, the compaction of one project, the object store with its
-- paths (`Path::from` and their printing), and the expiry of the runs of one project.
--
-- Not modelled: the evaluation of predicates on a loaded index, the collection of terms from records,
-- filters, queries on trees, the planner, aggregates, the tables that ingest fills besides run_events,
-- the encoding of segments, the timer and the receivers of ingest, the server, the configuration and
-- the metadata store; Postgres and the object store are there only as far as these files use them.
-- Outside Ingest, database failures are left out, and so is the timer loop of the service.
pub mod Base
pub mod Codec
pub mod Compaction
pub mod Search
pub mod Cleanup
pub mod Retention
pub mod Ingest
pub mod RunTree
pub mod Tests
