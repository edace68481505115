-- ===== src/Ingest/Partitions/Bounds.antt =====
-- The time bucket of a record in src/ingest.rs.
use kevindb.Base.{◌+◌, ◌≤◌, ◌<◌, arith}
use kevindb.Base.Int.{ℤ, pos, negsuc, Int64, from_least, div_euclid, saturating_mul}
use kevindb.Ingest.{SpanRecord, record_partition_key, ingest_time_bucket_unix_nanos}

bucket-bounds :
    (t : ℤ)
    → Int64 t
    → (from_least (
          saturating_mul (div_euclid t ingest_time_bucket_unix_nanos) ingest_time_bucket_unix_nanos)
        ≤ from_least t)
      × (from_least t
          < from_least (
              saturating_mul
                (div_euclid t ingest_time_bucket_unix_nanos)
                ingest_time_bucket_unix_nanos)
            + ingest_time_bucket_unix_nanos)
bucket-bounds (pos a) h = (omega arith, omega arith)
bucket-bounds (negsuc a) h = (omega arith, omega arith)

-- A record's start lies in the bucket of its partition, at or after its start and less than an hour
-- behind it, also for times before the epoch. `from_least` counts from the least i64, where the
-- lowest bucket is cut off.
pub record_partition_key-bounds :
    (span_record : SpanRecord)
    → Int64 span_record.start_time_unix_nano
    → (from_least (record_partition_key span_record).time_bucket_start_unix_nano
        ≤ from_least span_record.start_time_unix_nano)
      × (from_least span_record.start_time_unix_nano
          < from_least (record_partition_key span_record).time_bucket_start_unix_nano
            + ingest_time_bucket_unix_nanos)
unfolding record_partition_key
record_partition_key-bounds span_record h = bucket-bounds span_record.start_time_unix_nano h
