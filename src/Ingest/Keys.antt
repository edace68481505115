-- ===== src/Ingest/Keys.antt =====
-- Printed keys of src/ingest.rs: idempotency keys, and the place of a segment in the object store.
pub mod Escape
pub mod Uri
use Prim.Native.Nat.{bit_xor}
use kevindb.Base.{
  ℕ, zero, suc, ◌+◌, ◌*◌, ◌/◌, ◌%◌, ◌^◌, Bool, true, false, ◌&&◌, ◌||◌, Option, none, some, List,
  [], ◌∷◌, ◌++◌, ltb, leb, ◌==◌, if◌then◌else◌,
}
use kevindb.Base.Text.{Text, text}
use kevindb.Base.Int.{ℤ, pos, negsuc, int_leb}
use kevindb.Base.Result.{Result, ok, err}
use kevindb.Ingest.{
  RunEventKind, start, update, end, compact, tombstone, SpanRecord, PartitionKey, PersistFailure,
  empty_records,
}

-- The digits in front of those that are there. A number has fewer digits than its successor.
abbrev pub digits_from : ℕ → ℕ → Text → Text
digits_from zero n digits = digits
digits_from (suc fuel) n digits =
    let more = digits_from fuel (n / 10) ((48 + n % 10) ∷ digits) in
    if ltb n 10 then (48 + n) ∷ digits else more

-- `{}` of an unsigned number
unfoldable pub decimal : ℕ → Text
decimal n = digits_from (suc n) n []

-- `{}` of a signed number
unfoldable pub print_int : ℤ → Text
print_int (pos n) = decimal n
print_int (negsuc n) = 45 ∷ decimal (n + 1)

abbrev hex_digit : ℕ → ℕ
hex_digit n = if ltb n 10 then 48 + n else 87 + n

abbrev hex_digits : ℕ → ℕ → Text → Text
hex_digits zero n digits = digits
hex_digits (suc count) n digits = hex_digits count (n / 16) (hex_digit (n % 16) ∷ digits)

-- `{:016x}` of a u64
abbrev pub hex16 : ℕ → Text
hex16 n = hex_digits 16 n []

abbrev pub hash_bytes : ℕ → Text → ℕ
hash_bytes hash [] = hash
hash_bytes hash (byte ∷ bytes) = hash_bytes (bit_xor hash byte * 0x00000100000001b3 % 2 ^ 64) bytes

unfoldable pub stable_hash : Text → ℕ
stable_hash bytes = hash_bytes 0xcbf29ce484222325 bytes

abbrev pub as_str : RunEventKind → Text
as_str start = text "start"
as_str update = text "update"
as_str end = text "end"
as_str compact = text "compact"
as_str tombstone = text "tombstone"

unfoldable pub event_time_unix_nano : SpanRecord → ℤ
event_time_unix_nano span_record =
    if int_leb span_record.end_time_unix_nano (pos 0)
    then span_record.start_time_unix_nano
    else span_record.end_time_unix_nano

abbrev join_colon : List Text → Text
join_colon [] = []
join_colon (field ∷ []) = field
join_colon (field ∷ next ∷ fields) = field ++ (58 ∷ join_colon (next ∷ fields))

abbrev pub printed_key : SpanRecord → Text
printed_key span_record = join_colon (
    span_record.run_id
    ∷ span_record.trace_id
    ∷ span_record.span_id
    ∷ as_str span_record.event_kind
    ∷ print_int (event_time_unix_nano span_record)
    ∷ print_int span_record.start_time_unix_nano
    ∷ print_int span_record.end_time_unix_nano
    ∷ print_int span_record.status_code
    ∷ span_record.name
    ∷ hex16 (stable_hash span_record.attributes_json)
    ∷ [])

abbrev given_or : Option Text → Text → Text
given_or (some idempotency_key) printed = idempotency_key
given_or none printed = printed

unfoldable pub run_event_idempotency_key : SpanRecord → Text
run_event_idempotency_key span_record =
    given_or span_record.idempotency_key (printed_key span_record)

abbrev pub is_plain : ℕ → Bool
is_plain byte =
    (leb 97 byte && leb byte 122)
    || (leb 65 byte && leb byte 90)
    || (leb 48 byte && leb byte 57)
    || (byte == 45)
    || (byte == 95)
    || (byte == 46)

-- A digit of `{:02X}`
abbrev pub upper_hex : ℕ → ℕ
upper_hex n = if ltb n 10 then 48 + n else 55 + n

unfoldable pub escape_path_component : Text → Text
escape_path_component [] = []
escape_path_component (byte ∷ value) =
    let rest = escape_path_component value in
    if is_plain byte then byte ∷ rest else 37 ∷ upper_hex (byte / 16) ∷ upper_hex (byte % 16) ∷ rest

abbrev pub uri_of : PartitionKey → ℕ → ℕ → Text → Text
uri_of partition now sequence trace_id =
    text "projects/"
    ++ (escape_path_component partition.project_name
        ++ (text "/time-buckets/"
            ++ (print_int partition.time_bucket_start_unix_nano
                ++ (text "/trace-segments/"
                    ++ (decimal now
                        ++ (text "-"
                            ++ (decimal sequence
                                ++ (text "-" ++ (trace_id ++ text ".vortex")))))))))

-- The clock's nanoseconds and the process-wide sequence number are arguments.
unfoldable pub segment_uri : PartitionKey → List SpanRecord → ℕ → ℕ → Result PersistFailure Text
segment_uri partition [] now sequence = err empty_records
segment_uri partition (first ∷ records) now sequence =
    ok (uri_of partition now sequence first.trace_id)
