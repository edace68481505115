-- ===== src/Ingest/Persist/Saved.antt =====
-- Where the records go that `persist_partition_records` of src/ingest.rs is given.
pub mod Loop
use kevindb.Base.{
  ℕ, min, ◌≡◌, refl, sym, ap, ◌∙◌, subst, inl, inr, ◌⊎◌, Bool, true, false, ◌||◌, Option, none,
  some, List, [], ◌∷◌, ◌++◌, take, drop, length, take-append-drop, All-drop, All, Any,
  Any-append_right, Any-append_cases, Bool-cases,
}
use kevindb.Base.Text.{Text, text_eq_refl}
use kevindb.Base.Result.{Result, ok, err}
use kevindb.Ingest.{SpanRecord, PartitionKey, PersistFailure}
use kevindb.Ingest.Persist.{
  RunEvent, event_of, same_event, has_event, FlushReceipt, Fault, no_fault, before_commit,
  commit_unacknowledged, Round, without_existing, filter_duplicate_records, lookup_result,
  insert_run_events, write_segment, place_segment, persist_segment, Persisted, finished, failed,
  running, max_spans_per_segment, after_segment, after_lookup, persist_rounds,
  persist_partition_records, Continue,
}

abbrev pub Kept : List SpanRecord → SpanRecord → Type 0
Kept records r = Any (λ x. x ≡ r) records

abbrev pub Stored : List RunEvent → SpanRecord → Type 0
Stored events r = has_event events (event_of r) ≡ true

-- In the table, under its project and key, or among the records that remain.
abbrev pub Saved : List RunEvent → List SpanRecord → SpanRecord → Type 0
Saved events records r = Stored events r ⊎ Kept records r

abbrev pub SavedIn : SpanRecord → Persisted → Type 0
SavedIn r (finished receipts events) = Stored events r
SavedIn r (failed error events) = Saved events error.records r
SavedIn r (running records events) = Saved events records r

abbrev pub InProject : Text → List SpanRecord → Type 0
InProject project records = All (λ r. r.project_name ≡ project) records

pub same_event_refl : (e : RunEvent) → same_event e e ≡ true
same_event_refl e = rw (text_eq_refl e.project_name, text_eq_refl e.idempotency_key) refl

pub or_true : (a b : Bool) → b ≡ true → (a || b) ≡ true
or_true true b h = refl
or_true false b h = h

pub has_event-append :
    (new events : List RunEvent) (e : RunEvent)
    → has_event events e ≡ true
    → has_event (new ++ events) e ≡ true
has_event-append [] events e h = h
has_event-append (n ∷ new) events e h = or_true (same_event n e) _ (has_event-append new events e h)

none-some : {events : List RunEvent} → none ≡ some events → ⊥
none-some e = cc

pub some_inj : {events more : List RunEvent} → some events ≡ some more → events ≡ more
some_inj e = cc

-- A record that the lookup drops is stored.
pub without_existing-Saved :
    (events : List RunEvent) (project : Text) (records : List SpanRecord) (r : SpanRecord)
    → r.project_name ≡ project
    → Kept records r
    → Saved events (without_existing events project records) r
without_existing-Saved events project [] r p k = absurd k
without_existing-Saved events project (x ∷ records) r p k =
    let event : RunEvent = record {
      project_name = project;
      idempotency_key = (event_of x).idempotency_key;
    } in
    elim (Bool-cases (has_event events event)) [
      | inl old ↦ rw old (elim k [
        | inr later ↦ without_existing-Saved events project records r p later
        | inl same ↦
            let named = sym p in
            let it : event ≡ event_of r = λ i. record {
              project_name = named i;
              idempotency_key = (event_of (same i)).idempotency_key;
            } in
            inl (subst (λ e. has_event events e ≡ true) it old)
      ])
      | inr new ↦ rw new (elim k [
        | inl same ↦ inr (inl same)
        | inr later ↦ elim (without_existing-Saved events project records r p later) [
          | inl stored ↦ inl stored
          | inr kept ↦ inr (inr kept)
        ]
      ])
    ]

pub insert_run_events-grows :
    (records : List SpanRecord) (events more : List RunEvent) (e : RunEvent)
    → insert_run_events records events ≡ some more
    → has_event events e ≡ true
    → has_event more e ≡ true
insert_run_events-grows [] events more e done h =
    subst (λ t. has_event t e ≡ true) (some_inj done) h
insert_run_events-grows (x ∷ records) events more e done h =
    elim (Bool-cases (has_event events (event_of x))) [
      | inl conflict ↦ absurd (none-some (rw conflict at done))
      | inr new ↦
          insert_run_events-grows records (event_of x ∷ events) more e (rw new at done)
            (or_true (same_event (event_of x) e) (has_event events e) h)
    ]

pub insert_run_events-Stored :
    (records : List SpanRecord) (events more : List RunEvent) (r : SpanRecord)
    → insert_run_events records events ≡ some more
    → Kept records r
    → Stored more r
insert_run_events-Stored [] events more r done k = absurd k
insert_run_events-Stored (x ∷ records) events more r done k =
    elim (Bool-cases (has_event events (event_of x))) [
      | inl conflict ↦ absurd (none-some (rw conflict at done))
      | inr new ↦
          let rest : insert_run_events records (event_of x ∷ events) ≡ some more = rw new at done in
          elim k [
            | inr later ↦ insert_run_events-Stored records (event_of x ∷ events) more r rest later
            | inl same ↦
                insert_run_events-grows records (event_of x ∷ events) more (event_of r) rest (
                  rw
                    (
                      ap (λ y. same_event (event_of y) (event_of r)) same,
                      same_event_refl (event_of r),
                    )
                    refl)
          ]
    ]

pub All-without_existing :
    (P : SpanRecord → Type 0) (events : List RunEvent) (project : Text) (records : List SpanRecord)
    → All P records
    → All P (without_existing events project records)
All-without_existing P events project [] h = tt
All-without_existing P events project (x ∷ records) h =
    let event : RunEvent = record {
      project_name = project;
      idempotency_key = (event_of x).idempotency_key;
    } in
    elim (Bool-cases (has_event events event)) [
      | inl old ↦ rw old (All-without_existing P events project records h.1)
      | inr new ↦ rw new (h.0, All-without_existing P events project records h.1)
    ]

pub All-Kept :
    (P : SpanRecord → Type 0) (records : List SpanRecord) (r : SpanRecord)
    → All P records
    → Kept records r
    → P r
All-Kept P [] r h k = absurd k
All-Kept P (x ∷ records) r h (inl same) = subst P same h.0
All-Kept P (x ∷ records) r h (inr later) = All-Kept P records r h.1 later
