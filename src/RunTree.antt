-- ===== src/RunTree.antt =====
-- src/ingest/tree.rs: the nested-set index of the runs of a trace. The maps of the source are
-- functions on the list of runs; of two runs with one span id the later counts, as `insert` has it.
-- Times are nanoseconds since the epoch, as an i64.
pub mod Cycle
pub mod Family
pub mod Order
pub mod Rooted
pub mod Visit
use kevindb.Base.{
  ℕ, zero, suc, ◌+◌, Bool, true, false, ◌&&◌, ◌||◌, not, Option, none, some, List, [], ◌∷◌, map,
  ltb, leb, ◌==◌, length, if◌then◌else◌,
}
use kevindb.Base.Int.{ℤ, int_eq, int_leb}
use kevindb.Base.Text.{Text, text_eq}
use kevindb.Search.Terms.{leb_bytes}
use kevindb.Search.Query.{one_of}

pub record RunTreeInput : Type 0 where
  pub span_id : Text
  pub parent_span_id : Option Text
  pub run_id : Text
  pub generated_run_id : Text
  pub start_time_unix_nano : ℤ

-- `left <= right` by start time, then by span id.
abbrev pub starts_before : RunTreeInput → RunTreeInput → Bool
starts_before left right =
    not (int_leb right.start_time_unix_nano left.start_time_unix_nano)
    || (int_eq left.start_time_unix_nano right.start_time_unix_nano
        && leb_bytes left.span_id right.span_id)

abbrev pub insert_run : RunTreeInput → List RunTreeInput → List RunTreeInput
insert_run run [] = run ∷ []
insert_run run (next ∷ sorted) =
    let rest = insert_run run sorted in
    if starts_before run next then run ∷ next ∷ sorted else next ∷ rest

abbrev pub sort_runs : List RunTreeInput → List RunTreeInput
sort_runs [] = []
sort_runs (run ∷ runs) = insert_run run (sort_runs runs)

abbrev pub known_ids : List RunTreeInput → List Text
known_ids [] = []
known_ids (run ∷ runs) = run.span_id ∷ known_ids runs

-- `parent_by_span.get(span_id).and_then(Option::as_deref)`
abbrev pub parent_of : List RunTreeInput → Text → Option Text
parent_of [] span_id = none
parent_of (run ∷ runs) span_id =
    let later = parent_of runs span_id in
    if one_of (known_ids runs) span_id
    then later
    else if text_eq run.span_id span_id
    then run.parent_span_id
    else none

-- The loop of `parent_creates_cycle`. Each round puts a new span id into `seen`.
abbrev pub cycle_walk : ℕ → List RunTreeInput → Text → List Text → Option Text → Bool
cycle_walk zero runs child seen current = false
cycle_walk (suc fuel) runs child seen none = false
cycle_walk (suc fuel) runs child seen (some span_id) =
    let rest = cycle_walk fuel runs child (span_id ∷ seen) (parent_of runs span_id) in
    if text_eq span_id child then true else if one_of seen span_id then false else rest

-- All span ids but the last of the walk are known, so that this fuel is not used up.
unfoldable pub parent_creates_cycle : List RunTreeInput → Text → Text → Bool
parent_creates_cycle runs child parent = cycle_walk (length runs + 2) runs child [] (some parent)

pub record IndexedRunInput : Type 0 where
  pub run : RunTreeInput
  pub effective_parent : Option Text
  pub unresolved_parent : Bool
  pub cycle_detected : Bool

abbrev unresolved : List RunTreeInput → Option Text → Bool
unresolved runs none = false
unresolved runs (some parent) = not (one_of (known_ids runs) parent)

abbrev detected : List RunTreeInput → Text → Option Text → Bool
detected runs span_id none = false
detected runs span_id (some parent) =
    one_of (known_ids runs) parent && parent_creates_cycle runs span_id parent

-- The three filters on the parent.
abbrev pub effective : List RunTreeInput → Text → Option Text → Option Text
effective runs span_id none = none
effective runs span_id (some parent) =
    if one_of (known_ids runs) parent
      && not (text_eq parent span_id)
      && not (parent_creates_cycle runs span_id parent)
    then some parent
    else none

abbrev pub index_run : List RunTreeInput → RunTreeInput → IndexedRunInput
index_run runs run = record {
  run = run;
  effective_parent = effective runs run.span_id run.parent_span_id;
  unresolved_parent = unresolved runs run.parent_span_id;
  cycle_detected = detected runs run.span_id run.parent_span_id;
}

-- `inputs_by_span.get(span_id)`
abbrev pub find_input : List IndexedRunInput → Text → Option IndexedRunInput
find_input [] span_id = none
find_input (input ∷ inputs) span_id = elim (find_input inputs span_id) [
  | some later ↦ some later
  | none ↦ if text_eq input.run.span_id span_id then some input else none
]

abbrev pub same_parent : Option Text → Option Text → Bool
same_parent none none = true
same_parent none (some q) = false
same_parent (some p) none = false
same_parent (some p) (some q) = text_eq p q

-- `children_by_parent.get(parent)`, in the order of the runs
abbrev pub children_of : List IndexedRunInput → Option Text → List Text
children_of [] parent = []
children_of (input ∷ inputs) parent =
    let rest = children_of inputs parent in
    if same_parent input.effective_parent parent then input.run.span_id ∷ rest else rest

pub record RunTreeIndexNode : Type 0 where
  pub span_id : Text
  pub run_id : Text
  pub generated_run_id : Text
  pub parent_span_id : Option Text
  pub root_span_id : Text
  pub root_run_id : Text
  pub depth : ℕ
  pub sibling_order : ℕ
  pub subtree_start : ℕ
  pub subtree_end : ℕ
  pub descendant_count : ℕ
  pub unresolved_parent : Bool
  pub cycle_detected : Bool
