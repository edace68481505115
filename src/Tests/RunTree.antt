-- ===== src/Tests/RunTree.antt =====
-- Runs of a trace: a root, two children, and two runs that name each other as parents.
use kevindb.Base.{◌*◌, ◌<◌, ◌≡◌, refl, true, Option, none, some, List, [], ◌∷◌, length, All}
use kevindb.Base.Int.{ℤ, pos, negsuc}
use kevindb.Base.Text.{Text, text}
use kevindb.Search.Query.{one_of}
use kevindb.Search.Query.Tokens.{Distinct}
use kevindb.RunTree.{RunTreeInput, known_ids, parent_creates_cycle}
use kevindb.RunTree.Rooted.{above, effective-acyclic}
use kevindb.RunTree.Visit.{visit_tree_node, build_trace_tree_index}
use kevindb.RunTree.Visit.Nested.{Within}
use kevindb.RunTree.Visit.Sorted.{InPreorder, build_trace_tree_index-InPreorder}
use kevindb.RunTree.Visit.Parents.{Hangs, IsRoot, build_trace_tree_index-parents}
use kevindb.RunTree.Visit.Counts.{CountsInterval, build_trace_tree_index-CountsInterval}
use kevindb.RunTree.Visit.Complete.{node_ids, build_trace_tree_index_complete}

abbrev a_run : Text → Option Text → ℤ → RunTreeInput
a_run id parent start = record {
  span_id = id;
  parent_span_id = parent;
  run_id = [];
  generated_run_id = id;
  start_time_unix_nano = start;
}

abbrev trace : List RunTreeInput
trace =
    a_run (text "c2") (some (text "r")) (pos 30)
    ∷ a_run (text "r") none (negsuc 9)
    ∷ a_run (text "x") (some (text "y")) (pos 15)
    ∷ a_run (text "c1") (some (text "r")) (pos 20)
    ∷ a_run (text "y") (some (text "x")) (pos 16)
    ∷ []

abbrev trace_distinct : Distinct (known_ids trace)
trace_distinct = (
  (refl, (refl, (refl, (refl, tt)))),
  ((refl, (refl, (refl, tt))), ((refl, (refl, tt)), ((refl, tt), (tt, tt)))),
)

ids :
    node_ids (build_trace_tree_index trace)
    ≡ text "r" ∷ text "c1" ∷ text "c2" ∷ text "x" ∷ text "y" ∷ []
unfolding build_trace_tree_index visit_tree_node parent_creates_cycle
ids = refl

build_trace_tree_index-InPreorder_example :
    InPreorder (build_trace_tree_index trace)
    × All (Within 0 (2 * length (build_trace_tree_index trace))) (build_trace_tree_index trace)
build_trace_tree_index-InPreorder_example = build_trace_tree_index-InPreorder trace

build_trace_tree_index-parents_example :
    All (Hangs IsRoot (build_trace_tree_index trace)) (build_trace_tree_index trace)
build_trace_tree_index-parents_example = build_trace_tree_index-parents trace trace_distinct

build_trace_tree_index_complete_example :
    one_of (node_ids (build_trace_tree_index trace)) (text "y") ≡ true
build_trace_tree_index_complete_example =
    build_trace_tree_index_complete trace trace_distinct (text "y") refl

effective-acyclic_example :
    Distinct (text "x" ∷ above trace 7 (text "x"))
    × (length (above trace 7 (text "x")) < length trace)
effective-acyclic_example = effective-acyclic trace 7 (text "x") refl

build_trace_tree_index-CountsInterval_example : All CountsInterval (build_trace_tree_index trace)
build_trace_tree_index-CountsInterval_example =
    build_trace_tree_index-CountsInterval trace trace_distinct
