-- ===== src/RunTree/Visit.antt =====
-- The traversal of src/ingest/tree.rs that numbers the nodes: `visit_tree_node`, `stable_run_id` and
-- the loop over the roots in `build_trace_tree_index`.
pub mod Nested
pub mod Sorted
pub mod Complete
pub mod Parents
pub mod Counts
use kevindb.Base.{
  ℕ, zero, suc, ◌+◌, Bool, true, false, Option, none, some, List, [], ◌∷◌, ◌++◌, map, leb, length,
  if◌then◌else◌,
}
use kevindb.Base.Text.{Text}
use kevindb.RunTree.{
  RunTreeInput, IndexedRunInput, RunTreeIndexNode, sort_runs, index_run, find_input, children_of,
}

-- What a call leaves: its result, `next_order`, and the nodes that it pushed.
pub record Visited : Type 0 where
  pub descendant_count : ℕ
  pub next_order : ℕ
  pub pushed : List RunTreeIndexNode

abbrev pub nothing_at : ℕ → Visited
nothing_at order = record { descendant_count = 0; next_order = order; pushed = [] }

abbrev first_given : Text → Text → Text
first_given [] generated = generated
first_given (c ∷ run_id) generated = c ∷ run_id

abbrev pub stable_run_id : RunTreeInput → Text
stable_run_id run = first_given run.run_id run.generated_run_id

-- The loop over the children, by the call for one of them: span id, sibling order and `next_order`.
abbrev pub visit_children : (Text → ℕ → ℕ → Visited) → List Text → ℕ → ℕ → Visited
visit_children visit [] child_order order = nothing_at order
visit_children visit (child ∷ children) child_order order =
    let first = visit child child_order order in
    let rest = visit_children visit children (child_order + 1) first.next_order in
    record {
      descendant_count = 1 + first.descendant_count + rest.descendant_count;
      next_order = rest.next_order;
      pushed = first.pushed ++ rest.pushed;
    }

-- The node of an input, whose children were visited from `subtree_start + 1` on.
abbrev pub node_of : Text → Text → IndexedRunInput → ℕ → ℕ → ℕ → Visited → RunTreeIndexNode
node_of root_span_id root_run_id input depth sibling_order subtree_start children = record {
  span_id = input.run.span_id;
  run_id = input.run.run_id;
  generated_run_id = input.run.generated_run_id;
  parent_span_id = input.effective_parent;
  root_span_id = root_span_id;
  root_run_id = root_run_id;
  depth = depth;
  sibling_order = sibling_order;
  subtree_start = subtree_start;
  subtree_end = children.next_order;
  descendant_count = children.descendant_count;
  unresolved_parent = input.unresolved_parent;
  cycle_detected = input.cycle_detected;
}

abbrev pub close_node : RunTreeIndexNode → Visited → Visited
close_node node children = record {
  descendant_count = children.descendant_count;
  next_order = children.next_order + 1;
  pushed = children.pushed ++ (node ∷ []);
}

module _ (inputs : List IndexedRunInput) (root_span_id root_run_id : Text) where
  -- The fuel bounds the depth of the recursion.
  unfoldable pub visit_tree_node : ℕ → ℕ → Text → ℕ → ℕ → Visited
  visit_tree_node zero depth span_id sibling_order order = nothing_at order
  visit_tree_node (suc fuel) depth span_id sibling_order order = elim (find_input inputs span_id) [
    | none ↦ nothing_at order
    | some input ↦
        let children =
          visit_children (visit_tree_node fuel (depth + 1)) (children_of inputs (some span_id)) 0
            (order + 1) in
        close_node (node_of root_span_id root_run_id input depth sibling_order order children)
          children
  ]

abbrev pub root_run_id_of : List IndexedRunInput → Text → Text
root_run_id_of inputs root_span_id = elim (find_input inputs root_span_id) [
  | some input ↦ stable_run_id input.run
  | none ↦ root_span_id
]

-- The loop over the roots, each with its own root ids.
abbrev pub visit_root : List IndexedRunInput → ℕ → Text → ℕ → ℕ → Visited
visit_root inputs fuel root_span_id sibling_order order =
    visit_tree_node inputs root_span_id (root_run_id_of inputs root_span_id) fuel 0 root_span_id
      sibling_order order

abbrev pub insert_node : RunTreeIndexNode → List RunTreeIndexNode → List RunTreeIndexNode
insert_node node [] = node ∷ []
insert_node node (next ∷ sorted) =
    let rest = insert_node node sorted in
    if leb node.subtree_start next.subtree_start then node ∷ next ∷ sorted else next ∷ rest

abbrev pub sort_nodes : List RunTreeIndexNode → List RunTreeIndexNode
sort_nodes [] = []
sort_nodes (node ∷ nodes) = insert_node node (sort_nodes nodes)

abbrev pub index_runs : List RunTreeInput → List IndexedRunInput
index_runs runs = map (index_run runs) runs

-- The nodes before they are sorted by their start. No path of the tree is longer than the list.
abbrev pub visit_roots : List RunTreeInput → List RunTreeIndexNode
visit_roots runs =
    let inputs = index_runs runs in
    (visit_children (visit_root inputs (length runs)) (children_of inputs none) 0 0).pushed

unfoldable pub build_trace_tree_index : List RunTreeInput → List RunTreeIndexNode
build_trace_tree_index runs = sort_nodes (visit_roots (sort_runs runs))
