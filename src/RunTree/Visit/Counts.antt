-- ===== src/RunTree/Visit/Counts.antt =====
-- The descendants that the nodes of src/ingest/tree.rs count.
use kevindb.Base.{
  ℕ, zero, suc, ◌+◌, ◌*◌, ◌≤◌, ◌≡◌, refl, arith, inl, inr, true, none, some, List, [], ◌∷◌, length,
  length-append, All, All-append, All-imp, Option-cases,
}
use kevindb.Base.Text.{Text}
use kevindb.Search.Query.{one_of}
use kevindb.Search.Query.Tokens.{Distinct}
use kevindb.RunTree.{RunTreeInput, RunTreeIndexNode, known_ids, find_input, children_of, sort_runs}
use kevindb.RunTree.Cycle.{Among, Distinct-length, IsChain, length-known_ids}
use kevindb.RunTree.Order.{sort_runs-Distinct}
use kevindb.RunTree.Family.{find_input-known, ChildOf}
use kevindb.RunTree.Rooted.{chain-Distinct, parent_in-some}
use kevindb.RunTree.Visit.{
  Visited, visit_children, node_of, close_node, visit_tree_node, visit_root, visit_roots,
  index_runs, root_run_id_of, build_trace_tree_index,
}
use kevindb.RunTree.Visit.Nested.{Numbered, visit_tree_node-Numbered, visit_children-Numbered}
use kevindb.RunTree.Visit.Sorted.{All-sort_nodes}
use kevindb.RunTree.Visit.Parents.{children_good}

-- The interval has two numbers for each node in it.
abbrev pub CountsInterval : RunTreeIndexNode → Type 0
CountsInterval node = node.subtree_end ≡ node.subtree_start + 2 * node.descendant_count + 1

record Counted (visited : Visited) (own : ℕ) : Type 0 where
  count : visited.descendant_count + own ≡ length visited.pushed
  intervals : All CountsInterval visited.pushed

visit_children-Counted :
    (Good : Text → Type 0) (visit : Text → ℕ → ℕ → Visited)
    → ((c : Text) → Good c → (i order : ℕ) → Counted (visit c i order) 1)
    → (children : List Text) → All Good children
    → (i order : ℕ) → Counted (visit_children visit children i order) 0
visit_children-Counted Good visit each [] good i order = record {
  count = omega arith;
  intervals = tt;
}
visit_children-Counted Good visit each (child ∷ children) good i order =
    let first = visit child i order in
    let rest = visit_children visit children (i + 1) first.next_order in
    let a = each child good.0 i order in
    let b = visit_children-Counted Good visit each children good.1 (i + 1) first.next_order in
    record {
      count = omega (arith, a.count, b.count, length-append first.pushed rest.pushed);
      intervals = All-append CountsInterval first.pushed rest.pushed a.intervals b.intervals;
    }

close_node-Counted :
    (node : RunTreeIndexNode) (children : Visited) (order : ℕ)
    → node.subtree_start ≡ order
    → node.subtree_end ≡ children.next_order
    → node.descendant_count ≡ children.descendant_count
    → Numbered (order + 1) children
    → Counted children 0
    → Counted (close_node node children) 1
close_node-Counted node children order s e d numbered counted = record {
  count = omega (arith, counted.count, length-append children.pushed (node ∷ []));
  intervals =
      All-append CountsInterval children.pushed (node ∷ []) counted.intervals
        (omega (arith, s, e, d, numbered.advanced, counted.count), tt);
}

module _ (runs : List RunTreeInput) (distinct : Distinct (known_ids runs)) where
  -- The levels under a span are fewer than the number.
  abbrev Deep : ℕ → Text → Type 0
  Deep zero s = ⊥
  Deep (suc n) s =
      (one_of (known_ids runs) s ≡ true) × All (Deep n) (children_of (index_runs runs) (some s))

  levels_suffice :
      (n : ℕ) (s : Text) (path : List Text)
      → IsChain runs (s ∷ path)
      → Distinct (s ∷ path)
      → Among (known_ids runs) (s ∷ path)
      → length runs ≤ n + length path
      → Deep n s
  levels_suffice zero s path chain d among long =
      let short = Distinct-length (s ∷ path) (known_ids runs) d among in
      absurd (omega (arith, short, length-known_ids runs))
  levels_suffice (suc n) s path chain d among long = (
    among.0,
    All-imp (ChildOf runs (some s)) (Deep n) (children_of (index_runs runs) (some s))
        (λ c child.
          levels_suffice n c (s ∷ path) ((parent_in-some runs c s child.0).0, chain)
            (chain-Distinct runs c s path child.0 chain d among) (child.1, among)
            (omega (arith, long)))
        (children_good runs distinct (some s)),
  )

  module _ (root_span_id root_run_id : Text) where
    visit_tree_node-Counted :
        (n depth : ℕ) (s : Text)
        → Deep n s
        → (i order : ℕ)
        → Counted (visit_tree_node (index_runs runs) root_span_id root_run_id n depth s i order) 1
    unfolding visit_tree_node
    visit_tree_node-Counted zero depth s deep i order = absurd deep
    visit_tree_node-Counted (suc n) depth s deep i order =
        elim (Option-cases (find_input (index_runs runs) s)) [
          | inl missing ↦ absurd (find_input-known runs runs s deep.0 missing)
          | inr (input, found) ↦
              let visit =
                visit_tree_node (index_runs runs) root_span_id root_run_id n (depth + 1) in
              let listed = children_of (index_runs runs) (some s) in
              let children = visit_children visit listed 0 (order + 1) in
              rw (visit_tree_node, found)
                (close_node-Counted (node_of root_span_id root_run_id input depth i order children)
                  children order refl refl refl
                  (visit_children-Numbered visit
                    (visit_tree_node-Numbered (index_runs runs) root_span_id root_run_id n
                      (depth + 1))
                    listed 0 (order + 1))
                  (visit_children-Counted (Deep n) visit (visit_tree_node-Counted n (depth + 1))
                    listed deep.1 0 (order + 1)))
        ]

  visit_roots-CountsInterval : All CountsInterval (visit_roots runs)
  visit_roots-CountsInterval =
      (visit_children-Counted (ChildOf runs none) (visit_root (index_runs runs) (length runs))
        (λ r good i order.
          visit_tree_node-Counted r (root_run_id_of (index_runs runs) r) (length runs) 0 r
            (levels_suffice (length runs) r [] tt (tt, tt) (good.1, tt) (omega arith)) i order)
        (children_of (index_runs runs) none) (children_good runs distinct none) 0 0).intervals

-- When the span ids of the runs are different, the interval of each node of the index has two numbers
-- for each descendant that the node counts, and its own two.
pub build_trace_tree_index-CountsInterval :
    (runs : List RunTreeInput)
    → Distinct (known_ids runs)
    → All CountsInterval (build_trace_tree_index runs)
unfolding build_trace_tree_index
build_trace_tree_index-CountsInterval runs distinct =
    All-sort_nodes CountsInterval (visit_roots (sort_runs runs))
      (visit_roots-CountsInterval (sort_runs runs) (sort_runs-Distinct runs distinct))
