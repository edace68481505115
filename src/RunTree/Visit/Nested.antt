-- ===== src/RunTree/Visit/Nested.antt =====
-- The intervals that the traversal hands out.
use kevindb.Base.{
  ℕ, zero, suc, ◌+◌, ◌*◌, ◌≤◌, ◌<◌, ◌≡◌, refl, arith, inl, inr, ◌⊎◌, List, [], ◌∷◌, ◌++◌, some,
  length, length-append, All, All-append, All-imp, Option-cases,
}
use kevindb.Base.Text.{Text}
use kevindb.RunTree.{IndexedRunInput, RunTreeIndexNode, find_input, children_of}
use kevindb.RunTree.Visit.{Visited, visit_children, close_node, visit_tree_node, nothing_at}

-- The later node starts behind the earlier one or encloses it.
abbrev pub Laminar : RunTreeIndexNode → RunTreeIndexNode → Type 0
Laminar earlier later =
    (earlier.subtree_end < later.subtree_start)
    ⊎ ((later.subtree_start < earlier.subtree_start) × (earlier.subtree_end < later.subtree_end))

abbrev pub PairwiseLaminar : List RunTreeIndexNode → Type 0
PairwiseLaminar [] = Unit {0}
PairwiseLaminar (node ∷ nodes) = All (Laminar node) nodes × PairwiseLaminar nodes

-- A node's interval lies in the numbers from `low` up to `high`.
abbrev pub Within : ℕ → ℕ → RunTreeIndexNode → Type 0
Within low high node =
    (low ≤ node.subtree_start) × (node.subtree_start < node.subtree_end) × (node.subtree_end < high)

pub record Numbered (order : ℕ) (visited : Visited) : Type 0 where
  pub advanced : visited.next_order ≡ order + 2 * length visited.pushed
  pub within : All (Within order visited.next_order) visited.pushed
  pub laminar : PairwiseLaminar visited.pushed

PairwiseLaminar-append :
    (xs ys : List RunTreeIndexNode)
    → PairwiseLaminar xs
    → PairwiseLaminar ys
    → All (λ x. All (Laminar x) ys) xs
    → PairwiseLaminar (xs ++ ys)
PairwiseLaminar-append [] ys h k between = k
PairwiseLaminar-append (x ∷ xs) ys h k between =
    (All-append (Laminar x) xs ys h.0 between.0, PairwiseLaminar-append xs ys h.1 k between.1)

nothing_at-Numbered : (order : ℕ) → Numbered order (nothing_at order)
nothing_at-Numbered order = record { advanced = omega arith; within = tt; laminar = tt }

pub visit_children-Numbered :
    (visit : Text → ℕ → ℕ → Visited)
    → ((span_id : Text) (i order : ℕ) → Numbered order (visit span_id i order))
    → (children : List Text) (i order : ℕ) → Numbered order (visit_children visit children i order)
visit_children-Numbered visit each [] i order = nothing_at-Numbered order
visit_children-Numbered visit each (child ∷ children) i order =
    let first = visit child i order in
    let rest = visit_children visit children (i + 1) first.next_order in
    let a : Numbered order first = each child i order in
    let b : Numbered first.next_order rest =
      visit_children-Numbered visit each children (i + 1) first.next_order in
    record {
      advanced = omega (arith, a.advanced, b.advanced, length-append first.pushed rest.pushed);
      within =
          All-append (Within order rest.next_order) first.pushed rest.pushed
            (All-imp (Within order first.next_order) (Within order rest.next_order) first.pushed
              (λ n w. omega (arith, w.0, w.1, w.2, b.advanced)) a.within)
            (All-imp (Within first.next_order rest.next_order) (Within order rest.next_order)
              rest.pushed (λ n w. omega (arith, w.0, w.1, w.2, a.advanced)) b.within);
      laminar = PairwiseLaminar-append first.pushed rest.pushed a.laminar b.laminar (
          All-imp (Within order first.next_order) (λ x. All (Laminar x) rest.pushed) first.pushed
            (λ x w.
              All-imp (Within first.next_order rest.next_order) (Laminar x) rest.pushed
                (λ y k. inl (omega (arith, w.2, k.0))) b.within)
            a.within);
    }

close_node-Numbered :
    (node : RunTreeIndexNode) (order : ℕ) (children : Visited)
    → node.subtree_start ≡ order
    → node.subtree_end ≡ children.next_order
    → Numbered (order + 1) children
    → Numbered order (close_node node children)
close_node-Numbered node order children s e a = record {
  advanced = omega (arith, a.advanced, length-append children.pushed (node ∷ []));
  within =
      All-append (Within order (children.next_order + 1)) children.pushed (node ∷ [])
        (All-imp (Within (order + 1) children.next_order) (Within order (children.next_order + 1))
          children.pushed (λ n w. omega (arith, w.0, w.1, w.2)) a.within)
        (omega (arith, a.advanced, s, e), tt);
  laminar =
      PairwiseLaminar-append children.pushed (node ∷ []) a.laminar (tt, tt)
        (All-imp (Within (order + 1) children.next_order) (λ x. All (Laminar x) (node ∷ []))
          children.pushed (λ x w. (inr (omega (arith, w.0, s), omega (arith, w.2, e)), tt))
          a.within);
}

module _ (inputs : List IndexedRunInput) (root_span_id root_run_id : Text) where
  pub visit_tree_node-Numbered :
      (fuel depth : ℕ) (span_id : Text) (i order : ℕ)
      → Numbered order (visit_tree_node inputs root_span_id root_run_id fuel depth span_id i order)
  unfolding visit_tree_node
  visit_tree_node-Numbered zero depth span_id i order = nothing_at-Numbered order
  visit_tree_node-Numbered (suc fuel) depth span_id i order =
      elim (Option-cases (find_input inputs span_id)) [
        | inl missing ↦ rw (visit_tree_node, missing) (nothing_at-Numbered order)
        | inr (input, found) ↦
            rw (visit_tree_node, found)
              (close_node-Numbered _ order _ refl refl (
                visit_children-Numbered
                  (visit_tree_node inputs root_span_id root_run_id fuel (depth + 1))
                  (visit_tree_node-Numbered fuel (depth + 1)) (children_of inputs (some span_id)) 0
                  (order + 1)))
      ]
