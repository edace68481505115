-- ===== src/RunTree/Visit/Sorted.antt =====
-- The order in which `build_trace_tree_index` leaves the nodes.
use kevindb.Base.{
  ℕ, suc, ◌*◌, ◌<◌, ◌≡◌, refl, ap, ◌∙◌, arith, inl, inr, ◌⊎◌, false, none, List, [], ◌∷◌, leb,
  leb→le, length, All, All-imp, Bool-cases,
}
use kevindb.RunTree.{RunTreeInput, RunTreeIndexNode, sort_runs, children_of}
use kevindb.RunTree.Visit.{
  visit_children, visit_root, visit_roots, insert_node, sort_nodes, index_runs, root_run_id_of,
  build_trace_tree_index,
}
use kevindb.RunTree.Visit.Nested.{
  Laminar, PairwiseLaminar, Within, Numbered, visit_tree_node-Numbered, visit_children-Numbered,
}

-- The node with the smaller start comes first, and the later one lies behind it or inside.
abbrev pub Preorder : RunTreeIndexNode → RunTreeIndexNode → Type 0
Preorder first second =
    (first.subtree_start < second.subtree_start)
    × ((first.subtree_end < second.subtree_start) ⊎ (second.subtree_end < first.subtree_end))

abbrev Apart : RunTreeIndexNode → RunTreeIndexNode → Type 0
Apart a b = Preorder a b ⊎ Preorder b a

abbrev pub InPreorder : List RunTreeIndexNode → Type 0
InPreorder [] = Unit {0}
InPreorder (node ∷ nodes) = All (Preorder node) nodes × InPreorder nodes

abbrev PairwiseApart : List RunTreeIndexNode → Type 0
PairwiseApart [] = Unit {0}
PairwiseApart (node ∷ nodes) = All (Apart node) nodes × PairwiseApart nodes

Laminar-Apart :
    (low high : ℕ) (a b : RunTreeIndexNode)
    → Within low high a
    → Within low high b
    → Laminar a b
    → Apart a b
Laminar-Apart low high a b v w (inl l) = inl (omega (arith, v.1, l), inl l)
Laminar-Apart low high a b v w (inr l) = inr (l.0, inr l.1)

Laminar-Apart_all :
    (low high : ℕ) (a : RunTreeIndexNode) (nodes : List RunTreeIndexNode)
    → Within low high a
    → All (Within low high) nodes
    → All (Laminar a) nodes
    → All (Apart a) nodes
Laminar-Apart_all low high a [] v w l = tt
Laminar-Apart_all low high a (b ∷ nodes) v w l =
    (Laminar-Apart low high a b v w.0 l.0, Laminar-Apart_all low high a nodes v w.1 l.1)

PairwiseLaminar-Apart :
    (low high : ℕ) (nodes : List RunTreeIndexNode)
    → All (Within low high) nodes
    → PairwiseLaminar nodes
    → PairwiseApart nodes
PairwiseLaminar-Apart low high [] w l = tt
PairwiseLaminar-Apart low high (a ∷ nodes) w l =
    (Laminar-Apart_all low high a nodes w.0 w.1 l.0, PairwiseLaminar-Apart low high nodes w.1 l.1)

pub All-insert_node :
    (P : RunTreeIndexNode → Type 0) (node : RunTreeIndexNode) (nodes : List RunTreeIndexNode)
    → P node
    → All P nodes
    → All P (insert_node node nodes)
All-insert_node P node [] p h = (p, tt)
All-insert_node P node (next ∷ nodes) p h =
    elim (Bool-cases (leb node.subtree_start next.subtree_start)) [
      | inl before ↦ rw before (p, (h.0, h.1))
      | inr after ↦ rw after (h.0, All-insert_node P node nodes p h.1)
    ]

pub All-sort_nodes :
    (P : RunTreeIndexNode → Type 0) (nodes : List RunTreeIndexNode)
    → All P nodes
    → All P (sort_nodes nodes)
All-sort_nodes P [] h = tt
All-sort_nodes P (node ∷ nodes) h =
    All-insert_node P node (sort_nodes nodes) h.0 (All-sort_nodes P nodes h.1)

-- The sides are told apart by the starts.
Apart-first :
    (a b : RunTreeIndexNode) → Apart a b → (b.subtree_start < a.subtree_start → ⊥) → Preorder a b
Apart-first a b (inl p) h = p
Apart-first a b (inr p) h = absurd (h p.0)

Preorder-rest :
    (node next : RunTreeIndexNode) (nodes : List RunTreeIndexNode)
    → node.subtree_start < next.subtree_start
    → All (Preorder next) nodes
    → All (Apart node) nodes
    → All (Preorder node) nodes
Preorder-rest node next [] s h k = tt
Preorder-rest node next (other ∷ nodes) s h k = (
  Apart-first node other k.0 (λ e. omega (arith, h.0.0)),
  Preorder-rest node next nodes s h.1 k.1,
)

insert_node-InPreorder :
    (node : RunTreeIndexNode) (nodes : List RunTreeIndexNode)
    → All (Apart node) nodes
    → InPreorder nodes
    → InPreorder (insert_node node nodes)
insert_node-InPreorder node [] k h = (tt, tt)
insert_node-InPreorder node (next ∷ nodes) k h =
    elim (Bool-cases (leb node.subtree_start next.subtree_start)) [
      | inl before ↦
          let le = leb→le node.subtree_start next.subtree_start before in
          let p : Preorder node next = Apart-first node next k.0 (λ e. omega arith) in
          rw before ((p, Preorder-rest node next nodes p.0 h.0 k.1), h)
      | inr after ↦ rw after (
        All-insert_node (Preorder next) node nodes (behind k.0 after) h.0,
        insert_node-InPreorder node nodes k.1 h.1,
      )
    ]
  where
    behind :
        Apart node next → leb node.subtree_start next.subtree_start ≡ false → Preorder next node
    behind (inr p) after = p
    behind (inl p) after = absurd (ground arith)

sort_nodes-InPreorder :
    (nodes : List RunTreeIndexNode) → PairwiseApart nodes → InPreorder (sort_nodes nodes)
sort_nodes-InPreorder [] h = tt
sort_nodes-InPreorder (node ∷ nodes) h =
    insert_node-InPreorder node (sort_nodes nodes) (All-sort_nodes (Apart node) nodes h.0)
      (sort_nodes-InPreorder nodes h.1)

length-insert_node :
    (node : RunTreeIndexNode) (nodes : List RunTreeIndexNode)
    → length (insert_node node nodes) ≡ suc (length nodes)
length-insert_node node [] = refl
length-insert_node node (next ∷ nodes) =
    elim (Bool-cases (leb node.subtree_start next.subtree_start)) [
      | inl before ↦ rw before refl
      | inr after ↦ rw (after, length-insert_node node nodes) refl
    ]

pub length-sort_nodes : (nodes : List RunTreeIndexNode) → length (sort_nodes nodes) ≡ length nodes
length-sort_nodes [] = refl
length-sort_nodes (node ∷ nodes) =
    length-insert_node node (sort_nodes nodes) ∙ ap suc (length-sort_nodes nodes)

roots-Numbered :
    (runs : List RunTreeInput)
    → Numbered 0 (
        visit_children
          (visit_root (index_runs runs) (length runs))
          (children_of (index_runs runs) none)
          0
          0)
roots-Numbered runs =
    let inputs = index_runs runs in
    visit_children-Numbered (visit_root inputs (length runs))
      (λ span_id i order.
        visit_tree_node-Numbered inputs span_id (root_run_id_of inputs span_id) (length runs) 0
          span_id i order)
      (children_of inputs none) 0 0

-- The intervals of the index are an interval numbering of a forest in preorder: a node starts before
-- each node that follows it in the result, and that node's interval lies behind its own or inside
-- it. All starts and ends are below twice the number of nodes, a start before its end.
pub build_trace_tree_index-InPreorder :
    (runs : List RunTreeInput)
    → InPreorder (build_trace_tree_index runs)
      × All (Within 0 (2 * length (build_trace_tree_index runs))) (build_trace_tree_index runs)
unfolding build_trace_tree_index
build_trace_tree_index-InPreorder runs =
    let sorted = sort_runs runs in
    let nodes = visit_roots sorted in
    let a = roots-Numbered sorted in
    (
      sort_nodes-InPreorder nodes (PairwiseLaminar-Apart 0 _ nodes a.within a.laminar),
      All-sort_nodes _ nodes (
          All-imp _ (Within 0 (2 * length (sort_nodes nodes))) nodes
            (λ n w. omega (arith, w.0, w.1, w.2, a.advanced, length-sort_nodes nodes)) a.within),
    )
