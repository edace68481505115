-- ===== src/RunTree/Visit/Parents.antt =====
-- What the nodes of src/ingest/tree.rs say of their parents.
use kevindb.Base.{
  ℕ, zero, suc, ◌+◌, ◌<◌, ◌≡◌, refl, sym, ◌∙◌, subst, arith, inl, inr, ◌⊎◌, Option, none, some,
  List, [], ◌∷◌, ◌++◌, length, All, All-append, Any, Any-append_left, Any-append_right, All-imp,
  Option-cases, Bool-cases, leb,
}
use kevindb.Base.Text.{Text}
use kevindb.Search.Query.Tokens.{Distinct}
use kevindb.RunTree.{RunTreeInput, RunTreeIndexNode, known_ids, find_input, children_of, sort_runs}
use kevindb.RunTree.Order.{sort_runs-Distinct}
use kevindb.RunTree.Family.{
  parent_in, all_Listed, all_known, ChildOf, children_of-ChildOf, find_input-InputOf,
}
use kevindb.RunTree.Visit.{
  Visited, visit_children, node_of, close_node, visit_tree_node, visit_root, visit_roots,
  insert_node, sort_nodes, index_runs, root_run_id_of, build_trace_tree_index,
}
use kevindb.RunTree.Visit.Nested.{Within, visit_tree_node-Numbered, visit_children-Numbered}
use kevindb.RunTree.Visit.Sorted.{All-sort_nodes}

-- `parent` is the parent that `node` names: one level up, in the same tree, around it.
abbrev pub ParentOf : RunTreeIndexNode → RunTreeIndexNode → Type 0
ParentOf node parent =
    (node.parent_span_id ≡ some parent.span_id)
    × (node.depth ≡ parent.depth + 1)
    × (node.root_span_id ≡ parent.root_span_id)
    × (parent.subtree_start < node.subtree_start)
    × (node.subtree_end < parent.subtree_end)

-- A node at the top of a list, or one whose parent is in the list.
abbrev pub Hangs : (RunTreeIndexNode → Type 0) → List RunTreeIndexNode → RunTreeIndexNode → Type 0
Hangs Top nodes node = Top node ⊎ Any (ParentOf node) nodes

abbrev Under : Text → ℕ → RunTreeIndexNode → Type 0
Under s depth node = (node.parent_span_id ≡ some s) × (node.depth ≡ depth)

Hangs-imp :
    (Top : RunTreeIndexNode → Type 0) (nodes more some_nodes : List RunTreeIndexNode)
    → ((P : RunTreeIndexNode → Type 0) → Any P nodes → Any P more)
    → All (Hangs Top nodes) some_nodes
    → All (Hangs Top more) some_nodes
Hangs-imp Top nodes more some_nodes wider =
    All-imp (Hangs Top nodes) (Hangs Top more) some_nodes (λ node h. either node h)
  where
    either : (node : RunTreeIndexNode) → Hangs Top nodes node → Hangs Top more node
    either node (inl top) = inl top
    either node (inr found) = inr (wider (ParentOf node) found)

Hangs-append :
    (Top : RunTreeIndexNode → Type 0) (xs ys : List RunTreeIndexNode)
    → All (Hangs Top xs) xs
    → All (Hangs Top ys) ys
    → All (Hangs Top (xs ++ ys)) (xs ++ ys)
Hangs-append Top xs ys h k =
    All-append (Hangs Top (xs ++ ys)) xs ys
      (Hangs-imp Top xs (xs ++ ys) xs (λ P. Any-append_left P xs ys) h)
      (Hangs-imp Top ys (xs ++ ys) ys (λ P. Any-append_right P xs ys) k)

-- The calls for the children, each of which has the parent.
visit_children-Hangs :
    (Good : Text → Type 0) (Sure : RunTreeIndexNode → Type 0) (Top : RunTreeIndexNode → Type 0)
    (visit : Text → ℕ → ℕ → Visited)
    → ((c : Text)
        → Good c
        → (i order : ℕ)
        → All Sure (visit c i order).pushed
          × All (Hangs Top (visit c i order).pushed) (visit c i order).pushed)
    → (children : List Text) → All Good children
    → (i order : ℕ)
    → All Sure (visit_children visit children i order).pushed
      × All
          (Hangs Top (visit_children visit children i order).pushed)
          (visit_children visit children i order).pushed
visit_children-Hangs Good Sure Top visit each [] good i order = (tt, tt)
visit_children-Hangs Good Sure Top visit each (child ∷ children) good i order =
    let first = visit child i order in
    let rest = visit_children visit children (i + 1) first.next_order in
    let a = each child good.0 i order in
    let b =
      visit_children-Hangs Good Sure Top visit each children good.1 (i + 1) first.next_order in
    (
      All-append Sure first.pushed rest.pushed a.0 b.0,
      Hangs-append Top first.pushed rest.pushed a.1 b.1,
    )

-- A node takes the nodes of its children under it.
close_node-Hangs :
    (Top : RunTreeIndexNode → Type 0) (node : RunTreeIndexNode) (children : Visited)
    → All (λ n. n.root_span_id ≡ node.root_span_id) children.pushed
    → All (Within (node.subtree_start + 1) node.subtree_end) children.pushed
    → All (Hangs (Under node.span_id (node.depth + 1)) children.pushed) children.pushed
    → Top node
    → All (Hangs Top (close_node node children).pushed) (close_node node children).pushed
close_node-Hangs Top node children same inside hang top =
    All-append (Hangs Top all) children.pushed (node ∷ []) (go children.pushed same inside hang)
      (inl top, tt)
  where
    all : List RunTreeIndexNode
    all = children.pushed ++ (node ∷ [])

    go :
        (some_nodes : List RunTreeIndexNode)
        → All (λ n. n.root_span_id ≡ node.root_span_id) some_nodes
        → All (Within (node.subtree_start + 1) node.subtree_end) some_nodes
        → All (Hangs (Under node.span_id (node.depth + 1)) children.pushed) some_nodes
        → All (Hangs Top (children.pushed ++ (node ∷ []))) some_nodes
    go [] same inside hang = tt
    go (n ∷ some_nodes) (r, same) (w, inside) (inl (p, d), hang) = (
      inr (
          Any-append_right (ParentOf n) children.pushed (node ∷ [])
            (inl (p, d, r, omega (arith, w.0), w.2))),
      go some_nodes same inside hang,
    )
    go (n ∷ some_nodes) (r, same) (w, inside) (inr found, hang) = (
      inr (Any-append_left (ParentOf n) children.pushed (node ∷ []) found),
      go some_nodes same inside hang,
    )

module _ (runs : List RunTreeInput) (distinct : Distinct (known_ids runs)) where
  pub children_good :
      (parent : Option Text) → All (ChildOf runs parent) (children_of (index_runs runs) parent)
  children_good parent =
      children_of-ChildOf runs runs parent (all_Listed runs distinct) (all_known runs)

  module _ (root_span_id root_run_id : Text) where
    abbrev InTree : RunTreeIndexNode → Type 0
    InTree node = node.root_span_id ≡ root_span_id

    visit_tree_node-Hangs :
        (fuel depth : ℕ) (s : Text) (Top : RunTreeIndexNode → Type 0)
        → ((node : RunTreeIndexNode)
            → node.span_id ≡ s
            → node.parent_span_id ≡ parent_in runs s
            → node.depth ≡ depth
            → InTree node
            → Top node)
        → (i order : ℕ)
        → All InTree
            (visit_tree_node (index_runs runs) root_span_id root_run_id fuel depth s i order).pushed
          × All
              (Hangs Top
                (visit_tree_node
                  (index_runs runs)
                  root_span_id
                  root_run_id
                  fuel
                  depth
                  s
                  i
                  order).pushed)
              (visit_tree_node
                (index_runs runs)
                root_span_id
                root_run_id
                fuel
                depth
                s
                i
                order).pushed
    unfolding visit_tree_node
    visit_tree_node-Hangs zero depth s Top top i order = (tt, tt)
    visit_tree_node-Hangs (suc fuel) depth s Top top i order =
        elim (Option-cases (find_input (index_runs runs) s)) [
          | inl missing ↦ rw (visit_tree_node, missing) (tt, tt)
          | inr (input, found) ↦
              let it = find_input-InputOf runs runs s input (all_Listed runs distinct) found in
              let visit =
                visit_tree_node (index_runs runs) root_span_id root_run_id fuel (depth + 1) in
              let listed = children_of (index_runs runs) (some s) in
              let children = visit_children visit listed 0 (order + 1) in
              let node = node_of root_span_id root_run_id input depth i order children in
              let a =
                visit_children-Hangs (ChildOf runs (some s)) InTree (Under s (depth + 1)) visit
                  (λ c good.
                    visit_tree_node-Hangs fuel (depth + 1) c (Under s (depth + 1))
                      (λ n e p d r. (p ∙ good.0, d)))
                  listed (children_good (some s)) 0 (order + 1) in
              let b =
                visit_children-Numbered visit
                  (visit_tree_node-Numbered (index_runs runs) root_span_id root_run_id fuel
                    (depth + 1))
                  listed 0 (order + 1) in
              rw (visit_tree_node, found)
                (
                  All-append InTree children.pushed (node ∷ []) a.0 (refl, tt),
                  close_node-Hangs Top node children a.0 b.within
                      (subst
                        (λ t. All (Hangs (Under t (depth + 1)) children.pushed) children.pushed)
                        (sym it.0) a.1)
                      (top node it.0 it.1 refl refl),
                )
        ]

-- A node without a parent, at the top of its own tree.
abbrev pub IsRoot : RunTreeIndexNode → Type 0
IsRoot node = (node.parent_span_id ≡ none) × (node.depth ≡ 0) × (node.root_span_id ≡ node.span_id)

visit_roots-Hangs :
    (runs : List RunTreeInput)
    → Distinct (known_ids runs)
    → All (Hangs IsRoot (visit_roots runs)) (visit_roots runs)
visit_roots-Hangs runs distinct =
    (visit_children-Hangs (ChildOf runs none) (λ node. Unit {0}) IsRoot
      (visit_root (index_runs runs) (length runs))
      (λ r good i order.
        let h =
          visit_tree_node-Hangs runs distinct r (root_run_id_of (index_runs runs) r) (length runs) 0
            r IsRoot (λ n e p d t. (p ∙ good.0, d, t ∙ sym e)) i order in
        (All-imp _ (λ node. Unit {0}) _ (λ n u. tt) h.0, h.1))
      (children_of (index_runs runs) none) (children_good runs distinct none) 0 0).1

Any-insert_node :
    (P : RunTreeIndexNode → Type 0) (node : RunTreeIndexNode) (nodes : List RunTreeIndexNode)
    → Any P (node ∷ nodes)
    → Any P (insert_node node nodes)
Any-insert_node P node [] h = h
Any-insert_node P node (next ∷ nodes) h =
    elim (Bool-cases (leb node.subtree_start next.subtree_start)) [
      | inl before ↦ rw before h
      | inr after ↦ rw after (elim h [
        | inl here ↦ inr (Any-insert_node P node nodes (inl here))
        | inr (inl second) ↦ inl second
        | inr (inr rest) ↦ inr (Any-insert_node P node nodes (inr rest))
      ])
    ]

Any-sort_nodes :
    (P : RunTreeIndexNode → Type 0) (nodes : List RunTreeIndexNode)
    → Any P nodes
    → Any P (sort_nodes nodes)
Any-sort_nodes P [] h = h
Any-sort_nodes P (node ∷ nodes) (inl here) = Any-insert_node P node (sort_nodes nodes) (inl here)
Any-sort_nodes P (node ∷ nodes) (inr rest) =
    Any-insert_node P node (sort_nodes nodes) (inr (Any-sort_nodes P nodes rest))

-- When the span ids of the runs are different, each node of the index is a root, without a parent,
-- at depth 0 and with its own span id as its root's, or the node of the parent that it names is
-- in the index: one level up, with the same root, and with an interval strictly around the node's.
pub build_trace_tree_index-parents :
    (runs : List RunTreeInput)
    → Distinct (known_ids runs)
    → All (Hangs IsRoot (build_trace_tree_index runs)) (build_trace_tree_index runs)
unfolding build_trace_tree_index
build_trace_tree_index-parents runs distinct =
    let nodes = visit_roots (sort_runs runs) in
    All-sort_nodes (Hangs IsRoot (sort_nodes nodes)) nodes (
      Hangs-imp IsRoot nodes (sort_nodes nodes) nodes (λ P. Any-sort_nodes P nodes)
        (visit_roots-Hangs (sort_runs runs) (sort_runs-Distinct runs distinct)))
