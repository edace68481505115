-- ===== src/RunTree/Visit/Complete.antt =====
-- The runs that `build_trace_tree_index` of src/ingest/tree.rs makes nodes of.
use kevindb.Base.{
  ℕ, zero, suc, ◌+◌, ◌≡◌, refl, sym, ap, ◌∙◌, subst, arith, inl, inr, ◌⊎◌, Bool, true, false, ◌||◌,
  Option, none, some, List, [], ◌∷◌, ◌++◌, leb, length, All, Bool-cases, Option-cases,
}
use kevindb.Base.Text.{Text, text_eq, text_eq→eq, text_eq_refl}
use kevindb.Search.Query.{one_of}
use kevindb.Search.Query.Tokens.{Distinct}
use kevindb.RunTree.{RunTreeInput, RunTreeIndexNode, known_ids, find_input, children_of, sort_runs}
use kevindb.RunTree.Order.{one_of-sort_runs, sort_runs-Distinct}
use kevindb.RunTree.Family.{
  parent_in, all_Listed, all_known, ChildOf, children_of-ChildOf, one_of-children_of,
  find_input-InputOf, find_input-known,
}
use kevindb.RunTree.Rooted.{above, above-some, length-above, parent_in-some}
use kevindb.RunTree.Visit.{
  Visited, visit_children, node_of, close_node, visit_tree_node, visit_root, visit_roots,
  insert_node, sort_nodes, index_runs, root_run_id_of, build_trace_tree_index,
}

abbrev pub node_ids : List RunTreeIndexNode → List Text
node_ids [] = []
node_ids (node ∷ nodes) = node.span_id ∷ node_ids nodes

pub or_right_true : (a b : Bool) → b ≡ true → (a || b) ≡ true
or_right_true true b h = refl
or_right_true false b h = h

pub one_of-append_left :
    (xs ys : List RunTreeIndexNode) (x : Text)
    → one_of (node_ids xs) x ≡ true
    → one_of (node_ids (xs ++ ys)) x ≡ true
one_of-append_left [] ys x h = cc
one_of-append_left (node ∷ xs) ys x h = elim (Bool-cases (text_eq node.span_id x)) [
  | inl e ↦ rw e refl
  | inr e ↦ rw e (one_of-append_left xs ys x (rw e at h))
]

pub one_of-append_right :
    (xs ys : List RunTreeIndexNode) (x : Text)
    → one_of (node_ids ys) x ≡ true
    → one_of (node_ids (xs ++ ys)) x ≡ true
one_of-append_right [] ys x h = h
one_of-append_right (node ∷ xs) ys x h =
    or_right_true (text_eq node.span_id x) _ (one_of-append_right xs ys x h)

-- A call for a child that makes a node of a span makes it under the parent too.
visit_children-Reaches :
    (visit : Text → ℕ → ℕ → Visited) (children : List Text) (c x : Text)
    → one_of children c ≡ true
    → ((i order : ℕ) → one_of (node_ids (visit c i order).pushed) x ≡ true)
    → (i order : ℕ) → one_of (node_ids (visit_children visit children i order).pushed) x ≡ true
visit_children-Reaches visit [] c x h each i order = cc
visit_children-Reaches visit (child ∷ children) c x h each i order =
    let first = visit child i order in
    let rest = visit_children visit children (i + 1) first.next_order in
    elim (Bool-cases (text_eq child c)) [
      | inl e ↦
          let same : child ≡ c = text_eq→eq child c e in
          one_of-append_left first.pushed rest.pushed x
            (ap (λ t. one_of (node_ids (visit t i order).pushed) x) same ∙ each i order)
      | inr e ↦
          one_of-append_right first.pushed rest.pushed x
            (visit_children-Reaches visit children c x (rw e at h) each (i + 1) first.next_order)
    ]

pub All-one_of :
    (P : Text → Type 0) (ys : List Text) (x : Text) → All P ys → one_of ys x ≡ true → P x
All-one_of P [] x h k = absurd (false_true k)
  where
    false_true : false ≡ true → ⊥
    false_true e = cc
All-one_of P (y ∷ ys) x h k = elim (Bool-cases (text_eq y x)) [
  | inl e ↦ subst P (text_eq→eq y x e) h.0
  | inr e ↦ All-one_of P ys x h.1 (rw e at k)
]

close_node_self :
    (node : RunTreeIndexNode) (children : Visited) (x : Text)
    → node.span_id ≡ x
    → one_of (node_ids (close_node node children).pushed) x ≡ true
close_node_self node children x e =
    one_of-append_right children.pushed (node ∷ []) x
      (rw (ap (λ t. text_eq t x) e, text_eq_refl x) refl)

close_node-child :
    (node : RunTreeIndexNode) (children : Visited) (x : Text)
    → one_of (node_ids children.pushed) x ≡ true
    → one_of (node_ids (close_node node children).pushed) x ≡ true
close_node-child node children x = one_of-append_left children.pushed (node ∷ []) x

module _ (runs : List RunTreeInput) where
  -- A way down from one span to another, by the children, in fewer steps than the number.
  abbrev Reaches : ℕ → Text → Text → Type 0
  Reaches zero s x = ⊥
  Reaches (suc n) s x =
      (s ≡ x)
      ⊎ ((c : Text) × ((one_of (children_of (index_runs runs) (some s)) c ≡ true) × Reaches n c x))

  Reaches-further :
      (n : ℕ) (s p x : Text)
      → Reaches n s p
      → one_of (children_of (index_runs runs) (some p)) x ≡ true
      → Reaches (suc n) s x
  Reaches-further zero s p x r k = absurd r
  Reaches-further (suc n) s p x (inl e) k =
      inr (x, (ap (λ t. one_of (children_of (index_runs runs) (some t)) x) e ∙ k, inl refl))
  Reaches-further (suc n) s p x (inr (c, (h, r))) k = inr (c, (h, Reaches-further n c p x r k))

  abbrev Root : ℕ → Text → Text → Type 0
  Root n x r = (parent_in runs r ≡ none) × (one_of (known_ids runs) r ≡ true) × Reaches n r x

  module _ (distinct : Distinct (known_ids runs)) where
    -- A known span's parents end at a root, or there are as many as asked for.
    climb :
        (n : ℕ) (x : Text)
        → one_of (known_ids runs) x ≡ true
        → ((r : Text) × Root n x r) ⊎ (length (above runs n x) ≡ n)
    climb zero x k = inr refl
    climb (suc n) x k = elim (Option-cases (parent_in runs x)) [
      | inl root ↦ inl (x, (root, k, inl refl))
      | inr (p, e) ↦ elim (climb n p (parent_in-some runs x p e).1) [
        | inr full ↦ inr (ap length (above-some runs n x p e) ∙ ap suc full)
        | inl (r, (root, known, reached)) ↦
            let listed = one_of-children_of runs runs x (all_Listed runs distinct) k in
            inl (
              r,
              (
                root,
                known,
                Reaches-further n r p x reached
                    (ap (λ q. one_of (children_of (index_runs runs) q) x) (sym e) ∙ listed),
              ),
            )
      ]
    ]

    top_of : (x : Text) → one_of (known_ids runs) x ≡ true → (r : Text) × Root (length runs) x r
    top_of x k = elim (climb (length runs) x k) [
      | inl found ↦ found
      | inr full ↦ absurd (omega (arith, full, length-above runs (length runs) x k))
    ]

    child_known :
        (parent : Option Text) (c : Text)
        → one_of (children_of (index_runs runs) parent) c ≡ true
        → one_of (known_ids runs) c ≡ true
    child_known parent c listed =
        let children =
          children_of-ChildOf runs runs parent (all_Listed runs distinct) (all_known runs) in
        (All-one_of (ChildOf runs parent) (children_of (index_runs runs) parent) c children
          listed).1

    module _ (root_span_id root_run_id : Text) where
      visit_tree_node-Reaches :
          (n : ℕ) (s x : Text)
          → one_of (known_ids runs) s ≡ true
          → Reaches n s x
          → (depth i order : ℕ)
          → one_of
              (node_ids
                (visit_tree_node
                  (index_runs runs)
                  root_span_id
                  root_run_id
                  n
                  depth
                  s
                  i
                  order).pushed)
              x
            ≡ true
      unfolding visit_tree_node
      visit_tree_node-Reaches zero s x k r depth i order = absurd r
      visit_tree_node-Reaches (suc n) s x k r depth i order =
          elim (Option-cases (find_input (index_runs runs) s)) [
            | inl missing ↦ absurd (find_input-known runs runs s k missing)
            | inr (input, found) ↦
                let it = find_input-InputOf runs runs s input (all_Listed runs distinct) found in
                let visit =
                  visit_tree_node (index_runs runs) root_span_id root_run_id n (depth + 1) in
                let children =
                  visit_children visit (children_of (index_runs runs) (some s)) 0 (order + 1) in
                let node = node_of root_span_id root_run_id input depth i order children in
                rw (visit_tree_node, found)
                  (elim r [
                    | inl same ↦ close_node_self node children x (it.0 ∙ same)
                    | inr (c, (listed, reached)) ↦ close_node-child node children x (
                        visit_children-Reaches visit (children_of (index_runs runs) (some s)) c x
                          listed
                          (visit_tree_node-Reaches n c x (child_known (some s) c listed) reached
                            (depth + 1))
                          0 (order + 1))
                  ])
          ]

    -- Every run has a node, before the nodes are sorted.
    visit_roots-Reaches :
        (x : Text)
        → one_of (known_ids runs) x ≡ true
        → one_of (node_ids (visit_roots runs)) x ≡ true
    visit_roots-Reaches x k =
        let (r, (root, known, reached)) = top_of x k in
        visit_children-Reaches (visit_root (index_runs runs) (length runs))
          (children_of (index_runs runs) none) r x
          (ap (λ q. one_of (children_of (index_runs runs) q) r) (sym root)
            ∙ one_of-children_of runs runs r (all_Listed runs distinct) known)
          (visit_tree_node-Reaches r (root_run_id_of (index_runs runs) r) (length runs) r x known
            reached 0)
          0 0

one_of-insert_node :
    (node : RunTreeIndexNode) (nodes : List RunTreeIndexNode) (x : Text)
    → one_of (node_ids (node ∷ nodes)) x ≡ true
    → one_of (node_ids (insert_node node nodes)) x ≡ true
one_of-insert_node node [] x h = h
one_of-insert_node node (next ∷ nodes) x h =
    elim (Bool-cases (leb node.subtree_start next.subtree_start)) [
      | inl before ↦ rw before h
      | inr after ↦ rw after (elim (Bool-cases (text_eq next.span_id x)) [
        | inl second ↦ rw second refl
        | inr other ↦ rw other (one_of-insert_node node nodes x (rw other at h))
      ])
    ]

one_of-sort_nodes :
    (nodes : List RunTreeIndexNode) (x : Text)
    → one_of (node_ids nodes) x ≡ true
    → one_of (node_ids (sort_nodes nodes)) x ≡ true
one_of-sort_nodes [] x h = h
one_of-sort_nodes (node ∷ nodes) x h =
    one_of-insert_node node (sort_nodes nodes) x (elim (Bool-cases (text_eq node.span_id x)) [
      | inl here ↦ rw here refl
      | inr other ↦ rw other (one_of-sort_nodes nodes x (rw other at h))
    ])

-- When the span ids of the runs are different, no run is lost: each span id of the runs has a node
-- in the index, also where parents are unknown or form a cycle. The fuel is enough.
pub build_trace_tree_index_complete :
    (runs : List RunTreeInput)
    → Distinct (known_ids runs)
    → (x : Text) → one_of (known_ids runs) x ≡ true
    → one_of (node_ids (build_trace_tree_index runs)) x ≡ true
unfolding build_trace_tree_index
build_trace_tree_index_complete runs distinct x known =
    one_of-sort_nodes (visit_roots (sort_runs runs)) x (
      visit_roots-Reaches (sort_runs runs) (sort_runs-Distinct runs distinct) x
        (one_of-sort_runs runs x ∙ known))
