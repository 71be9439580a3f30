-- ===== src/Config/Branches/Labelled.antt =====
-- Which branch labels are accepted.
use relay_workflow_automatio.Prelude.{
  true, false, String, none, List, [], ◌∷◌, ◌++◌, In, In-filter, Distinct, filter, ◌≡◌, ◌↔◌, ◌⊎◌,
  inl, inr, refl, arith, sym, subst, is_nil,
}
use relay_workflow_automatio.Js.Host.{Host}
use relay_workflow_automatio.Graph.{Node, Edge, text_is}
use relay_workflow_automatio.Config.Options.{branch_options}
use relay_workflow_automatio.Config.Branches.{
  CanvasError, first_edge, outgoing, subject_of, no_branches, check_node, check_nodes, branches,
  validate_condition_branches,
}
use relay_workflow_automatio.Config.Branches.Labels.{
  HasLabel, labels, check_edges_iff, new_labels, old_labels,
}

module _ (host : Host) (nodes : List Node) (edges : List Edge) where
  -- Every edge that leaves the node has a label that is offered to it, these labels differ, and a
  -- condition has such an edge.
  abbrev pub IsBranched : Node → Type 0
  IsBranched n =
      ((e : Edge) → In e (outgoing n edges) → HasLabel (branch_options host n nodes edges) e)
      × Distinct (labels (outgoing n edges))
      × ((is_nil (outgoing n edges) ≡ false) ⊎ (text_is n.type_id "human.approval" ≡ true))

  append_none : (xs ys : List CanvasError) → (xs ++ ys ≡ []) ↔ ((xs ≡ []) × (ys ≡ []))
  append_none [] ys = (λ h. (refl, h), λ (e, h). h)
  append_none (x ∷ xs) ys = (λ h. absurd (ground (arith, h)), λ (e, h). absurd (ground (arith, e)))

  no_branches_iff :
      (n : Node)
      → (no_branches n edges ≡ [])
        ↔ ((is_nil (outgoing n edges) ≡ false) ⊎ (text_is n.type_id "human.approval" ≡ true))
  unfolding no_branches
  no_branches_iff n =
      (λ h. ground arith, λ c. elim c [ inl f ↦ ground arith | inr a ↦ ground arith ])

  check_node_iff :
      (n : Node) (errors : List CanvasError)
      → (check_node host nodes edges n errors ≡ []) ↔ ((errors ≡ []) × IsBranched n)
  unfolding check_node first_edge
  check_node_iff n errors =
      let options = branch_options host n nodes edges in
      let subject = subject_of n in
      let out = outgoing n edges in
      let (to, from) =
        check_edges_iff subject options out
          (record { errors = errors ++ no_branches n edges; seen = [] }) in
      let (split, join) = append_none errors (no_branches n edges) in
      let (has_edge, no_error) = no_branches_iff n in
      (
        λ h.
            let (all, new) = to h in
            let (before, none_missing) = split all in
            let (good, differ, unseen) = new_labels options subject [] out new in
            (before, (good, differ, has_edge none_missing)),
        λ (before, (good, differ, edge)). from (
          join (before, no_error edge),
          old_labels options subject [] out good differ (λ s h. nothing_seen s),
        ),
      )
    where
      nothing_seen : (s : String) → first_edge s [] ≡ none
      nothing_seen s = refl

  check_nodes_iff :
      (ns : List Node) (errors : List CanvasError)
      → (check_nodes host nodes edges ns errors ≡ [])
        ↔ ((errors ≡ []) × ((n : Node) → In n ns → IsBranched n))
  unfolding check_nodes
  check_nodes_iff [] errors = (λ h. (h, λ n m. absurd m), λ (h, all). h)
  check_nodes_iff (n ∷ ns) errors =
      let (to, from) = check_nodes_iff ns (check_node host nodes edges n errors) in
      let (one, all) = check_node_iff n errors in
      (
        λ h.
            let (e, rest) = to h in
            let (before, here) = one e in
            (before, λ k m. elim m [ inl q ↦ subst IsBranched (sym q) here | inr l ↦ rest k l ]),
        λ (before, good). from (all (before, good n (inl refl)), λ k m. good k (inr m)),
      )

  -- The check of the branches reports nothing exactly when every condition and every approval of
  -- the canvas is branched: each of its outgoing edges has a label that is trimmed, not blank, of at
  -- most 255 units and offered by the node, the labels differ, and a condition has such an edge.
  pub validate_condition_branches-IsBranched_iff :
      (validate_condition_branches host nodes edges ≡ [])
      ↔ ((n : Node) → In n nodes → branches host n ≡ true → IsBranched n)
  unfolding validate_condition_branches
  validate_condition_branches-IsBranched_iff =
      let (to, from) = check_nodes_iff (filter (branches host) nodes) [] in
      (
        λ h n m b. (to h).1 n ((In-filter (branches host) n nodes).1 (m, b)),
        λ all.
            from (refl, λ n m. let (k, b) = (In-filter (branches host) n nodes).0 m in all n k b),
      )
