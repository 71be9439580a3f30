-- ===== src/Variables/Previous.antt =====
-- `previousNodesFor`: the nodes that lead to the current one.
use relay_workflow_automatio.Prelude.{
  String, Bool, true, false, some, Option-cases, Bool-cases, List, [], ◌∷◌, map, reverse, has,
  has-reverse, has_iff_In, In, In-reverse, In-filter, In-filter_map, ◌==◌, ◌≡◌, ◌≢◌, ◌⊎◌, ◌↔◌, inl,
  inr, arith, eq_iff, length-map, length-reverse, filter, filter_map, sym, subst,
}
use relay_workflow_automatio.Graph.{Node, Edge, predecessors, is_trigger}
use relay_workflow_automatio.Graph.Explore.{Outcome, exhausted, explore}
use relay_workflow_automatio.Graph.Explore.Fuel.{
  count-le, unmarked-le, explore_ends, Outcome-exhausted,
}
use relay_workflow_automatio.Graph.Explore.Correct.{exhausted_iff, found_sound}
use relay_workflow_automatio.Graph.Flood.Correct.{flood_decides}
use relay_workflow_automatio.Variables.{
  following_ids, previous_ids, previous_nodes_for, rounds, never, by_id, keeps,
}
use relay_workflow_automatio.Variables.LeadsTo.{LeadsTo, length-predecessors, Upstream-iff}

module _ (edges : List Edge) (c : String) where
  -- The `following` set holds exactly what the current node leads to.
  pub following_ids_iff : (v : String) → (has v (following_ids edges c) ≡ true) ↔ LeadsTo edges c v
  unfolding following_ids has
  following_ids_iff v =
      let (t, e, holds) =
        flood_decides edges (c ∷ []) [] (λ v h. ground arith) (rounds edges) (omega arith) in
      let (to, from) = holds v in
      rw e (λ h. elim (to h) [ inl f ↦ f | inr b ↦ ground arith ], λ f. from (inl f))

  abbrev backward : Outcome
  backward =
      explore (λ id. id == c) never (predecessors edges) (rounds edges)
        (reverse (predecessors edges c)) []

  backward-exhausted : (t : List String) × (backward ≡ exhausted t)
  backward-exhausted =
      let keys = map (λ (e : Edge). e.target) edges in
      let total = length-map edges (λ (e : Edge). e.target) in
      Outcome-exhausted backward
        (explore_ends _ _ _ keys (length-predecessors edges) (rounds edges) _ [] (
          omega (
            arith,
            unmarked-le [] keys,
            total,
            length-reverse (predecessors edges c),
            length-predecessors edges c,
            count-le c keys,
          )))
        (λ e. let (v, _, no_stop) = found_sound _ _ _ _ (rounds edges) e in ground arith)

  -- The `previousIds` set holds exactly the other ids that lead to the current node.
  pub previous_ids_iff :
      (v : String) → (has v (previous_ids edges c) ≡ true) ↔ (LeadsTo edges v c × (v ≢ c))
  unfolding previous_ids
  previous_ids_iff v =
      let (t, e) = backward-exhausted in
      let (to, from) = (exhausted_iff _ _ _ _ (rounds edges) t e v).0 in
      let (down, up) = Upstream-iff edges c v in
      rw e (rw has-reverse (λ h. down (to h), λ h. from (up h)))

pub by_id-id : (nodes : List Node) (v : String) (n : Node) → by_id nodes v ≡ some n → n.id ≡ v
unfolding by_id
by_id-id [] v n h = ground arith
by_id-id (m ∷ ns) v n h = elim (Option-cases (by_id ns v)) [
  | inl missing ↦ ground (arith, eq_iff m.id v)
  | inr (later, known) ↦
      let same : later ≡ n = ground arith in subst (λ k. k.id ≡ v) same (by_id-id ns v later known)
]

-- What makes a node a previous one: the canvas knows it under its own id, it leads to the current
-- node and is another node, and the current node does not lead to it; triggers are asked for, or
-- it is none.
abbrev pub IsPrevious : List Node → List Edge → String → Bool → Node → Type 0
IsPrevious nodes edges current include_triggers n =
    (by_id nodes n.id ≡ some n)
    × LeadsTo edges n.id current
    × (n.id ≢ current)
    × (¬ LeadsTo edges current n.id)
    × ((include_triggers ≡ true) ⊎ (is_trigger n ≡ false))

-- The picker offers exactly the nodes that the canvas knows under their own id, that lead to the
-- current node and are another node, to which the current node does not lead, and that are no
-- triggers unless triggers are asked for.
pub previous_nodes_for_iff :
    (nodes : List Node) (edges : List Edge) (current : String) (include_triggers : Bool) (n : Node)
    → In n (previous_nodes_for nodes edges current include_triggers)
      ↔ IsPrevious nodes edges current include_triggers n
unfolding previous_nodes_for keeps
previous_nodes_for_iff nodes edges current include_triggers n =
    let ids = previous_ids edges current in
    let (unrev, rev) =
      In-reverse n (filter (keeps edges current include_triggers) (filter_map (by_id nodes) ids)) in
    let (parts, join) =
      In-filter (keeps edges current include_triggers) n (filter_map (by_id nodes) ids) in
    let (source, listed) = In-filter_map (by_id nodes) n ids in
    let (down, up) = previous_ids_iff edges current n.id in
    let (back, forth) = following_ids_iff edges current n.id in
    (
      λ h.
          let (m, k) = parts (unrev h) in
          let (v, at, known) = source m in
          let same : n.id ≡ v = by_id-id nodes v n known in
          let (leads, apart) =
            down ((has_iff_In n.id ids).1 (subst (λ x. In x ids) (sym same) at)) in
          (
            subst (λ x. by_id nodes x ≡ some n) (sym same) known,
            leads,
            apart,
            λ f. ground (arith, forth f),
            ground arith,
          ),
      λ (known, leads, apart, free, allowed). rev (
          join (
            listed (n.id, (has_iff_In n.id ids).0 (up (leads, apart)), known),
            ground (arith, free_of n.id free),
          )),
    )
  where
    free_of : (v : String) → ¬ LeadsTo edges current v → has v (following_ids edges current) ≡ false
    free_of v free = elim (Bool-cases (has v (following_ids edges current))) [
      | inl yes_it ↦ absurd (free ((following_ids_iff edges current v).0 yes_it))
      | inr not_it ↦ not_it
    ]
