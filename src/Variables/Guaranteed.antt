-- ===== src/Variables/Guaranteed.antt =====
-- `guaranteedPreviousNodesFor`: the nodes on every route from the trigger to the current node.
use relay_workflow_automatio.Prelude.{
  String, Bool, true, false, Option, none, some, Bool-cases, List, [], ◌∷◌, map, has, In, In-filter,
  ◌==◌, ◌≡◌, ◌≢◌, ◌↔◌, inl, inr, arith, eq_iff, eq_cases, length-map, filter, sym, subst,
}
use relay_workflow_automatio.Graph.{Node, Edge, successors, is_trigger, text_is}
use relay_workflow_automatio.Graph.Explore.{Outcome, out_of_fuel, explore, Reached, start, onward}
use relay_workflow_automatio.Graph.Explore.Fuel.{unmarked-le, explore_ends, Outcome-exhausted}
use relay_workflow_automatio.Graph.Explore.Correct.{exhausted_iff, found_sound}
use relay_workflow_automatio.Variables.{
  previous_nodes_for, guaranteed_previous_nodes_for, guaranteed_of, from_root, on_every_route,
  can_reach_without, rounds, is_found,
}
use relay_workflow_automatio.Variables.LeadsTo.{length-successors}

-- A walk from the root, with the ids that it visits, its last id first.
pub data Walk (edges : List Edge) (root : String) : String → List String → Type 0 where
  stay : Walk edges root root (root ∷ [])
  along :
      {u : String} {path : List String} (v : String)
      → Walk edges root u path
      → has v (successors edges u) ≡ true
      → Walk edges root v (v ∷ path)

-- A walk from the root that does not visit the excluded id.
abbrev pub Route : List Edge → String → Option String → String → Type 0
Route edges root excluded v =
    (path : List String) × Walk edges root v path
    × ((x : String) → has x path ≡ true → text_is excluded x ≡ false)

module _ (edges : List Edge) (root : String) (excluded : Option String) (current : String) where
  abbrev is_current : String → Bool
  is_current id = id == current

  abbrev Ahead : String → Type 0
  Ahead v = Reached (text_is excluded) is_current (successors edges) (root ∷ []) v

  Ahead-Route : {v : String} → Ahead v → Route edges root excluded v
  unfolding has
  Ahead-Route (start {id = v} a s) =
      let same : v ≡ root = ground (arith, eq_iff v root) in
      (
        root ∷ [],
        subst (λ x. Walk edges root x (root ∷ [])) (sym same) stay,
        λ x h. ground (arith, eq_iff x root),
      )
  Ahead-Route (onward {u} {v} r n s) =
      let (path, walk, clear) = Ahead-Route r in
      (v ∷ path, along v walk n, λ x h. ground (arith, eq_iff x v, clear x))

  Walk-Ahead :
      {v : String} {path : List String}
      → Walk edges root v path
      → ((x : String) → has x path ≡ true → text_is excluded x ≡ false)
      → Ahead v
  unfolding has
  Walk-Ahead stay clear =
      start (ground (arith, eq_iff root root)) (clear root (ground (arith, eq_iff root root)))
  Walk-Ahead (along {u} {path} v walk n) clear =
      onward (Walk-Ahead walk (λ x h. clear x (ground arith))) n
        (clear v (ground (arith, eq_iff v v)))

  abbrev forward : Outcome
  forward = explore (text_is excluded) is_current (successors edges) (rounds edges) (root ∷ []) []

  forward_ends : forward ≢ out_of_fuel
  forward_ends =
      let keys = map (λ (e : Edge). e.source) edges in
      explore_ends _ _ _ keys (length-successors edges) (rounds edges) _ []
        (omega (arith, unmarked-le [] keys, length-map edges (λ (e : Edge). e.source)))

  -- `canReachWithout` answers whether there is a walk to the current node that does not visit
  -- the excluded id.
  pub can_reach_without_iff :
      (can_reach_without edges root current excluded ≡ true) ↔ Route edges root excluded current
  unfolding can_reach_without
  can_reach_without_iff = (
    λ h.
        let (v, r, hit) = found_sound _ _ _ _ (rounds edges) (ground arith) in
        subst (Route edges root excluded) ((eq_iff v current).0 hit) (Ahead-Route r),
    λ (path, walk, clear). elim (Bool-cases (is_found forward)) [
      | inl reached ↦ reached
      | inr missed ↦
          let (t, e) = Outcome-exhausted forward forward_ends (λ e. ground arith) in
          let ((to, from), passed) = exhausted_iff _ _ _ _ (rounds edges) t e current in
          ground (arith, passed (from (Walk-Ahead walk clear)), eq_iff current current)
    ],
  )

module _ (edges : List Edge) (root current : String) where
  -- No walk avoids an id exactly when every walk visits it.
  avoided_iff :
      (v : String)
      → (can_reach_without edges root current (some v) ≡ false)
        ↔ ((path : List String) → Walk edges root current path → has v path ≡ true)
  avoided_iff v =
      let (to, from) = can_reach_without_iff edges root (some v) current in
      (
        λ h path walk. elim (Bool-cases (has v path)) [
          | inl on_it ↦ on_it
          | inr off ↦
              let reached = from (
                path,
                walk,
                λ x m. elim (eq_cases v x) [
                  | inl e ↦ ground (arith, subst (λ y. has y path ≡ false) e off)
                  | inr apart ↦ ground (arith, eq_iff v x)
                ],
              ) in
              ground (arith, reached)
        ],
        λ every. elim (Bool-cases (can_reach_without edges root current (some v))) [
          | inl reached ↦
              let (path, walk, clear) = to reached in
              ground (arith, clear v (every path walk), eq_iff v v)
          | inr missed ↦ missed
        ],
      )

-- What makes a node guaranteed: there is a route from the root to the current node, the node is
-- one of its previous nodes and no approval, and every walk from the root to the current node
-- visits it.
abbrev pub IsGuaranteed : List Node → List Edge → String → String → Node → Type 0
IsGuaranteed nodes edges root current n =
    Route edges root none current
    × In n (previous_nodes_for nodes edges current false)
    × (text_is n.type_id "human.approval" ≡ false)
    × ((path : List String) → Walk edges root current path → has n.id path ≡ true)

-- With one trigger on the canvas, a node is offered as guaranteed exactly when there is a route
-- from the trigger to the current node, the node is one of its previous nodes, it is no approval,
-- and every route from the trigger to the current node visits it.
pub guaranteed_previous_nodes_for_iff :
    (nodes : List Node) (edges : List Edge) (current : String) (trigger n : Node)
    → filter is_trigger nodes ≡ trigger ∷ []
    → In n (guaranteed_previous_nodes_for nodes edges current)
      ↔ IsGuaranteed nodes edges trigger.id current n
unfolding guaranteed_previous_nodes_for guaranteed_of from_root on_every_route
guaranteed_previous_nodes_for_iff nodes edges current trigger n single =
    let previous = previous_nodes_for nodes edges current false in
    let (parts, join) = In-filter (on_every_route edges trigger.id current) n previous in
    let (to, from) = can_reach_without_iff edges trigger.id none current in
    let (all_of, none_of) = avoided_iff edges trigger.id current n.id in
    rw (single, guaranteed_of)
      (elim (Bool-cases (can_reach_without edges trigger.id current none)) [
        | inl reached ↦ rw reached (
          λ h. let (m, k) = parts h in (to reached, m, ground arith, all_of (ground arith)),
          λ (route, m, plain, every). join (m, ground (arith, none_of every)),
        )
        | inr missed ↦
            rw missed (λ h. absurd h, λ (route, m, plain, every). ground (arith, from route))
      ])
