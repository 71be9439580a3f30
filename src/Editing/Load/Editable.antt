-- ===== src/Editing/Load/Editable.antt =====
-- A canvas as it is loaded can be saved.
use relay_workflow_automatio.Prelude.{
  ℕ, suc, true, false, String, none, some, List, [], ◌∷◌, map, has, Distinct, In, All, ◌==◌, eq_iff,
  ◌≡◌, refl, sym, ap, subst, ◌∙◌, arith, Bool-cases, inl, inr, starts_with,
}
use relay_workflow_automatio.Js.{Num, Value}
use relay_workflow_automatio.Js.Host.{Host}
use relay_workflow_automatio.Saving.Snapshot.{SavedNode}
use relay_workflow_automatio.Saving.Snapshot.Shuffled.{ids}
use relay_workflow_automatio.Saving.Diff.{ServerNode, is_temp_node, server_node_of}
use relay_workflow_automatio.Saving.Save.Mirror.{In-ids}
use relay_workflow_automatio.Saving.Save.Saved.{IsEditable}
use relay_workflow_automatio.Editing.Load.{
  backend_id, rf_node, server_node, all_same_position, move_server_node, grid_x, grid_y, grid_nodes,
  grid_server_nodes, build_initial_state,
}
use relay_workflow_automatio.Editing.History.Editable.{IsReal}

abbrev IsTwin : SavedNode → ServerNode → Type 0
IsTwin n s = (s.rf_id ≡ n.id) × (s.node_id ≡ n.node_id) × (s.node_type ≡ n.type_id)

-- The two lists have the same nodes in the same places.
data Twins : List SavedNode → List ServerNode → Type 0 where
  no_twins : Twins [] []
  twin :
      {n : SavedNode} {s : ServerNode} {ns : List SavedNode} {ss : List ServerNode}
      → IsTwin n s
      → Twins ns ss
      → Twins (n ∷ ns) (s ∷ ss)

Twins-load :
    (host : Host) (raw : List Value) → Twins (map (rf_node host) raw) (map (server_node host) raw)
unfolding rf_node server_node
Twins-load host [] = no_twins
Twins-load host (v ∷ vs) = twin (refl, refl, refl) (Twins-load host vs)

Twins-grid_nodes :
    {ns : List SavedNode} {ss : List ServerNode} (i : ℕ) → Twins ns ss → Twins (grid_nodes i ns) ss
unfolding grid_nodes
Twins-grid_nodes i no_twins = no_twins
Twins-grid_nodes i (twin e t) = twin e (Twins-grid_nodes (suc i) t)

Twins-move :
    {ns : List SavedNode} {ss : List ServerNode} (id : String) (x y : Num)
    → Twins ns ss
    → Twins ns (move_server_node id x y ss)
unfolding move_server_node
Twins-move id x y no_twins = no_twins
Twins-move id x y (twin {n} {s} {ns} {ss} e t) = elim (Bool-cases (s.rf_id == id)) [
  | inl holds ↦ rw holds (twin e t)
  | inr fails ↦ rw fails (twin e (Twins-move id x y t))
]

Twins-grid :
    {ns : List SavedNode} (i : ℕ) (ms : List SavedNode) {ss : List ServerNode}
    → Twins ns ss
    → Twins ns (grid_server_nodes i ms ss)
unfolding grid_server_nodes
Twins-grid i [] t = t
Twins-grid i (m ∷ ms) t = Twins-grid (suc i) ms (Twins-move m.id (grid_x i) (grid_y i) t)

-- a node is found under its id
Twins-known :
    {ns : List SavedNode} {ss : List ServerNode}
    → Twins ns ss
    → Distinct (ids ns)
    → (n : SavedNode) → In n ns
    → (s : ServerNode) × (server_node_of ss n.id ≡ some s)
      × (s.node_id ≡ n.node_id)
      × (s.node_type ≡ n.type_id)
unfolding server_node_of
Twins-known no_twins d n here = absurd here
Twins-known (twin {n = m} {s = s} {ns = ns} {ss = ss} (e, f, g) t) (fresh, d) n here = elim here [
  | inl same ↦
      let one = e ∙ ap (λ (k : SavedNode). k.id) (sym same) in
      let found : (s.rf_id == n.id) ≡ true = (eq_iff s.rf_id n.id).1 one in
      rw found (
        s,
        refl,
        f ∙ ap (λ (k : SavedNode). k.node_id) (sym same),
        g ∙ ap (λ (k : SavedNode). k.type_id) (sym same),
      )
  | inr rest ↦
      let (u, at, v, w) = Twins-known t d n rest in
      let apart : (s.rf_id == n.id) ≡ false =
        ground (arith, e, eq_iff s.rf_id n.id, fresh, In-ids n ns rest) in
      rw apart (u, at, v, w)
]

-- what is not the id of a node is not found
Twins-none :
    {ns : List SavedNode} {ss : List ServerNode} (id : String)
    → Twins ns ss
    → has id (ids ns) ≡ false
    → server_node_of ss id ≡ none
unfolding server_node_of has
Twins-none id no_twins h = refl
Twins-none id (twin {n = m} {s = s} {ns = ns} {ss = ss} (e, f, g) t) h =
    ground (arith, e, eq_iff s.rf_id id, eq_iff id m.id, h, Twins-none id t)

ids-grid_nodes : (i : ℕ) (ns : List SavedNode) → ids (grid_nodes i ns) ≡ ids ns
unfolding grid_nodes
ids-grid_nodes i [] = refl
ids-grid_nodes i (n ∷ ns) = rw (ids-grid_nodes (suc i) ns) refl

ids-load :
    (host : Host) (raw : List Value) → ids (map (rf_node host) raw) ≡ map (backend_id host) raw
unfolding rf_node
ids-load host [] = refl
ids-load host (v ∷ vs) = rw (ids-load host vs) refl

-- the ids of the server are none of the editor's
abbrev pub AreReal : List String → Type 0
AreReal xs = All (λ id. starts_with id "temp-node-" ≡ false) xs

real-has :
    (xs : List String)
    → AreReal xs
    → (id : String) → starts_with id "temp-node-" ≡ true
    → has id xs ≡ false
unfolding has
real-has [] h id temporary = refl
real-has (x ∷ xs) (k, h) id temporary = elim (Bool-cases (id == x)) [
  | inl same ↦
      let e : id ≡ x = (eq_iff id x).0 same in
      let k' : starts_with id "temp-node-" ≡ false = ap (λ t. starts_with t "temp-node-") e ∙ k in
      absurd (ground (arith, k', temporary))
  | inr other ↦ rw (other, real-has xs h id temporary) refl
]

real-In :
    (ns : List SavedNode) → AreReal (ids ns) → (n : SavedNode) → In n ns → is_temp_node n ≡ false
unfolding is_temp_node
real-In [] h n here = absurd here
real-In (m ∷ ns) (k, h) n here = elim here [ inl e ↦ rw e k | inr rest ↦ real-In ns h n rest ]

module _ (host : Host) (nodes edges : List Value)
    (distinct : Distinct (map (backend_id host) nodes))
    (real : AreReal (map (backend_id host) nodes)) where
  -- both lists are put in the grid, or neither is
  loaded-Twins :
      let s = build_initial_state host nodes edges in
      Twins s.nodes s.server_nodes × (ids s.nodes ≡ map (backend_id host) nodes)
  unfolding build_initial_state
  loaded-Twins =
      let t = Twins-load host nodes in
      elim (Bool-cases (all_same_position (map (rf_node host) nodes))) [
        | inl grid ↦ rw grid (
          Twins-grid_nodes 0 (Twins-grid 0 (map (rf_node host) nodes) t),
          ids-grid_nodes 0 (map (rf_node host) nodes) ∙ ids-load host nodes,
        )
        | inr scattered ↦ rw scattered (t, ids-load host nodes)
      ]

  -- A canvas that is loaded can be saved, also where it is laid out anew: its ids are distinct, and
  -- each node is held to be on the server under its id, with its logical id and type. The ids of the
  -- server are distinct and none has the editor's prefix for temporary ids; none that has it is held.
  pub build_initial_state-IsEditable :
      IsEditable
        (build_initial_state host nodes edges).server_nodes
        (build_initial_state host nodes edges).nodes
      × IsReal (build_initial_state host nodes edges).server_nodes
  build_initial_state-IsEditable =
      let (t, same) = loaded-Twins in
      let d = subst Distinct (sym same) distinct in
      let r = subst AreReal (sym same) real in
      (
        record {
          distinct = d;
          known = λ n here _. Twins-known t d n here;
          fresh = λ n here temporary. absurd (ground (arith, temporary, real-In _ r n here));
        },
        λ id temporary. Twins-none id t (real-has _ r id temporary),
      )
