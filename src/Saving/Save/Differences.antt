-- ===== src/Saving/Save/Differences.antt =====
-- handleSave: when a node or a connection differs from what is held, and which connections go.
use relay_workflow_automatio.Prelude.{
  true, false, String, List, [], ◌∷◌, In, any, ◌==◌, ◌≡◌, ◌⊎◌, ⊎_elim, inl, inr, refl, sym, ap, ◌∙◌,
  subst, arith, eq_iff, Bool-cases,
}
use relay_workflow_automatio.Js.{
  num, num_eq, null, str, obj, Fields, end, get, or_nullish, strict_eq,
}
use relay_workflow_automatio.Js.Host.{Host}
use relay_workflow_automatio.Graph.{Edge}
use relay_workflow_automatio.Saving.Snapshot.{SavedNode, round, config_of}
use relay_workflow_automatio.Saving.Diff.{
  ServerNode, ServerEdge, node_changed, edge_changed, node_id_of, set_edge, set_edges,
}

-- The fields of a call carry the node's label, rounded position and configuration.
abbrev pub Shows : SavedNode → Fields → Type 0
Shows n fs =
    (get fs "label" ≡ n.label)
    × (get fs "position_x" ≡ num (round n.x))
    × (get fs "position_y" ≡ num (round n.y))
    × (get fs "configuration" ≡ obj (config_of n.config))

-- Nothing of the node that is sent differs from its entry, as `handleSave` compares them.
abbrev pub IsSame : Host → SavedNode → ServerNode → Type 0
IsSame host n s =
    (strict_eq (or_nullish n.label (str "")) (or_nullish s.label (str "")) ≡ true)
    × (num_eq (round n.x) s.position_x ≡ true)
    × (num_eq (round n.y) s.position_y ≡ true)
    × (host.json_text (obj (config_of n.config))
        ≡ host.json_text (or_nullish s.configuration (obj end)))

-- The same for a connection: its ends, by the logical ids of their nodes, and its condition.
abbrev pub IsSameEdge : List SavedNode → Edge → ServerEdge → Type 0
IsSameEdge nodes e s =
    (node_id_of nodes e.source ≡ node_id_of nodes s.source)
    × (node_id_of nodes e.target ≡ node_id_of nodes s.target)
    × (strict_eq (or_nullish e.condition null) (or_nullish s.condition null) ≡ true)

pub different-node :
    (host : Host) (n : SavedNode) (s : ServerNode)
    → ¬ IsSame host n s
    → node_changed host s n ≡ true
unfolding node_changed
different-node host n s differs = elim (Bool-cases (node_changed host s n)) [
  | inl changed ↦ changed
  | inr same ↦ absurd (
      differs (
        ground arith,
        ground arith,
        ground arith,
        ground (
          arith,
          eq_iff (host.json_text (obj (config_of n.config)))
              (host.json_text (or_nullish s.configuration (obj end))),
        ),
      ))
]

pub different-edge :
    (nodes : List SavedNode) (e : Edge) (s : ServerEdge)
    → ¬ IsSameEdge nodes e s
    → edge_changed nodes s e ≡ true
unfolding edge_changed
different-edge nodes e s differs = elim (Bool-cases (edge_changed nodes s e)) [
  | inl changed ↦ changed
  | inr same ↦ absurd (
      differs (
        ground (arith, eq_iff (node_id_of nodes e.source) (node_id_of nodes s.source)),
        ground (arith, eq_iff (node_id_of nodes e.target) (node_id_of nodes s.target)),
        ground arith,
      ))
]

-- `any` by the id that is sought
pub any_none :
    {A : Type 0} (id : A → String) (rf : String) (xs : List A)
    → ((x : A) → In x xs → ¬ (id x ≡ rf))
    → any (λ x. id x == rf) xs ≡ false
any_none id rf [] other = refl
any_none id rf (x ∷ xs) other = elim (Bool-cases (id x == rf)) [
  | inl same ↦ absurd (other x (inl refl) ((eq_iff (id x) rf).0 same))
  | inr fails ↦ ground (arith, fails, any_none id rf xs (λ y m. other y (inr m)))
]

abbrev pub Listed : String → List ServerEdge → Type 0
Listed rf es = (s : ServerEdge) × In s es × (s.rf_id ≡ rf)

set_edge-new : (e : ServerEdge) (kept : List ServerEdge) → Listed e.rf_id (set_edge e kept)
unfolding set_edge
set_edge-new e [] = (e, inl refl, refl)
set_edge-new e (s ∷ ss) = elim (Bool-cases (s.rf_id == e.rf_id)) [
  | inl same ↦ rw same (e, inl refl, refl)
  | inr fails ↦ rw fails (let (u, m, q) = set_edge-new e ss in (u, inr m, q))
]

set_edge-kept :
    (e : ServerEdge) (rf : String) (kept : List ServerEdge)
    → Listed rf kept
    → Listed rf (set_edge e kept)
unfolding set_edge
set_edge-kept e rf [] (s, m, q) = absurd m
set_edge-kept e rf (x ∷ xs) (s, m, q) = elim (Bool-cases (x.rf_id == e.rf_id)) [
  | inl same ↦ rw same (
      ⊎_elim
        (λ (here : s ≡ x). (
          e,
          inl refl,
          sym ((eq_iff x.rf_id e.rf_id).0 same) ∙ sym (ap (λ (k : ServerEdge). k.rf_id) here) ∙ q,
        ))
        (λ later. (s, inr later, q)) m)
  | inr fails ↦ rw fails (
      ⊎_elim (λ here. (s, inl here, q))
        (λ later. let (u, k, p) = set_edge-kept e rf xs (s, later, q) in (u, inr k, p)) m)
]

pub set_edges-Listed :
    (es kept : List ServerEdge) (rf : String)
    → Listed rf es ⊎ Listed rf kept
    → Listed rf (set_edges es kept)
unfolding set_edges
set_edges-Listed [] kept rf (inl (s, m, q)) = absurd m
set_edges-Listed [] kept rf (inr there) = there
set_edges-Listed (e ∷ es) kept rf (inr there) =
    set_edges-Listed es (set_edge e kept) rf (inr (set_edge-kept e rf kept there))
set_edges-Listed (e ∷ es) kept rf (inl (s, m, q)) =
    ⊎_elim
      (λ (here : s ≡ e). set_edges-Listed es (set_edge e kept) rf (
        inr (
          subst (λ i. Listed i (set_edge e kept)) (sym (ap (λ (k : ServerEdge). k.rf_id) here) ∙ q)
            (set_edge-new e kept))))
      (λ later. set_edges-Listed es (set_edge e kept) rf (inl (s, later, q))) m
