-- ===== src/Saving/Diff.antt =====
-- WorkflowBuilder.jsx, handleSave: what a save has to change on the server, as the difference of the
-- canvas and of what the editor holds to be on the server.
use relay_workflow_automatio.Prelude.{
  Bool, false, not, ◌||◌, String, Option, none, some, List, [], ◌∷◌, ◌++◌, map, filter, find, any,
  has, ◌==◌, starts_with, if◌then◌else◌,
}
use relay_workflow_automatio.Js.{
  Num, num_eq, Value, null, str, obj, Fields, end, or_nullish, strict_eq,
}
use relay_workflow_automatio.Js.Host.{Host}
use relay_workflow_automatio.Graph.{Edge}
use relay_workflow_automatio.Config.Normalize.{
  normalize_decision_configuration, normalize_rag_configuration,
}
use relay_workflow_automatio.Saving.Snapshot.{SavedNode, round, config_of, or_id}

-- The entries of `serverNodesRef` and `serverEdgesRef`.
pub record ServerNode : Type 0 where
  pub rf_id : String
  pub node_id : String
  pub node_type : String
  pub label : Value
  pub position_x : Num
  pub position_y : Num
  pub configuration : Value

pub record ServerEdge : Type 0 where
  pub rf_id : String
  pub source : String
  pub target : String
  pub source_node_id : String
  pub target_node_id : String
  pub condition : Value

-- `nodesSnap`: the nodes with normalized configurations
abbrev snap_config : Host → String → Option Fields → Option Fields
snap_config host type_id config =
    if type_id == "ai.rag_search"
    then some (normalize_rag_configuration (obj (config_of config)))
    else if type_id == "ai.decision"
    then some (normalize_decision_configuration host (config_of config))
    else config

unfoldable pub nodes_snap : Host → List SavedNode → List SavedNode
nodes_snap host nodes =
    map (λ (n : SavedNode). record n { config = snap_config host n.type_id n.config }) nodes

unfoldable pub is_temp_node : SavedNode → Bool
is_temp_node n = starts_with n.id "temp-node-"

unfoldable pub is_temp_edge : String → Bool
is_temp_edge id = starts_with id "temp-edge-"

unfoldable pub node_changed : Host → ServerNode → SavedNode → Bool
node_changed host sn n =
    not (num_eq (round n.x) sn.position_x)
    || not (num_eq (round n.y) sn.position_y)
    || not (strict_eq (or_nullish n.label (str "")) (or_nullish sn.label (str "")))
    || not (
        host.json_text (obj (config_of n.config))
        == host.json_text (or_nullish sn.configuration (obj end)))

unfoldable pub server_node_of : List ServerNode → String → Option ServerNode
server_node_of mirror id = find (λ (s : ServerNode). s.rf_id == id) mirror

abbrev pub is_some_and : {A : Type 0} → (A → Bool) → Option A → Bool
is_some_and p none = false
is_some_and p (some a) = p a

unfoldable pub new_nodes : List SavedNode → List SavedNode
new_nodes nodes = filter is_temp_node nodes

unfoldable pub updated_nodes : Host → List ServerNode → List SavedNode → List SavedNode
updated_nodes host mirror nodes =
    filter (λ n. is_some_and (λ sn. node_changed host sn n) (server_node_of mirror n.id))
      (filter (λ n. not (is_temp_node n)) nodes)

unfoldable pub deleted_nodes : List ServerNode → List SavedNode → List ServerNode
deleted_nodes mirror nodes =
    filter (λ sn. not (any (λ (n : SavedNode). n.id == sn.rf_id) nodes)) mirror

-- `nodesSnap.find((node) => node.id === id)?.data?.nodeId ?? id`
unfoldable pub node_id_of : List SavedNode → String → String
node_id_of nodes id =
    or_id
      (elim (find (λ (n : SavedNode). n.id == id) nodes) [ none ↦ none | some n ↦ some n.node_id ])
      id

unfoldable pub edge_changed : List SavedNode → ServerEdge → Edge → Bool
edge_changed nodes se e =
    not (node_id_of nodes e.source == node_id_of nodes se.source)
    || not (node_id_of nodes e.target == node_id_of nodes se.target)
    || not (strict_eq (or_nullish e.condition null) (or_nullish se.condition null))

unfoldable pub server_edge_of : List ServerEdge → String → Option ServerEdge
server_edge_of mirror id = find (λ (s : ServerEdge). s.rf_id == id) mirror

unfoldable pub new_edges : List Edge → List Edge
new_edges edges = filter (λ (e : Edge). is_temp_edge e.id) edges

unfoldable pub updated_edges : List SavedNode → List ServerEdge → List Edge → List Edge
updated_edges nodes mirror edges =
    filter (λ e. is_some_and (λ se. edge_changed nodes se e) (server_edge_of mirror e.id))
      (filter (λ (e : Edge). not (is_temp_edge e.id)) edges)

unfoldable pub deleted_edges : List ServerEdge → List Edge → List ServerEdge
deleted_edges mirror edges = filter (λ se. not (any (λ (e : Edge). e.id == se.rf_id) edges)) mirror

-- the edges at a node that is deleted
unfoldable pub edges_of_removed : List ServerEdge → List ServerNode → List ServerEdge
edges_of_removed mirror deleted =
    let ids = map (λ (s : ServerNode). s.node_id) deleted in
    filter (λ (se : ServerEdge). has se.source_node_id ids || has se.target_node_id ids) mirror

-- `map.set(edge.rfId, edge)`: a key that is there keeps its place
unfoldable pub set_edge : ServerEdge → List ServerEdge → List ServerEdge
set_edge e [] = e ∷ []
set_edge e (s ∷ ss) = if s.rf_id == e.rf_id then e ∷ ss else s ∷ set_edge e ss

unfoldable pub set_edges : List ServerEdge → List ServerEdge → List ServerEdge
set_edges [] kept = kept
set_edges (e ∷ es) kept = set_edges es (set_edge e kept)

unfoldable pub edges_to_delete :
    List ServerNode → List ServerEdge → List SavedNode → List Edge → List ServerEdge
edges_to_delete mirror_nodes mirror nodes edges =
    set_edges
      (deleted_edges mirror edges ++ edges_of_removed mirror (deleted_nodes mirror_nodes nodes)) []
