-- ===== src/Editing/Load.antt =====
-- WorkflowBuilder.jsx, transformBackendNode, transformBackendEdge and buildInitialState: the canvas and
-- what the editor holds to be on the server, from the answers of the server.
pub mod Editable
use relay_workflow_automatio.Prelude.{
  ℕ, suc, ◌+◌, ◌*◌, ◌/◌, ◌%◌, Bool, true, false, ◌&&◌, String, Option, none, some, List, [], ◌∷◌,
  map, all, ◌==◌, if◌then◌else◌,
}
use relay_workflow_automatio.Js.{
  Num, num_eq, integer, Value, null, num, str, obj, Fields, prop, or_nullish, or_else, truthy,
}
use relay_workflow_automatio.Js.Host.{Host}
use relay_workflow_automatio.Js.Convert.{to_string, to_number}
use relay_workflow_automatio.Graph.{Edge}
use relay_workflow_automatio.Saving.Snapshot.{SavedNode, round, or_id}
use relay_workflow_automatio.Saving.Diff.{ServerNode, ServerEdge}
use relay_workflow_automatio.Saving.Save.{Ids, id_in}
use relay_workflow_automatio.Editing.Catalogue.{
  NodeDefinition, get_node_definition, clear_example_node_config,
}

-- a configuration that is an object, or missing
abbrev pub record_of : Value → Option Fields
record_of (obj fs) = some fs
record_of _ = none

abbrev or_value : Option Value → Value → Value
or_value none later = later
or_value (some v) later = v

module _ (host : Host) where
  -- a configuration may be stored as a text, and is the default one where it is missing or no JSON
  unfoldable pub stored_config : Fields → Value → Value
  stored_config default (str s) =
      if s == "" then obj default else or_value (host.parse_json s) (obj default)
  stored_config default raw = if truthy raw then raw else obj default

  abbrev pub backend_type : Value → String
  backend_type n =
      to_string host
        (or_else (prop n "node_type") (or_else (prop n "type") (str "action.http_request")))

  abbrev pub backend_id : Value → String
  backend_id n = to_string host (prop n "id")

  abbrev pub logical_id : Value → String
  logical_id n = to_string host (or_else (prop n "node_id") (prop n "id"))

  abbrev position : Value → String → String → ℕ → Num
  position n key axis default =
      to_number host (
        or_nullish (prop n key)
          (or_nullish (prop (prop n "position") axis) (num (integer default))))

  abbrev backend_config : Value → Value
  backend_config n =
      stored_config (get_node_definition (backend_type n)).default_config
        (or_nullish (prop n "configuration") (prop n "config"))

  abbrev backend_label : Value → Value
  backend_label n =
      or_else (prop n "label")
        (or_else (prop n "name") (str (get_node_definition (backend_type n)).name))

  -- `rfNode`, with what the editor saves of it; a configuration is an object here
  unfoldable pub rf_node : Value → SavedNode
  unfolding stored_config
  rf_node n = record {
    id = backend_id n;
    node_id = logical_id n;
    type_id = backend_type n;
    label = backend_label n;
    x = position n "position_x" "x" 250;
    y = position n "position_y" "y" 150;
    config = record_of (clear_example_node_config (backend_type n) (backend_config n));
  }

  -- `serverNode`
  unfoldable pub server_node : Value → ServerNode
  unfolding stored_config
  server_node n = record {
    rf_id = backend_id n;
    node_id = logical_id n;
    node_type = backend_type n;
    label = backend_label n;
    position_x = round (position n "position_x" "x" 250);
    position_y = round (position n "position_y" "y" 150);
    configuration = backend_config n;
  }

  -- `nodeIdToRfId`
  unfoldable pub rf_ids : List Value → Ids → Ids
  rf_ids [] ids = ids
  rf_ids (n ∷ ns) ids = rf_ids ns ((logical_id n, backend_id n) ∷ ids)

  abbrev source_of : Value → String
  source_of e = to_string host (or_else (prop e "source_node_id") (prop e "source"))

  abbrev target_of : Value → String
  target_of e = to_string host (or_else (prop e "target_node_id") (prop e "target"))

  unfoldable pub rf_edge : Ids → Value → Edge
  rf_edge ids e = record {
    id = backend_id e;
    source = or_id (id_in ids (source_of e)) (source_of e);
    target = or_id (id_in ids (target_of e)) (target_of e);
    condition = or_nullish (prop e "condition") null;
  }

  unfoldable pub server_edge : Ids → Value → ServerEdge
  server_edge ids e = record {
    rf_id = backend_id e;
    source = or_id (id_in ids (source_of e)) (source_of e);
    target = or_id (id_in ids (target_of e)) (target_of e);
    source_node_id = source_of e;
    target_node_id = target_of e;
    condition = or_nullish (prop e "condition") null;
  }

-- do all nodes stand at one place? A position that is no number is at no place.
unfoldable pub all_same_position : List SavedNode → Bool
all_same_position [] = false
all_same_position (n ∷ ns) = all (λ (m : SavedNode). num_eq m.x n.x && num_eq m.y n.y) (n ∷ ns)

-- `serverNodes.find((s) => s.rfId === id)` is moved
unfoldable pub move_server_node : String → Num → Num → List ServerNode → List ServerNode
move_server_node id x y [] = []
move_server_node id x y (s ∷ ss) =
    let rest = move_server_node id x y ss in
    if s.rf_id == id then record s { position_x = x; position_y = y } ∷ ss else s ∷ rest

abbrev grid_x : ℕ → Num
grid_x i = integer (100 + i % 3 * 290)

abbrev grid_y : ℕ → Num
grid_y i = integer (100 + i / 3 * 190)

-- the grid, from the node with number i on
unfoldable pub grid_nodes : ℕ → List SavedNode → List SavedNode
grid_nodes i [] = []
grid_nodes i (n ∷ ns) = record n { x = grid_x i; y = grid_y i } ∷ grid_nodes (suc i) ns

unfoldable pub grid_server_nodes : ℕ → List SavedNode → List ServerNode → List ServerNode
grid_server_nodes i [] mirror = mirror
grid_server_nodes i (n ∷ ns) mirror =
    grid_server_nodes (suc i) ns (move_server_node n.id (grid_x i) (grid_y i) mirror)

-- What the editor starts with.
pub record InitialState : Type 0 where
  pub nodes : List SavedNode
  pub edges : List Edge
  pub server_nodes : List ServerNode
  pub server_edges : List ServerEdge

unfoldable pub build_initial_state : Host → List Value → List Value → InitialState
unfolding all_same_position
build_initial_state host raw_nodes raw_edges =
    let nodes = map (rf_node host) raw_nodes in
    let mirror = map (server_node host) raw_nodes in
    let ids = rf_ids host raw_nodes [] in
    let grid = all_same_position nodes in
    record {
      nodes = if grid then grid_nodes 0 nodes else nodes;
      edges = map (rf_edge host ids) raw_edges;
      server_nodes = if grid then grid_server_nodes 0 nodes mirror else mirror;
      server_edges = map (server_edge host ids) raw_edges;
    }
