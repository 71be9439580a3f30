-- ===== src/Editing/Changes.antt =====
-- WorkflowBuilder.jsx: the editor's state and the handlers that change the canvas. Selection, notices
-- and what React Flow does by itself are left out; `blocked` is that the canvas is read-only or being
-- published.
use Prim.Native.String.{◌++◌}
use relay_workflow_automatio.Prelude.{
  ℕ, suc, ◌+◌, ◌-◌, ◌*◌, ◌^◌, Bool, true, false, not, ◌&&◌, ◌||◌, String, Option, none, some, List,
  [], ◌∷◌, map, filter, find, any, ◌==◌, leb, starts_with, if◌then◌else◌,
}
use relay_workflow_automatio.Js.{
  Num, nan, infinite, finite, integer, Value, null, str, Fields, or_else,
}
use relay_workflow_automatio.Js.Host.{Host}
use relay_workflow_automatio.Js.Convert.{to_string}
use relay_workflow_automatio.Graph.{Edge}
use relay_workflow_automatio.Saving.Snapshot.{SavedNode, round}
use relay_workflow_automatio.Editing.Catalogue.{NodeDefinition, get_node_definition, prefix_of}
use relay_workflow_automatio.Editing.References.{remove_from_fields}

-- A canvas as the undo and redo stacks keep it.
pub record Frame : Type 0 where
  pub nodes : List SavedNode
  pub edges : List Edge

-- `frame` is `historyFrameRef`; `has_timer` says that `historyTimerRef` was ever set, `armed` that its
-- timer is running. The stacks have their last entry first. `counters` is `nodeCounterRef`.
pub record Editor : Type 0 where
  pub canvas : Frame
  pub undo : List Frame
  pub redo : List Frame
  pub frame : Option Frame
  pub has_timer : Bool
  pub armed : Bool
  pub counters : List (String × ℕ)
  pub revision : ℕ

abbrev pub or_frame : Option Frame → Frame → Frame
or_frame none canvas = canvas
or_frame (some f) canvas = f

unfoldable pub record_history : Editor → Editor
record_history s = record s {
  frame = some (or_frame s.frame s.canvas);
  has_timer = true;
  armed = true;
}

unfoldable pub mark_unsaved : Editor → Editor
mark_unsaved s = record s { revision = suc s.revision }

-- a change of the canvas, with its entry in the history
abbrev pub change_canvas : Frame → Editor → Editor
change_canvas canvas s = mark_unsaved (record (record_history s) { canvas = canvas })

abbrev counter : List (String × ℕ) → String → ℕ
counter [] prefix = 0
counter ((p, n) ∷ counters) prefix = if p == prefix then n else counter counters prefix

abbrev pub count_node : String → Editor → Editor
count_node type_id s = record s {
  counters = (prefix_of type_id, suc (counter s.counters (prefix_of type_id))) ∷ s.counters;
}

unfoldable pub get_next_node_id : Host → String → Editor → String
get_next_node_id host type_id s =
    prefix_of type_id
    ++ ("_" ++ host.number_text (integer (suc (counter s.counters (prefix_of type_id)))))

-- `nodes.concat(n)`
unfoldable pub appended : List SavedNode → SavedNode → List SavedNode
appended [] n = n ∷ []
appended (m ∷ ms) n = m ∷ appended ms n

abbrev is_trigger_type : String → Bool
is_trigger_type type_id = starts_with type_id "trigger."

-- x + 48
unfoldable pub plus_48 : Num → Num
plus_48 nan = nan
plus_48 (infinite s) = infinite s
plus_48 (finite false m k) = finite false (m + 48 * 2 ^ k) k
plus_48 (finite true m k) =
    if leb m (48 * 2 ^ k) then finite false (48 * 2 ^ k - m) k else finite true (m - 48 * 2 ^ k) k

module _ (host : Host) where
  abbrev dropped_node : NodeDefinition → Num → Num → String → String → SavedNode
  dropped_node d x y uuid node_id = record {
    id = "temp-node-" ++ uuid;
    node_id = node_id;
    type_id = d.type_id;
    label = str d.name;
    x = round x;
    y = round y;
    config = some d.default_config;
  }

  abbrev pub add_node : SavedNode → String → Editor → Editor
  add_node n type_id s =
      count_node type_id
        (change_canvas (record { nodes = appended s.canvas.nodes n; edges = s.canvas.edges }) s)

  unfoldable pub handle_drop_node : Bool → NodeDefinition → Num → Num → String → Editor → Editor
  handle_drop_node blocked d x y uuid s =
      if blocked
        || (is_trigger_type d.type_id
            && any (λ (n : SavedNode). is_trigger_type n.type_id) s.canvas.nodes)
      then s
      else add_node (dropped_node d x y uuid (get_next_node_id host d.type_id s)) d.type_id s

  abbrev type_or_default : String → String
  type_or_default type_id = if type_id == "" then "action.http_request" else type_id

  abbrev duplicate_of : SavedNode → String → String → SavedNode
  duplicate_of n uuid node_id = record n {
    id = "temp-node-" ++ uuid;
    x = plus_48 n.x;
    y = plus_48 n.y;
    node_id = node_id;
    label = str (
        to_string host
          (or_else n.label (str (get_node_definition (type_or_default n.type_id)).name))
        ++ " copy");
  }

  -- the guard comes after the entry in the history
  abbrev pub duplicate_node : String → Option SavedNode → String → Editor → Editor
  duplicate_node id none uuid s = s
  duplicate_node id (some n) uuid s =
      if is_trigger_type (type_or_default n.type_id)
        && any (λ (m : SavedNode). not (m.id == id) && is_trigger_type m.type_id) s.canvas.nodes
      then record_history s
      else add_node (duplicate_of n uuid (get_next_node_id host (type_or_default n.type_id) s))
          (type_or_default n.type_id) s

  unfoldable pub handle_duplicate_node : Bool → String → String → Editor → Editor
  handle_duplicate_node blocked id uuid s =
      if blocked
      then s
      else duplicate_node id (find (λ (n : SavedNode). n.id == id) s.canvas.nodes) uuid s

abbrev forget_in : String → Option Fields → Option Fields
forget_in id none = none
forget_in id (some fs) = some (remove_from_fields id fs)

-- the references to a node are taken out, except from decisions
abbrev pub forget_node : String → SavedNode → SavedNode
forget_node id n =
    if n.type_id == "ai.decision" then n else record n { config = forget_in id n.config }

abbrev deleted_logical_id : Option SavedNode → String → String
deleted_logical_id none id = id
deleted_logical_id (some n) id = if n.node_id == "" then n.id else n.node_id

unfoldable pub handle_delete_node : Bool → String → Editor → Editor
handle_delete_node blocked id s =
    let logical = deleted_logical_id (find (λ (n : SavedNode). n.id == id) s.canvas.nodes) id in
    if blocked
    then s
    else change_canvas
        (record {
          nodes =
              map (forget_node logical)
                (filter (λ (n : SavedNode). not (n.id == id)) s.canvas.nodes);
          edges = filter (λ (e : Edge). not (e.source == id || e.target == id)) s.canvas.edges;
        })
        s

-- What the inspector changes of a node.
pub record NodeData : Type 0 where
  pub label : Option Value
  pub config : Option (Option Fields)

abbrev kept_or : {A : Type 0} → A → Option A → A
kept_or a none = a
kept_or a (some b) = b

abbrev pub update_data : String → NodeData → SavedNode → SavedNode
update_data id d n =
    if n.id == id
    then record n { label = kept_or n.label d.label; config = kept_or n.config d.config }
    else n

unfoldable pub handle_update_node_data : Bool → String → NodeData → Editor → Editor
handle_update_node_data blocked id d s =
    if blocked
    then s
    else change_canvas
        (record { nodes = map (update_data id d) s.canvas.nodes; edges = s.canvas.edges }) s

-- a change of the edges
abbrev pub set_edges : Bool → List Edge → Editor → Editor
set_edges blocked edges s =
    if blocked then s else change_canvas (record { nodes = s.canvas.nodes; edges = edges }) s

unfoldable pub handle_reconnect : Bool → String → String → String → Editor → Editor
handle_reconnect blocked id source target s =
    set_edges blocked
      (map (λ (e : Edge). if e.id == id then record e { source = source; target = target } else e)
        s.canvas.edges)
      s

unfoldable pub handle_edge_condition_change : Bool → Value → String → Editor → Editor
handle_edge_condition_change blocked value id s =
    set_edges (blocked || id == "")
      (map (λ (e : Edge). if e.id == id then record e { condition = or_else value null } else e)
        s.canvas.edges)
      s

unfoldable pub handle_delete_edge : Bool → String → Editor → Editor
handle_delete_edge blocked id s =
    set_edges blocked (filter (λ (e : Edge). not (e.id == id)) s.canvas.edges) s

-- `addEdge` is React Flow's, which drops a connection that is there already
unfoldable pub handle_connect :
    (Edge → List Edge → List Edge) → Bool → String → String → String → Editor → Editor
handle_connect add_edge blocked now source target s =
    set_edges blocked
      (add_edge
        (record { id = "temp-edge-" ++ now; source = source; target = target; condition = null })
        s.canvas.edges)
      s
