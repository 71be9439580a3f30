-- ===== src/Saving/Save.antt =====
-- WorkflowBuilder.jsx, handleSave: the changes are sent one after the other, and what the editor
-- holds to be on the server follows each answer. A save that fails leaves what was done so far.
pub mod Moves
pub mod Mirror
pub mod Created
pub mod Saved
pub mod Sends
pub mod Differences
pub mod Sent
pub mod Complete
use relay_workflow_automatio.Prelude.{
  ℕ, Bool, true, false, not, ◌&&◌, ◌||◌, String, Option, none, some, List, [], ◌∷◌, ◌++◌, map,
  filter, find, ◌==◌, if◌then◌else◌,
}
use relay_workflow_automatio.Js.{
  Num, Value, undefined, null, num, str, obj, Fields, field, end, or_nullish, prop,
}
use relay_workflow_automatio.Js.Host.{Host}
use relay_workflow_automatio.Js.Convert.{text_or_empty}
use relay_workflow_automatio.Js.Effect.{
  Error, error, Result, ok, throws, World, Async, pure, raise, attempt, ◌>>=◌, ◌>>◌, Respond, call,
}
use relay_workflow_automatio.Graph.{Edge}
use relay_workflow_automatio.Saving.Snapshot.{
  SavedNode, round, config_of, or_id, workflow_save_snapshot, workflow_changed_during_save,
}
use relay_workflow_automatio.Saving.Diff.{
  ServerNode, ServerEdge, nodes_snap, new_nodes, updated_nodes, deleted_nodes, is_temp_edge,
  node_id_of, new_edges, updated_edges, edges_to_delete,
}

-- The calls, for the workflow and the version that the editor shows.
pub data Call : Type 0 where
  create_workflow_node create_workflow_edge : Fields → Call
  update_workflow_node update_workflow_edge : String → Fields → Call
  delete_workflow_node delete_workflow_edge : String → Call

-- An object that maps ids to ids, the last assignment first.
abbrev pub Ids : Type 0
Ids = List (String × String)

unfoldable pub id_in : Ids → String → Option String
id_in [] id = none
id_in ((k, v) ∷ m) id = if k == id then some v else id_in m id

-- `serverNodesRef`, `serverEdgesRef`, `tempToReal` and `tempEdgeToReal`, and what stands behind the
-- calls.
pub record Held (S : Type 0) : Type 0 where
  pub nodes : List ServerNode
  pub edges : List ServerEdge
  pub temp_nodes : Ids
  pub temp_edges : Ids
  pub behind : S

abbrev no_ids : Ids
no_ids = []

abbrev change_fields : SavedNode → Fields
change_fields n = field "label" n.label (
    field "position_x" (num (round n.x))
      (field "position_y" (num (round n.y)) (field "configuration" (obj (config_of n.config)) end)))

unfoldable pub node_fields : SavedNode → Fields
node_fields n =
    field "node_id" (str n.node_id) (field "node_type" (str n.type_id) (change_fields n))

unfoldable pub server_node : String → SavedNode → ServerNode
server_node rf_id n = record {
  rf_id = rf_id;
  node_id = n.node_id;
  node_type = n.type_id;
  label = n.label;
  position_x = round n.x;
  position_y = round n.y;
  configuration = obj (config_of n.config);
}

-- `serverNodesRef.current[i] = { ...serverNodesRef.current[i], … }` at the first entry of the node
unfoldable pub change_node : SavedNode → List ServerNode → List ServerNode
change_node n [] = []
change_node n (s ∷ ss) =
    if s.rf_id == n.id
    then record s {
      label = n.label;
      position_x = round n.x;
      position_y = round n.y;
      configuration = obj (config_of n.config);
    }
      ∷ ss
    else s ∷ change_node n ss

unfoldable pub change_edge : ServerEdge → List ServerEdge → List ServerEdge
change_edge e [] = []
change_edge e (s ∷ ss) = if s.rf_id == e.rf_id then e ∷ ss else s ∷ change_edge e ss

unfoldable pub without_node : String → List ServerNode → List ServerNode
without_node rf_id nodes = filter (λ (s : ServerNode). not (s.rf_id == rf_id)) nodes

unfoldable pub without_edge : String → List ServerEdge → List ServerEdge
without_edge rf_id edges = filter (λ (s : ServerEdge). not (s.rf_id == rf_id)) edges

-- `rfIdToNodeId`
unfoldable pub assign_mirror : List ServerNode → Ids → Ids
assign_mirror [] ids = ids
assign_mirror (s ∷ ss) ids = assign_mirror ss ((s.rf_id, s.node_id) ∷ ids)

abbrev assign_real : Option String → String → Ids → Ids
assign_real none node_id ids = ids
assign_real (some real) node_id ids = if real == "" then ids else (real, node_id) ∷ ids

unfoldable pub assign_nodes : Ids → List SavedNode → Ids → Ids
assign_nodes temp [] ids = ids
assign_nodes temp (n ∷ ns) ids = assign_nodes temp ns (
    if n.node_id == ""
    then ids
    else assign_real (id_in temp n.id) n.node_id ((n.id, n.node_id) ∷ ids))

-- the id that a node of the canvas has on the server
unfoldable pub real_id : Ids → String → String
real_id temp id = or_id (id_in temp id) id

abbrev first_of : Option String → Option String → Option String
first_of none later = later
first_of (some a) later = some a

abbrev logical_end : Ids → Ids → String → String
logical_end temp ids id =
    or_id (first_of (id_in ids (real_id temp id)) (id_in ids id)) (real_id temp id)

unfoldable pub edge_fields : ServerEdge → Fields
edge_fields e =
    field "source_node_id" (str e.source_node_id)
      (field "target_node_id" (str e.target_node_id) (field "condition" e.condition end))

unfoldable pub new_server_edge : Ids → Ids → String → Edge → ServerEdge
new_server_edge temp ids rf_id e = record {
  rf_id = rf_id;
  source = real_id temp e.source;
  target = real_id temp e.target;
  source_node_id = logical_end temp ids e.source;
  target_node_id = logical_end temp ids e.target;
  condition = or_nullish e.condition null;
}

unfoldable pub changed_server_edge : List SavedNode → Edge → ServerEdge
changed_server_edge nodes e = record {
  rf_id = e.id;
  source = e.source;
  target = e.target;
  source_node_id = node_id_of nodes e.source;
  target_node_id = node_id_of nodes e.target;
  condition = or_nullish e.condition null;
}

module _ (host : Host) {S : Type 0} (respond : Respond Call S) where
  abbrev pub Save : Type 0 → Type 0
  Save A = Async Call (Held S) A

  abbrev answer_in : Held S → Result Value × S → Result Value × Held S
  answer_in h (r, s) = (r, record h { behind = s })

  unfoldable pub respond_held : Respond Call (Held S)
  respond_held c h = answer_in h (respond c h.behind)

  abbrev ask : Call → Save Value
  ask c = call respond_held c

  unfoldable pub change : (Held S → Held S) → Save (Unit {0})
  change f w = (ok tt, record w { behind = f w.behind })

  unfoldable pub read : Save (Held S)
  read w = (ok w.behind, w)

  unfoldable pub for_each : {A : Type 0} → (A → Save (Unit {0})) → List A → Save (Unit {0})
  for_each f [] = pure tt
  for_each f (x ∷ xs) = f x >>= λ _. for_each f xs

  unfoldable pub created_node_id : Value → String
  created_node_id res =
      let created = or_nullish (prop res "data") (or_nullish (prop res "node") res) in
      text_or_empty host (or_nullish (prop created "id") (prop created "node_id"))

  unfoldable pub created_edge_id : Value → String
  created_edge_id res =
      let created = or_nullish (prop res "data") (or_nullish (prop res "edge") res) in
      text_or_empty host (prop created "id")

  abbrev add_node : SavedNode → String → Held S → Held S
  add_node n real h = record h {
    nodes = h.nodes ++ server_node real n ∷ [];
    temp_nodes = (n.id, real) ∷ h.temp_nodes;
  }

  unfoldable pub keep_node : SavedNode → String → Save (Unit {0})
  keep_node n real =
      if real == ""
      then raise (error "The server created a node but did not return its ID.")
      else change (add_node n real)

  unfoldable pub create_node : SavedNode → Save (Unit {0})
  create_node n = do
    res ← ask (create_workflow_node (node_fields n))
    keep_node n (created_node_id res)

  unfoldable pub update_node : SavedNode → Save (Unit {0})
  update_node n = do
    ask (update_workflow_node n.node_id (change_fields n))
    change (λ h. record h { nodes = change_node n h.nodes })

  -- an edge that the server does not know is only forgotten
  unfoldable pub delete_edge : ServerEdge → Save (Unit {0})
  delete_edge se = do
    (if is_temp_edge se.rf_id then pure undefined else ask (delete_workflow_edge se.rf_id))
    change (λ h. record h { edges = without_edge se.rf_id h.edges })

  unfoldable pub delete_node : ServerNode → Save (Unit {0})
  delete_node sn = do
    ask (delete_workflow_node sn.node_id)
    change (λ h. record h { nodes = without_node sn.rf_id h.nodes })

  abbrev add_edge : Ids → String → Edge → Held S → Held S
  add_edge ids real e h = record h {
    edges = h.edges ++ new_server_edge h.temp_nodes ids real e ∷ [];
    temp_edges = (e.id, real) ∷ h.temp_edges;
  }

  unfoldable pub keep_edge : Ids → Edge → String → Save (Unit {0})
  keep_edge ids e real =
      if real == ""
      then raise (error "The server created a connection but did not return its ID.")
      else change (add_edge ids real e)

  unfoldable pub create_edge : Ids → Edge → Save (Unit {0})
  create_edge ids e = do
    h ← read
    res ← ask (create_workflow_edge (edge_fields (new_server_edge h.temp_nodes ids "" e)))
    keep_edge ids e (created_edge_id res)

  unfoldable pub update_edge : List SavedNode → Edge → Save (Unit {0})
  update_edge nodes e = do
    ask (update_workflow_edge e.id (edge_fields (changed_server_edge nodes e)))
    change (λ h. record h { edges = change_edge (changed_server_edge nodes e) h.edges })

  -- the `try` of `handleSave`, from what the editor holds at its start
  unfoldable pub send_changes : List SavedNode → List Edge → Held S → Save (Unit {0})
  send_changes nodes edges start = do
    for_each create_node (new_nodes nodes)
    for_each update_node (updated_nodes host start.nodes nodes)
    for_each delete_edge (edges_to_delete start.nodes start.edges nodes edges)
    for_each delete_node (deleted_nodes start.nodes nodes)
    h ← read
    for_each (create_edge (assign_nodes h.temp_nodes nodes (assign_mirror h.nodes [])))
        (new_edges edges)
    for_each (update_edge nodes) (updated_edges nodes start.edges edges)

-- How a save ends: what it returns, the state that the editor shows (`none` where nothing was done),
-- and the message of an error.
pub record Outcome : Type 0 where
  pub saved : Bool
  pub state : Option String
  pub message : Option String

-- The editor's flags at the call, and `forPublish`.
pub record Flags : Type 0 where
  pub is_canvas_read_only : Bool
  pub saving : Bool
  pub publishing : Bool
  pub for_publish : Bool

unfoldable pub is_refused : Flags → Bool
is_refused f = f.is_canvas_read_only || f.saving || (f.publishing && not f.for_publish)

-- A canvas with the number of its last edit.
pub record Canvas : Type 0 where
  pub nodes : List SavedNode
  pub edges : List Edge
  pub revision : ℕ

abbrev refusal : Outcome
refusal = record { saved = false; state = none; message = none }

abbrev outcome_of : Host → String → Canvas → Canvas → Result (Unit {0}) → Outcome
outcome_of host snapshot canvas later (ok u) =
    let changed =
      workflow_changed_during_save host snapshot later.nodes later.edges canvas.revision
        later.revision in
    record {
      saved = not changed;
      state = some (if changed then "unsaved" else "saved");
      message = none;
    }
outcome_of host snapshot canvas later (throws e) = record {
  saved = false;
  state = some "failed";
  message = some e.message;
}

module _ (host : Host) {S : Type 0} (respond : Respond Call S) where
  abbrev forget_ids : Held S → Held S
  forget_ids h = record h { temp_nodes = no_ids; temp_edges = no_ids }

  abbrev start_save : Save host respond (Held S)
  start_save = change host respond forget_ids >>= λ _. read host respond

  -- `canvas` is what the save was called for, `later` what the canvas is when it ends.
  unfoldable pub handle_save : Flags → Canvas → Canvas → Save host respond Outcome
  handle_save flags canvas later = if is_refused flags then pure refusal else do
    start ← start_save
    result ← attempt (send_changes host respond (nodes_snap host canvas.nodes) canvas.edges start)
    pure (
        outcome_of host (workflow_save_snapshot host (nodes_snap host canvas.nodes) canvas.edges)
          canvas later result)

-- `finally`: the canvas, and each canvas of the undo and redo stacks, gets the ids of the server.
unfoldable pub replace_node_ids : Ids → List SavedNode → List SavedNode
replace_node_ids temp nodes = map (λ (n : SavedNode). record n { id = real_id temp n.id }) nodes

unfoldable pub replace_edge_ids : Ids → Ids → List Edge → List Edge
replace_edge_ids temp_nodes temp_edges edges =
    map
      (λ (e : Edge). record e {
        id = real_id temp_edges e.id;
        source = real_id temp_nodes e.source;
        target = real_id temp_nodes e.target;
      })
      edges
