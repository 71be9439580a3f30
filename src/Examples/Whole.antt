-- ===== src/Examples/Whole.antt =====
-- A workflow that is loaded, gets a second node, and is saved.
use relay_workflow_automatio.Prelude.{
  true, false, String, none, some, List, [], ◌∷◌, ◌++◌, has, ◌≡◌, refl, arith, eq_iff, sym, ◌∙◌,
  sort_by, insert_by,
}
use relay_workflow_automatio.Js.{
  integer, num_eq, Value, undefined, str, obj, field, end, get, prop, strict_eq, truthy,
}
use relay_workflow_automatio.Js.Convert.{text_or_empty, to_string, to_number}
use relay_workflow_automatio.Js.Effect.{
  ok, World, Respond, call, pure, raise, attempt, ◌>>=◌, continue,
}
use relay_workflow_automatio.Graph.{Edge}
use relay_workflow_automatio.Saving.Snapshot.{
  round, saved_config, node_entry, sorted_nodes, sorted_edges, snapshot_value,
  workflow_save_snapshot, workflow_changed_during_save,
}
use relay_workflow_automatio.Saving.Diff.{
  nodes_snap, is_temp_node, is_temp_edge, node_changed, server_node_of, new_nodes, updated_nodes,
  deleted_nodes, server_edge_of, new_edges, updated_edges, deleted_edges, edges_of_removed,
  set_edge, set_edges, edges_to_delete,
}
use relay_workflow_automatio.Saving.Save.{
  Call, create_workflow_node, id_in, Held, node_fields, server_node, change_node, without_node,
  without_edge, assign_mirror, assign_nodes, respond_held, change, read, for_each, created_node_id,
  keep_node, create_node, update_node, delete_node, delete_edge, update_edge, send_changes, Flags,
  is_refused, Outcome, handle_save,
}
use relay_workflow_automatio.Saving.Save.Sent.{AreSent}
use relay_workflow_automatio.Saving.Save.Saved.{AreNew, IsSaved}
use relay_workflow_automatio.Editing.Catalogue.{
  get_node_definition, clear_example_node_config, clear_examples, last_part,
}
use relay_workflow_automatio.Editing.Load.{
  build_initial_state, rf_node, grid_nodes, grid_server_nodes, move_server_node,
}
use relay_workflow_automatio.Editing.Changes.{
  appended, record_history, mark_unsaved, handle_drop_node, get_next_node_id, Editor,
}
use relay_workflow_automatio.Editing.History.{Reach, loaded, later, dropping}
use relay_workflow_automatio.Editing.Saved.{canvas_of, first, edited-IsSaved}
use relay_workflow_automatio.Examples.Samples.{host}

abbrev raw : List Value
raw =
    obj (
      field "id" (str "7") (
        field "node_id" (str "start")
          (field "node_type" (str "trigger.manual") (field "position_x" (str "1") end))))
    ∷ []

abbrev respond : Respond Call (Unit {0})
respond (create_workflow_node fs) s = (ok (obj (field "id" (str "9") end)), s)
respond _ s = (ok undefined, s)

abbrev add : Edge → List Edge → List Edge
add e es = e ∷ es

abbrev whole_run : (s : Editor) × Reach host add (first host raw []) [] s
unfolding has build_initial_state rf_node to_string prop get num_eq to_number grid_nodes
whole_run = (
  _,
  later loaded
      (dropping false (get_node_definition "action.email") (integer 0) (integer 0) "u" refl),
)

abbrev edited : Editor
edited = whole_run.0

abbrev flags : Flags
flags = record {
  is_canvas_read_only = false;
  saving = false;
  publishing = false;
  for_publish = false;
}

abbrev before : World Call (Held (Unit {0}))
before = record {
  behind = record {
    nodes = (build_initial_state host raw []).server_nodes;
    edges = [];
    temp_nodes = [];
    temp_edges = [];
    behind = tt;
  };
  made = [];
}

abbrev after : World Call (Held (Unit {0}))
after = (handle_save host respond flags (canvas_of edited) (canvas_of edited) before).1

abbrev success : Outcome
success = record { saved = true; state = some "saved"; message = none }

-- the save reports success, and the server has given the new node the id 9
saves :
    (handle_save host respond flags (canvas_of edited) (canvas_of edited) before
      ≡ (ok success, after))
    × (after.behind.temp_nodes ≡ ("temp-node-u", "9") ∷ [])
unfolding handle_save send_changes is_refused ◌>>=◌ continue change read attempt pure raise for_each
    new_nodes nodes_snap is_temp_node create_node call respond_held keep_node created_node_id
    text_or_empty to_string prop get num_eq strict_eq has insert_by sort_by deleted_edges
    deleted_nodes edges_of_removed edges_to_delete is_temp_edge new_edges node_changed
    server_edge_of server_node_of set_edge set_edges updated_edges updated_nodes assign_mirror
    assign_nodes change_node delete_edge delete_node id_in node_fields server_node update_edge
    update_node without_edge without_node node_entry round saved_config snapshot_value sorted_edges
    sorted_nodes workflow_changed_during_save workflow_save_snapshot build_initial_state rf_node
    grid_nodes to_number handle_drop_node get_next_node_id appended record_history mark_unsaved
    get_node_definition clear_example_node_config clear_examples truthy last_part grid_server_nodes
    move_server_node relay_workflow_automatio.Editing.Load.server_node
saves = (refl, refl)

one_given :
    (a r : String) → id_in (("temp-node-u", "9") ∷ []) a ≡ some r → (a ≡ "temp-node-u") × (r ≡ "9")
unfolding id_in
one_given a r h = ground (arith, eq_iff "temp-node-u" a)

new_ids : AreNew before.behind.nodes (nodes_snap host edited.canvas.nodes) after.behind.temp_nodes
unfolding server_node_of nodes_snap has build_initial_state rf_node grid_nodes to_string prop get
    num_eq to_number handle_drop_node appended record_history mark_unsaved grid_server_nodes
    move_server_node relay_workflow_automatio.Editing.Load.server_node get_node_definition
new_ids = rw saves.1 record {
  apart = λ a b r p q. (one_given a r p).0 ∙ sym (one_given b r q).0;
  unused = λ a r p. rw (one_given a r p).1 (refl, refl);
}

edited-IsSaved_example :
    (cs : List Call) × (after.made ≡ cs ++ [])
    × AreSent host before.behind.nodes []
        (nodes_snap host edited.canvas.nodes)
        edited.canvas.edges
        cs
    × IsSaved host (nodes_snap host edited.canvas.nodes) after.behind.nodes after.behind.temp_nodes
    × (edited.revision ≡ (canvas_of edited).revision)
    × (workflow_save_snapshot host (nodes_snap host edited.canvas.nodes) edited.canvas.edges
        ≡ workflow_save_snapshot host (canvas_of edited).nodes (canvas_of edited).edges)
unfolding has to_string prop get
edited-IsSaved_example =
    edited-IsSaved host respond add raw [] (refl, tt) (refl, tt) whole_run.1 flags
      (canvas_of edited) before after success refl saves.0 refl new_ids
