-- ===== src/Examples/Saves.antt =====
-- A save that creates, changes and deletes a node, and one that loses a node.
use relay_workflow_automatio.Prelude.{
  ℕ, true, false, String, none, some, List, [], ◌∷◌, ◌++◌, has, ◌≡◌, inl, inr, refl, arith, sort_by,
  insert_by, ap, sym, ◌∙◌, eq_iff,
}
use relay_workflow_automatio.Js.{
  integer, num_eq, undefined, str, obj, field, end, get, prop, strict_eq,
}
use relay_workflow_automatio.Js.Convert.{text_or_empty, to_string}
use relay_workflow_automatio.Js.Effect.{
  ok, World, Respond, call, pure, raise, attempt, ◌>>=◌, continue,
}
use relay_workflow_automatio.Saving.Snapshot.{
  SavedNode, round, saved_config, node_entry, sorted_nodes, sorted_edges, snapshot_value,
  workflow_save_snapshot, workflow_changed_during_save,
}
use relay_workflow_automatio.Saving.Diff.{
  ServerNode, nodes_snap, is_temp_node, is_temp_edge, node_changed, server_node_of, new_nodes,
  updated_nodes, deleted_nodes, server_edge_of, new_edges, updated_edges, deleted_edges,
  edges_of_removed, set_edge, set_edges, edges_to_delete,
}
use relay_workflow_automatio.Saving.Save.{
  Call, create_workflow_node, id_in, Held, node_fields, server_node, change_node, without_node,
  without_edge, assign_mirror, assign_nodes, respond_held, change, read, for_each, created_node_id,
  keep_node, create_node, update_node, delete_node, delete_edge, update_edge, send_changes, Flags,
  is_refused, Canvas, Outcome, handle_save,
}
use relay_workflow_automatio.Saving.Save.Sent.{AreSent}
use relay_workflow_automatio.Saving.Save.Saved.{IsEditable, AreNew, IsSaved}
use relay_workflow_automatio.Saving.Save.Complete.{handle_save-IsSaved}
use relay_workflow_automatio.Examples.Samples.{host}

abbrev canvas_node : String → String → String → SavedNode
canvas_node id node_id label = record {
  id = id;
  node_id = node_id;
  type_id = "action.email";
  label = str label;
  x = integer 0;
  y = integer 0;
  config = none;
}

abbrev entry : String → String → String → ServerNode
entry rf_id node_id label = record {
  rf_id = rf_id;
  node_id = node_id;
  node_type = "action.email";
  label = str label;
  position_x = integer 0;
  position_y = integer 0;
  configuration = obj end;
}

-- The server gives each new node the id 9.
abbrev respond : Respond Call (Unit {0})
respond (create_workflow_node fs) s = (ok (obj (field "id" (str "9") end)), s)
respond _ s = (ok undefined, s)

-- One node is new, one has another label.
abbrev canvas : Canvas
canvas = record {
  nodes = canvas_node "temp-node-1" "b" "B" ∷ canvas_node "1" "a" "new" ∷ [];
  edges = [];
  revision = 3;
}

abbrev mirror : List ServerNode
mirror = entry "1" "a" "old" ∷ entry "2" "z" "gone" ∷ []

abbrev flags : Flags
flags = record {
  is_canvas_read_only = false;
  saving = false;
  publishing = false;
  for_publish = false;
}

abbrev before : World Call (Held (Unit {0}))
before = record {
  behind = record { nodes = mirror; edges = []; temp_nodes = []; temp_edges = []; behind = tt };
  made = [];
}

abbrev after : World Call (Held (Unit {0}))
after = (handle_save host respond flags canvas canvas before).1

abbrev success : Outcome
success = record { saved = true; state = some "saved"; message = none }

saves : handle_save host respond flags canvas canvas before ≡ (ok success, after)
unfolding handle_save send_changes is_refused ◌>>=◌ continue change read attempt pure raise for_each
    new_nodes nodes_snap is_temp_node create_node call respond_held keep_node created_node_id
    text_or_empty to_string prop get num_eq strict_eq has insert_by sort_by deleted_edges
    deleted_nodes edges_of_removed edges_to_delete is_temp_edge new_edges node_changed
    server_edge_of server_node_of set_edge set_edges updated_edges updated_nodes assign_mirror
    assign_nodes change_node delete_edge delete_node id_in node_fields server_node update_edge
    update_node without_edge without_node node_entry round saved_config snapshot_value sorted_edges
    sorted_nodes workflow_changed_during_save workflow_save_snapshot
saves = refl

editable : IsEditable mirror (nodes_snap host canvas.nodes)
unfolding nodes_snap has is_temp_node server_node_of
editable = record {
  distinct = (refl, (refl, tt));
  known = λ n m old. elim m [
    | inl e ↦ absurd (ground (arith, ap is_temp_node e))
    | inr rest ↦ elim rest [
      | inl e ↦ (entry "1" "a" "old", rw e refl, rw e refl, rw e refl)
      | inr nothing ↦ absurd nothing
    ]
  ];
  fresh = λ n m is_temp. elim m [
    | inl e ↦ rw e refl
    | inr rest ↦ elim rest [
      | inl e ↦ absurd (ground (arith, ap is_temp_node e))
      | inr nothing ↦ absurd nothing
    ]
  ];
}

given : after.behind.temp_nodes ≡ ("temp-node-1", "9") ∷ []
unfolding handle_save send_changes is_refused ◌>>=◌ continue change read attempt pure raise for_each
    new_nodes nodes_snap is_temp_node create_node call respond_held keep_node created_node_id
    text_or_empty to_string prop get num_eq strict_eq has insert_by sort_by deleted_edges
    deleted_nodes edges_of_removed edges_to_delete is_temp_edge new_edges node_changed
    server_edge_of server_node_of set_edge set_edges updated_edges updated_nodes assign_mirror
    assign_nodes change_node delete_edge delete_node id_in node_fields server_node update_edge
    update_node without_edge without_node node_entry round saved_config snapshot_value sorted_edges
    sorted_nodes workflow_changed_during_save workflow_save_snapshot
given = refl

one_given :
    (a r : String) → id_in (("temp-node-1", "9") ∷ []) a ≡ some r → (a ≡ "temp-node-1") × (r ≡ "9")
unfolding id_in
one_given a r h = ground (arith, eq_iff "temp-node-1" a)

new_ids : AreNew mirror (nodes_snap host canvas.nodes) after.behind.temp_nodes
unfolding server_node_of nodes_snap has
new_ids = rw given record {
  apart = λ a b r p q. (one_given a r p).0 ∙ sym (one_given b r q).0;
  unused = λ a r p. rw (one_given a r p).1 (refl, refl);
}

handle_save-IsSaved_example :
    (cs : List Call) × (after.made ≡ cs ++ [])
    × AreSent host mirror [] (nodes_snap host canvas.nodes) [] cs
    × IsSaved host (nodes_snap host canvas.nodes) after.behind.nodes after.behind.temp_nodes
    × (◌≡◌ {A = ℕ} 3 3)
    × (workflow_save_snapshot host (nodes_snap host canvas.nodes) []
        ≡ workflow_save_snapshot host canvas.nodes [])
handle_save-IsSaved_example =
    handle_save-IsSaved host respond flags canvas canvas before after success saves refl editable
      new_ids

-- A node that was deleted, saved and brought back by undo has an id that the editor no longer holds:
-- the save reports success, and the node is not there.
abbrev restored : Canvas
restored = record { nodes = canvas_node "7" "lost" "A" ∷ []; edges = []; revision = 4 }

restored_is_lost :
    ((handle_save host respond flags restored restored before).0 ≡ ok success)
    × (server_node_of (handle_save host respond flags restored restored before).1.behind.nodes "7"
        ≡ none)
unfolding handle_save send_changes is_refused ◌>>=◌ continue change read attempt pure raise for_each
    new_nodes nodes_snap is_temp_node create_node call respond_held keep_node created_node_id
    text_or_empty to_string prop get num_eq strict_eq has insert_by sort_by deleted_edges
    deleted_nodes edges_of_removed edges_to_delete is_temp_edge new_edges node_changed
    server_edge_of server_node_of set_edge set_edges updated_edges updated_nodes assign_mirror
    assign_nodes change_node delete_edge delete_node id_in node_fields server_node update_edge
    update_node without_edge without_node node_entry round saved_config snapshot_value sorted_edges
    sorted_nodes workflow_changed_during_save workflow_save_snapshot
restored_is_lost = (refl, refl)
