-- ===== src/Examples/Edits.antt =====
-- A canvas that is loaded, edited, and taken back.
use relay_workflow_automatio.Prelude.{false, List, [], ◌∷◌, map, has, ◌≡◌, ◌≢◌, refl, arith}
use relay_workflow_automatio.Js.{
  Fields, integer, Value, str, num, obj, field, end, prop, get, num_eq, truthy,
}
use relay_workflow_automatio.Js.Convert.{to_string, to_number}
use relay_workflow_automatio.Graph.{Edge}
use relay_workflow_automatio.Saving.Snapshot.{SavedNode}
use relay_workflow_automatio.Saving.Diff.{nodes_snap}
use relay_workflow_automatio.Saving.Save.Saved.{IsEditable}
use relay_workflow_automatio.Editing.Catalogue.{
  NodeDefinition, get_node_definition, clear_example_node_config,
}
use relay_workflow_automatio.Editing.Catalogue.Cleared.{
  IsClearedFrom, clear_example_node_config-IsClearedFrom,
}
use relay_workflow_automatio.Editing.Load.{InitialState, build_initial_state, rf_node, grid_nodes}
use relay_workflow_automatio.Editing.Load.Editable.{build_initial_state-IsEditable}
use relay_workflow_automatio.Editing.Changes.{
  Frame, Editor, or_frame, record_history, mark_unsaved, change_canvas, appended,
  handle_delete_node, handle_duplicate_node, handle_drop_node,
}
use relay_workflow_automatio.Editing.History.{
  handle_undo, handle_redo, history_of, start_editor, Reach, loaded, later, dropping, deleting,
  entering, undoing,
}
use relay_workflow_automatio.Editing.History.Editable.{IsReal, Reach-IsEditable}
use relay_workflow_automatio.Editing.History.Undone.{handle_redo-undo}
use relay_workflow_automatio.Examples.Samples.{host}

abbrev raw : Value
raw = obj (
    field "id" (str "7")
      (field "node_id" (str "start") (field "node_type" (str "trigger.manual") end)))

abbrev state : InitialState
state = build_initial_state host (raw ∷ []) []

abbrev first : Frame
first = record { nodes = state.nodes; edges = state.edges }

build_initial_state-IsEditable_example :
    IsEditable state.server_nodes state.nodes × IsReal state.server_nodes
unfolding has to_string prop get
build_initial_state-IsEditable_example =
    build_initial_state-IsEditable host (raw ∷ []) [] (refl, tt) (refl, tt)

abbrev email : NodeDefinition
email = get_node_definition "action.email"

abbrev add : Edge → List Edge → List Edge
add e es = e ∷ es

-- An email node is dropped, the trigger is deleted, the timer fires, and all is undone.
abbrev edit_run : (s : Editor) × Reach host add first [] s
unfolding has build_initial_state rf_node appended record_history mark_unsaved handle_drop_node
    handle_delete_node to_string prop get num_eq to_number grid_nodes
edit_run = (
  _,
  later
      (later
        (later (later loaded (dropping false email (integer 0) (integer 0) "u" refl))
          (deleting false "7"))
        (entering refl))
      (undoing false),
)

Reach-IsEditable_example : IsEditable state.server_nodes (nodes_snap host (edit_run.0).canvas.nodes)
Reach-IsEditable_example =
    Reach-IsEditable state.server_nodes host add (build_initial_state-IsEditable_example.1)
      (build_initial_state-IsEditable_example.0) edit_run.1

abbrev deleted : Editor
deleted = handle_delete_node false "7" (start_editor first [])

to_undo : history_of deleted ≢ []
unfolding history_of handle_delete_node record_history mark_unsaved
to_undo e = absurd (ground arith)

handle_redo-undo_example :
    ((handle_redo false (handle_undo false deleted)).canvas ≡ deleted.canvas)
    × ((handle_redo false (handle_undo false deleted)).undo ≡ history_of deleted)
    × ((handle_redo false (handle_undo false deleted)).redo ≡ deleted.redo)
    × ((handle_undo false (change_canvas first deleted)).canvas
        ≡ or_frame deleted.frame deleted.canvas)
handle_redo-undo_example = handle_redo-undo deleted first to_undo

abbrev refund : Fields
refund = field "charge_id" (str "ch_12345") (field "amount" (num (integer 5)) end)

clear_example_node_config-IsClearedFrom_example :
    (cleared : Fields) × (clear_example_node_config "action.refund" (obj refund) ≡ obj cleared)
    × IsClearedFrom "action.refund" refund cleared
clear_example_node_config-IsClearedFrom_example =
    clear_example_node_config-IsClearedFrom "action.refund" refund

-- The only trigger can be duplicated: the guard looks at the other nodes only.
two_triggers :
    map
      (λ (n : SavedNode). n.type_id)
      (handle_duplicate_node host false "7" "u" (start_editor first [])).canvas.nodes
    ≡ "trigger.manual" ∷ "trigger.manual" ∷ []
unfolding build_initial_state rf_node handle_duplicate_node appended record_history mark_unsaved
    to_string prop get num_eq to_number grid_nodes truthy
two_triggers = refl
