-- ===== src/Editing/History.antt =====
-- WorkflowBuilder.jsx: undo and redo, the timer that enters a change in the history, and the steps of
-- an editor between two saves.
pub mod Sound
pub mod Editable
pub mod Undone
use relay_workflow_automatio.Prelude.{
  ℕ, zero, suc, Bool, true, false, not, ◌&&◌, ◌||◌, String, Option, none, some, List, [], ◌∷◌, map,
  has, ◌==◌, ◌≡◌, if◌then◌else◌,
}
use Prim.Native.String.{◌++◌}
use relay_workflow_automatio.Js.{Num, Value}
use relay_workflow_automatio.Js.Host.{Host}
use relay_workflow_automatio.Graph.{Edge}
use relay_workflow_automatio.Saving.Snapshot.{SavedNode}
use relay_workflow_automatio.Saving.Snapshot.Shuffled.{ids}
use relay_workflow_automatio.Editing.Catalogue.{NodeDefinition}
use relay_workflow_automatio.Editing.Changes.{
  Frame, Editor, NodeData, or_frame, mark_unsaved, handle_drop_node, handle_duplicate_node,
  handle_delete_node, handle_update_node_data, handle_reconnect, handle_edge_condition_change,
  handle_delete_edge, handle_connect,
}

-- `stack.slice(-n)`
unfoldable pub newest : ℕ → List Frame → List Frame
newest zero fs = []
newest (suc n) [] = []
newest (suc n) (f ∷ fs) = f ∷ newest n fs

abbrev pub enter : Option Frame → List Frame → List Frame
enter none stack = stack
enter (some f) stack = f ∷ newest 49 stack

-- the timer of `recordHistory`
unfoldable pub enter_history : Editor → Editor
enter_history s = record s { undo = enter s.frame s.undo; redo = []; frame = none; armed = false }

unfoldable pub handle_node_drag_start : Bool → Editor → Editor
handle_node_drag_start read_only s = if read_only then s else record s { frame = some s.canvas }

unfoldable pub handle_node_drag_stop : Bool → Editor → Editor
handle_node_drag_stop blocked s =
    if blocked
    then s
    else mark_unsaved (record s {
      undo = enter (some (or_frame s.frame s.canvas)) s.undo;
      redo = [];
      frame = none;
      armed = false;
    })

-- React Flow moves the node that is dragged
abbrev pub move_node : String → Num → Num → SavedNode → SavedNode
move_node id x y n = if n.id == id then record n { x = x; y = y } else n

unfoldable pub move : String → Num → Num → Editor → Editor
move id x y s = record s {
  canvas = record { nodes = map (move_node id x y) s.canvas.nodes; edges = s.canvas.edges };
}

unfoldable pub apply_history_snapshot : Frame → Editor → Editor
apply_history_snapshot f s = mark_unsaved (record s { canvas = f })

-- the stack, with the change that the timer has not entered yet
unfoldable pub history_of : Editor → List Frame
history_of s = elim s.frame [ none ↦ s.undo | some f ↦ if s.has_timer then f ∷ s.undo else s.undo ]

-- clearing the timer goes with a frame that is entered
abbrev stops_timer : Editor → Bool
stops_timer s = elim s.frame [ none ↦ false | some f ↦ s.has_timer ]

abbrev pub undo_to : List Frame → Editor → Editor
undo_to [] s = s
undo_to (prior ∷ history) s = apply_history_snapshot prior (record s {
  undo = history;
  redo = s.canvas ∷ s.redo;
  frame = none;
  armed = s.armed && not (stops_timer s);
})

unfoldable pub handle_undo : Bool → Editor → Editor
unfolding history_of
handle_undo blocked s = if blocked then s else undo_to (history_of s) s

abbrev pub redo_to : List Frame → Editor → Editor
redo_to [] s = s
redo_to (next ∷ later) s =
    apply_history_snapshot next (record s { redo = later; undo = s.canvas ∷ s.undo })

unfoldable pub handle_redo : Bool → Editor → Editor
handle_redo blocked s = if blocked then s else redo_to s.redo s

-- the editor of a canvas that was loaded
abbrev pub start_editor : Frame → List (String × ℕ) → Editor
start_editor canvas counters = record {
  canvas = canvas;
  undo = [];
  redo = [];
  frame = none;
  has_timer = false;
  armed = false;
  counters = counters;
  revision = 0;
}

-- the id that `randomUUID` gives is on no node
abbrev pub IsUnused : String → Editor → Type 0
IsUnused uuid s = has ("temp-node-" ++ uuid) (ids s.canvas.nodes) ≡ false

module _ (host : Host) (add_edge : Edge → List Edge → List Edge) where
  pub data Step (s : Editor) : Editor → Type 0 where
    dropping :
        (blocked : Bool) (d : NodeDefinition) (x y : Num) (uuid : String)
        → IsUnused uuid s
        → Step s (handle_drop_node host blocked d x y uuid s)
    duplicating :
        (blocked : Bool) (id uuid : String)
        → IsUnused uuid s
        → Step s (handle_duplicate_node host blocked id uuid s)
    deleting : (blocked : Bool) (id : String) → Step s (handle_delete_node blocked id s)
    updating :
        (blocked : Bool) (id : String) (d : NodeData)
        → Step s (handle_update_node_data blocked id d s)
    reconnecting :
        (blocked : Bool) (id source target : String)
        → Step s (handle_reconnect blocked id source target s)
    labelling :
        (blocked : Bool) (value : Value) (id : String)
        → Step s (handle_edge_condition_change blocked value id s)
    deleting_edge : (blocked : Bool) (id : String) → Step s (handle_delete_edge blocked id s)
    connecting :
        (blocked : Bool) (now source target : String)
        → Step s (handle_connect add_edge blocked now source target s)
    taking : (read_only : Bool) → Step s (handle_node_drag_start read_only s)
    moving : (id : String) (x y : Num) → Step s (move id x y s)
    leaving : (blocked : Bool) → Step s (handle_node_drag_stop blocked s)
    entering : s.armed ≡ true → Step s (enter_history s)
    undoing : (blocked : Bool) → Step s (handle_undo blocked s)
    redoing : (blocked : Bool) → Step s (handle_redo blocked s)

  -- what the editing of a canvas leads to, without a save
  pub data Reach (canvas : Frame) (counters : List (String × ℕ)) : Editor → Type 0 where
    loaded : Reach canvas counters (start_editor canvas counters)
    later : {s t : Editor} → Reach canvas counters s → Step s t → Reach canvas counters t
