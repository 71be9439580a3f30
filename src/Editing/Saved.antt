-- ===== src/Editing/Saved.antt =====
-- A workflow from the moment it is loaded until its save.
use relay_workflow_automatio.Prelude.{ℕ, String, List, ◌++◌, true, Distinct, map, ◌≡◌, sym, subst}
use relay_workflow_automatio.Js.{Value}
use relay_workflow_automatio.Js.Host.{Host}
use relay_workflow_automatio.Js.Effect.{ok, World, Respond}
use relay_workflow_automatio.Graph.{Edge}
use relay_workflow_automatio.Saving.Snapshot.{workflow_save_snapshot}
use relay_workflow_automatio.Saving.Diff.{nodes_snap}
use relay_workflow_automatio.Saving.Save.{Call, Held, Flags, Canvas, Outcome, handle_save}
use relay_workflow_automatio.Saving.Save.Sent.{AreSent}
use relay_workflow_automatio.Saving.Save.Saved.{AreNew, IsEditable, IsSaved}
use relay_workflow_automatio.Saving.Save.Complete.{handle_save-IsSaved}
use relay_workflow_automatio.Editing.Load.{backend_id, build_initial_state}
use relay_workflow_automatio.Editing.Load.Editable.{AreReal, build_initial_state-IsEditable}
use relay_workflow_automatio.Editing.Changes.{Frame, Editor}
use relay_workflow_automatio.Editing.History.{Reach}
use relay_workflow_automatio.Editing.History.Editable.{Reach-IsEditable}

-- the canvas that is loaded
abbrev pub first : Host → List Value → List Value → Frame
first host nodes edges = record {
  nodes = (build_initial_state host nodes edges).nodes;
  edges = (build_initial_state host nodes edges).edges;
}

-- the canvas of an editor, as a save takes it
abbrev pub canvas_of : Editor → Canvas
canvas_of s = record { nodes = s.canvas.nodes; edges = s.canvas.edges; revision = s.revision }

module _ (host : Host) {S : Type 0} (respond : Respond Call S)
    (add_edge : Edge → List Edge → List Edge) (nodes edges : List Value) where
  -- From loading to saving: where a workflow was loaded and edited by any steps of the handlers,
  -- without a save, a first save that reports success has made a call for each difference between
  -- the canvas and the nodes that were loaded and the connections that are held, and the editor then
  -- holds every node of the canvas, and no other, to be on the server; nothing has been changed since.
  -- The ids of the server are distinct and none has the editor's prefix, the ids that it gives are
  -- new, and so are those of `randomUUID`.
  pub edited-IsSaved :
      {counters : List (String × ℕ)} {s : Editor}
      → Distinct (map (backend_id host) nodes)
      → AreReal (map (backend_id host) nodes)
      → Reach host add_edge (first host nodes edges) counters s
      → (flags : Flags) (later : Canvas) (w w' : World Call (Held S)) (o : Outcome)
      → w.behind.nodes ≡ (build_initial_state host nodes edges).server_nodes
      → handle_save host respond flags (canvas_of s) later w ≡ (ok o, w')
      → o.saved ≡ true
      → AreNew w.behind.nodes (nodes_snap host s.canvas.nodes) w'.behind.temp_nodes
      → (cs : List Call) × (w'.made ≡ cs ++ w.made)
        × AreSent host w.behind.nodes w.behind.edges
            (nodes_snap host s.canvas.nodes)
            s.canvas.edges
            cs
        × IsSaved host (nodes_snap host s.canvas.nodes) w'.behind.nodes w'.behind.temp_nodes
        × (s.revision ≡ later.revision)
        × (workflow_save_snapshot host (nodes_snap host s.canvas.nodes) s.canvas.edges
            ≡ workflow_save_snapshot host later.nodes later.edges)
  edited-IsSaved {s = s} distinct real r flags later w w' o held e done new =
      let (editable, none_held) = build_initial_state-IsEditable host nodes edges distinct real in
      handle_save-IsSaved host respond flags (canvas_of s) later w w' o e done
        (subst (λ m. IsEditable m (nodes_snap host s.canvas.nodes)) (sym held)
          (Reach-IsEditable _ host add_edge none_held editable r))
        new
