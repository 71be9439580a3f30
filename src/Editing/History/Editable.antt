-- ===== src/Editing/History/Editable.antt =====
-- Whatever is done between two saves, the canvas can be saved.
use Prim.Native.String.{◌++◌}
use text.Mathlib.TextPositions.{starts_with-append}
use relay_workflow_automatio.Prelude.{
  ℕ, zero, suc, Bool, true, false, String, Option, none, some, List, [], ◌∷◌, map, find, All, ◌==◌,
  ◌≡◌, refl, arith, Bool-cases, inl, inr, starts_with, if◌then◌else◌,
}
use relay_workflow_automatio.Js.{Num}
use relay_workflow_automatio.Js.Host.{Host}
use relay_workflow_automatio.Graph.{Edge}
use relay_workflow_automatio.Saving.Snapshot.{SavedNode}
use relay_workflow_automatio.Saving.Diff.{ServerNode, is_temp_node, server_node_of, nodes_snap}
use relay_workflow_automatio.Saving.Save.Saved.{IsEditable}
use relay_workflow_automatio.Editing.Changes.{
  Frame, Editor, NodeData, or_frame, record_history, mark_unsaved, change_canvas, add_node,
  duplicate_node, forget_node, update_data, set_edges, handle_drop_node, handle_duplicate_node,
  handle_delete_node, handle_update_node_data, handle_reconnect, handle_edge_condition_change,
  handle_delete_edge, handle_connect,
}
use relay_workflow_automatio.Editing.History.{
  newest, enter, enter_history, handle_node_drag_start, handle_node_drag_stop, move_node, move,
  apply_history_snapshot, history_of, undo_to, handle_undo, redo_to, handle_redo, IsUnused, Step,
  dropping, duplicating, deleting, updating, reconnecting, labelling, deleting_edge, connecting,
  taking, moving, leaving, entering, undoing, redoing, Reach, loaded, later,
}
use relay_workflow_automatio.Editing.History.Sound.{
  IsSound, KeepsIds, IsSound-map, IsSound-filter, IsSound-appended, IsEditable-IsSound,
  IsSound-IsEditable,
}

-- No node is held to be on the server under a temporary id.
abbrev pub IsReal : List ServerNode → Type 0
IsReal mirror = (id : String) → starts_with id "temp-node-" ≡ true → server_node_of mirror id ≡ none

module _ (mirror : List ServerNode) where
  abbrev IsSoundFrame : Option Frame → Type 0
  IsSoundFrame none = Unit {0}
  IsSoundFrame (some f) = IsSound mirror f.nodes

  abbrev AreSoundFrames : List Frame → Type 0
  AreSoundFrames fs = All (λ (f : Frame). IsSound mirror f.nodes) fs

  -- of the canvas and of every canvas of the history
  record AreSound (s : Editor) : Type 0 where
    now : IsSound mirror s.canvas.nodes
    undone : AreSoundFrames s.undo
    redone : AreSoundFrames s.redo
    framed : IsSoundFrame s.frame

  or_frame-IsSound :
      (o : Option Frame) (c : Frame)
      → IsSoundFrame o
      → IsSound mirror c.nodes
      → IsSound mirror (or_frame o c).nodes
  or_frame-IsSound none c h k = k
  or_frame-IsSound (some f) c h k = h

  newest-AreSound : (n : ℕ) (fs : List Frame) → AreSoundFrames fs → AreSoundFrames (newest n fs)
  unfolding newest
  newest-AreSound zero fs h = tt
  newest-AreSound (suc n) [] h = tt
  newest-AreSound (suc n) (f ∷ fs) (k, h) = (k, newest-AreSound n fs h)

  enter-AreSound :
      (o : Option Frame) (fs : List Frame)
      → IsSoundFrame o
      → AreSoundFrames fs
      → AreSoundFrames (enter o fs)
  enter-AreSound none fs k h = h
  enter-AreSound (some f) fs k h = (k, newest-AreSound 49 fs h)

  if-AreSound : {s t : Editor} (b : Bool) → AreSound s → AreSound t → AreSound (if b then s else t)
  if-AreSound true h k = h
  if-AreSound false h k = k

  record-AreSound : {s : Editor} → AreSound s → AreSound (record_history s)
  unfolding record_history
  record-AreSound {s} h = record {
    now = h.now;
    undone = h.undone;
    redone = h.redone;
    framed = or_frame-IsSound s.frame s.canvas h.framed h.now;
  }

  change-AreSound :
      {s : Editor} (c : Frame) → IsSound mirror c.nodes → AreSound s → AreSound (change_canvas c s)
  unfolding record_history mark_unsaved
  change-AreSound {s} c k h = record {
    now = k;
    undone = h.undone;
    redone = h.redone;
    framed = or_frame-IsSound s.frame s.canvas h.framed h.now;
  }

  edges-AreSound :
      {s : Editor} (b : Bool) (es : List Edge) → AreSound s → AreSound (set_edges b es s)
  edges-AreSound {s} b es h =
      if-AreSound b h (change-AreSound (record { nodes = s.canvas.nodes; edges = es }) h.now h)

  -- a canvas with its nodes changed one by one
  nodes-AreSound :
      {s : Editor} (b : Bool) (f : SavedNode → SavedNode) (ns : List SavedNode) (es : List Edge)
      → KeepsIds mirror f
      → IsSound mirror ns
      → AreSound s
      → AreSound (if b then s else change_canvas (record { nodes = map f ns; edges = es }) s)
  nodes-AreSound b f ns es keeps k h = if-AreSound b h (
      change-AreSound (record { nodes = map f ns; edges = es }) (IsSound-map mirror f keeps ns k) h)

  forget-KeepsIds : (id : String) → KeepsIds mirror (forget_node id)
  forget-KeepsIds id n = elim (Bool-cases (n.type_id == "ai.decision")) [
    | inl holds ↦ rw holds (refl, refl, refl)
    | inr fails ↦ rw fails (refl, refl, refl)
  ]

  update-KeepsIds : (id : String) (d : NodeData) → KeepsIds mirror (update_data id d)
  update-KeepsIds id d n = elim (Bool-cases (n.id == id)) [
    | inl holds ↦ rw holds (refl, refl, refl)
    | inr fails ↦ rw fails (refl, refl, refl)
  ]

  move-KeepsIds : (id : String) (x y : Num) → KeepsIds mirror (move_node id x y)
  move-KeepsIds id x y n = elim (Bool-cases (n.id == id)) [
    | inl holds ↦ rw holds (refl, refl, refl)
    | inr fails ↦ rw fails (refl, refl, refl)
  ]

  module _ (host : Host) (add_edge : Edge → List Edge → List Edge) (real : IsReal mirror) where
    add-AreSound :
        {s : Editor} (n : SavedNode) (type_id uuid : String)
        → n.id ≡ "temp-node-" ++ uuid
        → IsUnused uuid s
        → AreSound s
        → AreSound (add_node host n type_id s)
    unfolding is_temp_node record_history mark_unsaved
    add-AreSound {s} n type_id uuid e unused h =
        let temporary : is_temp_node n ≡ true = rw e (starts_with-append "temp-node-" uuid) in
        record {
          now =
              IsSound-appended mirror s.canvas.nodes n (rw e unused)
                (λ other. absurd (ground (arith, temporary, other)), λ _. real n.id temporary)
                h.now;
          undone = h.undone;
          redone = h.redone;
          framed = or_frame-IsSound s.frame s.canvas h.framed h.now;
        }

    duplicate-AreSound :
        {s : Editor} (id : String) (o : Option SavedNode) (uuid : String)
        → IsUnused uuid s
        → AreSound s
        → AreSound (duplicate_node host id o uuid s)
    duplicate-AreSound id none uuid unused h = h
    duplicate-AreSound id (some n) uuid unused h =
        if-AreSound _ (record-AreSound h) (add-AreSound _ _ uuid refl unused h)

    undo-AreSound :
        {s : Editor} (fs : List Frame) → AreSoundFrames fs → AreSound s → AreSound (undo_to fs s)
    unfolding apply_history_snapshot mark_unsaved
    undo-AreSound [] k h = h
    undo-AreSound (f ∷ fs) (k, ks) h = record {
      now = k;
      undone = ks;
      redone = (h.now, h.redone);
      framed = tt;
    }

    history-AreSound : {s : Editor} → AreSound s → AreSoundFrames (history_of s)
    unfolding history_of
    history-AreSound {s} h = go s.frame refl h.framed
      where
        go : (o : Option Frame) → s.frame ≡ o → IsSoundFrame o → AreSoundFrames (history_of s)
        go none e k = rw e h.undone
        go (some f) e k = elim (Bool-cases s.has_timer) [
          | inl holds ↦ rw (e, holds) (k, h.undone)
          | inr fails ↦ rw (e, fails) h.undone
        ]

    redo-AreSound :
        {s : Editor} (fs : List Frame) → AreSoundFrames fs → AreSound s → AreSound (redo_to fs s)
    unfolding apply_history_snapshot mark_unsaved
    redo-AreSound [] k h = h
    redo-AreSound (f ∷ fs) (k, ks) h = record {
      now = k;
      undone = (h.now, h.undone);
      redone = ks;
      framed = h.framed;
    }

    Step-AreSound : {s t : Editor} → Step host add_edge s t → AreSound s → AreSound t
    unfolding handle_drop_node handle_duplicate_node handle_delete_node handle_update_node_data
        handle_reconnect handle_edge_condition_change handle_delete_edge handle_connect
        handle_node_drag_start handle_node_drag_stop move enter_history mark_unsaved handle_undo
        handle_redo
    Step-AreSound (dropping b d x y uuid unused) h =
        if-AreSound _ h (add-AreSound _ _ uuid refl unused h)
    Step-AreSound {s} (duplicating b id uuid unused) h =
        if-AreSound b h (
          duplicate-AreSound id (find (λ (n : SavedNode). n.id == id) s.canvas.nodes) uuid unused h)
    Step-AreSound {s} (deleting b id) h =
        nodes-AreSound b _ _ _ (forget-KeepsIds _) (IsSound-filter mirror _ s.canvas.nodes h.now) h
    Step-AreSound {s} (updating b id d) h = nodes-AreSound b _ _ _ (update-KeepsIds id d) h.now h
    Step-AreSound (reconnecting b id source target) h = edges-AreSound b _ h
    Step-AreSound (labelling b value id) h = edges-AreSound _ _ h
    Step-AreSound (deleting_edge b id) h = edges-AreSound b _ h
    Step-AreSound (connecting b time source target) h = edges-AreSound b _ h
    Step-AreSound {s} (taking b) h =
        if-AreSound b h
          (record { now = h.now; undone = h.undone; redone = h.redone; framed = h.now })
    Step-AreSound {s} (moving id x y) h = record {
      now = IsSound-map mirror (move_node id x y) (move-KeepsIds id x y) s.canvas.nodes h.now;
      undone = h.undone;
      redone = h.redone;
      framed = h.framed;
    }
    Step-AreSound {s} (leaving b) h = if-AreSound b h (record {
      now = h.now;
      undone =
          enter-AreSound (some (or_frame s.frame s.canvas)) s.undo
            (or_frame-IsSound s.frame s.canvas h.framed h.now) h.undone;
      redone = tt;
      framed = tt;
    })
    Step-AreSound {s} (entering armed) h = record {
      now = h.now;
      undone = enter-AreSound s.frame s.undo h.framed h.undone;
      redone = tt;
      framed = tt;
    }
    Step-AreSound {s} (undoing b) h =
        if-AreSound b h (undo-AreSound (history_of s) (history-AreSound h) h)
    Step-AreSound {s} (redoing b) h = if-AreSound b h (redo-AreSound s.redo h.redone h)

    Reach-AreSound :
        {c : Frame} {counters : List (String × ℕ)} {s : Editor}
        → IsSound mirror c.nodes
        → Reach host add_edge c counters s
        → AreSound s
    Reach-AreSound sound loaded = record { now = sound; undone = tt; redone = tt; framed = tt }
    Reach-AreSound sound (later r st) = Step-AreSound st (Reach-AreSound sound r)

    -- However a canvas that can be saved is edited by the handlers, with undo and redo in any order, it
    -- can be saved as long as no save comes between. `randomUUID` gives ids that are on no node, no node is held to be
    -- on the server under a temporary id, and `addEdge` is any function.
    pub Reach-IsEditable :
        {c : Frame} {counters : List (String × ℕ)} {s : Editor}
        → IsEditable mirror c.nodes
        → Reach host add_edge c counters s
        → IsEditable mirror (nodes_snap host s.canvas.nodes)
    unfolding nodes_snap
    Reach-IsEditable editable r = IsSound-IsEditable mirror (
        IsSound-map mirror _ (λ n. (refl, refl, refl)) _
          (Reach-AreSound (IsEditable-IsSound mirror editable) r).now)
