-- ===== src/Editing/History/Undone.antt =====
-- Undo and redo are inverse to each other.
use relay_workflow_automatio.Prelude.{false, List, [], ◌∷◌, ◌≡◌, ◌≢◌, refl}
use relay_workflow_automatio.Editing.Changes.{
  Frame, Editor, or_frame, record_history, mark_unsaved, change_canvas,
}
use relay_workflow_automatio.Editing.History.{
  apply_history_snapshot, history_of, undo_to, handle_undo, handle_redo,
}

redo-undo_to :
    (s : Editor) (fs : List Frame)
    → fs ≢ []
    → let t = handle_redo false (undo_to fs s) in
      (t.canvas ≡ s.canvas) × (t.undo ≡ fs) × (t.redo ≡ s.redo)
unfolding handle_redo apply_history_snapshot mark_unsaved
redo-undo_to s [] h = absurd (h refl)
redo-undo_to s (f ∷ fs) h = (refl, refl, refl)

-- Where there is something to undo, redo after undo gives back the canvas with both stacks, of which
-- the one to undo has the change that the timer had not entered yet. Undo after any change gives back
-- the canvas from before the changes that the timer had not entered.
pub handle_redo-undo :
    (s : Editor) (c : Frame)
    → history_of s ≢ []
    → ((handle_redo false (handle_undo false s)).canvas ≡ s.canvas)
      × ((handle_redo false (handle_undo false s)).undo ≡ history_of s)
      × ((handle_redo false (handle_undo false s)).redo ≡ s.redo)
      × ((handle_undo false (change_canvas c s)).canvas ≡ or_frame s.frame s.canvas)
unfolding handle_undo record_history mark_unsaved history_of apply_history_snapshot
handle_redo-undo s c h =
    let (canvas, undo, redo) = redo-undo_to s (history_of s) h in (canvas, undo, redo, refl)
