-- ===== src/Saving.antt =====
-- Saving a workflow: Snapshot is frontend/src/components/workflow/workflowSaveState.js, Diff and Save
-- are handleSave of WorkflowBuilder.jsx beside it.
pub mod Snapshot
pub mod Diff
pub mod Save
