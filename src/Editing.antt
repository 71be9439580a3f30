-- ===== src/Editing.antt =====
-- The editor's canvas: Catalogue is frontend/src/components/workflow/nodeDefinitions.js, Load, Changes
-- and History are the loading, the handlers and the undo and redo of WorkflowBuilder.jsx beside it.
pub mod Catalogue
pub mod Load
pub mod References
pub mod Changes
pub mod History
pub mod Saved
