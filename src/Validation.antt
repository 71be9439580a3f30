-- ===== src/Validation.antt =====
-- The server's validation of a canvas: Definition, Answer and Contract are
-- frontend/src/components/workflow/workflowValidation.js, Inline is useWorkflowValidation.js beside it.
pub mod Definition
pub mod Answer
pub mod Contract
pub mod Inline
