-- ===== src/Executions.antt =====
-- lib/executions.js and lib/executionPayload.js: what the pages show of executions.
pub mod Status
pub mod Canvas
pub mod Payload
pub mod Tokens
pub mod Validate
