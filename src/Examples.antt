-- ===== src/Examples.antt =====
-- Concrete canvases, configurations and runs, and what the theorems say of them.
pub mod Samples
mod Canvas
mod Activation
mod Forms
mod Requests
mod Runs
mod Checks
mod Session
mod Saves
mod Snapshots
mod Validations
mod Edits
mod Whole
