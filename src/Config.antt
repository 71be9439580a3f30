-- ===== src/Config.antt =====
-- frontend/src/components/workflow/configValidation.js, branchOptions.js: `Patterns` has the
-- regular expressions, `Normalize` the normal forms of configurations, `Node` the validation of one
-- node's configuration, `Options` the outcomes of a branching node, `Branches` the validation of
-- branch labels, `References` that of expressions, and `Workflow` that of the whole canvas.
pub mod Patterns
pub mod Normalize
pub mod Node
pub mod Options
pub mod Branches
pub mod References
pub mod Rename
pub mod Workflow
