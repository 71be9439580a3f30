-- ===== src/Schedule.antt =====
-- frontend/src/components/workflow/scheduleTrigger.js: `Config` has the configuration and its
-- normal form, `Cron` the cron expressions, `Validate` the validation, `Payload` what is sent to
-- the server, `Draft` the unsaved payloads, `Status` the texts, `Reconcile` the activation.
pub mod Config
pub mod Cron
pub mod Validate
pub mod Payload
pub mod Draft
pub mod Status
pub mod Reconcile
pub mod Publish
