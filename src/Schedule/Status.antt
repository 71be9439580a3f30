-- ===== src/Schedule/Status.antt =====
-- scheduleTrigger.js: the texts that say how a schedule stands.
use Prim.Native.String.{◌++◌}
use relay_workflow_automatio.Prelude.{
  Bool, true, false, not, ◌&&◌, String, Option, none, some, List, [], ◌∷◌, ◌==◌, if◌then◌else◌, any,
  is_nil, ◌≡◌, ◌↔◌, arith, eq_iff,
}
use relay_workflow_automatio.Js.{Num, integer, num_eq, Value, str, prop, truthy, is_text, is_finite}
use relay_workflow_automatio.Js.Host.{Host}
use relay_workflow_automatio.Js.Convert.{to_string, to_number}
use relay_workflow_automatio.Js.Text.{trim}
use relay_workflow_automatio.Schedule.Config.{
  Schedule, normalize_schedule, schedule_fields, cron_presets,
}
use relay_workflow_automatio.Schedule.Validate.{validate_schedule}
use relay_workflow_automatio.Js.{Fields}

-- `schedule.next_run_at && Number.isFinite(Date.parse(schedule.next_run_at))`
unfoldable pub is_planned : Host → Value → Bool
is_planned host schedule =
    truthy (prop schedule "next_run_at")
    && is_finite (host.parse_date (to_string host (prop schedule "next_run_at")))

-- `String(a.workflow_version_id) === String(b.published_version_id)`
unfoldable pub same_version : Host → Value → Value → Bool
same_version host schedule workflow =
    to_string host (prop schedule "workflow_version_id")
    == to_string host (prop workflow "published_version_id")

unfoldable pub schedule_status : Host → Value → Bool → Value → String
schedule_status host workflow available schedule =
    if not (truthy (prop workflow "published_version_id"))
    then "Publish required"
    else if not available
    then "Schedule unavailable"
    else if not (host.to_lower (to_string host (prop workflow "status")) == "active")
    then "Workflow inactive"
    else if not (truthy schedule)
    then "Schedule not created"
    else if not (same_version host schedule workflow)
    then "Version mismatch"
    else if not (truthy (prop schedule "enabled"))
    then "Paused"
    else if is_planned host schedule
    then "Active"
    else "Scheduling needs attention"

-- The workflow is published and active, scheduling is available, and the schedule is for the
-- published version, enabled and planned.
abbrev pub IsActive : Host → Value → Bool → Value → Type 0
IsActive host workflow available schedule =
    (truthy (prop workflow "published_version_id") ≡ true)
    × (available ≡ true)
    × (host.to_lower (to_string host (prop workflow "status")) ≡ "active")
    × (truthy schedule ≡ true)
    × (to_string host (prop schedule "workflow_version_id")
        ≡ to_string host (prop workflow "published_version_id"))
    × (truthy (prop schedule "enabled") ≡ true)
    × (is_planned host schedule ≡ true)

-- The status says "Active" exactly when the workflow is published and active, scheduling is
-- available, and the schedule is for the published version, enabled and planned.
pub schedule_status-eq-IsActive_iff :
    (host : Host) (workflow : Value) (available : Bool) (schedule : Value)
    → (schedule_status host workflow available schedule ≡ "Active")
      ↔ IsActive host workflow available schedule
unfolding schedule_status same_version
schedule_status-eq-IsActive_iff host workflow available schedule = ground (
  arith,
  eq_iff (host.to_lower (to_string host (prop workflow "status"))) "active",
  eq_iff (to_string host (prop schedule "workflow_version_id"))
      (to_string host (prop workflow "published_version_id")),
  eq_iff "Publish required" "Active",
  eq_iff "Schedule unavailable" "Active",
  eq_iff "Workflow inactive" "Active",
  eq_iff "Schedule not created" "Active",
  eq_iff "Version mismatch" "Active",
  eq_iff "Paused" "Active",
  eq_iff "Scheduling needs attention" "Active",
)

-- A `Number` literal as the status of an error: `error?.status`
abbrev pub status_is : Option Num → List Num → Bool
status_is none codes = false
status_is (some n) codes = any (num_eq n) codes

pub schedule_error : Option Num → String
schedule_error status =
    if status_is status (integer 401 ∷ [])
    then "Your session has expired. Sign in again."
    else if status_is status (integer 404 ∷ [])
    then "The workflow or schedule was not found. Refresh its state."
    else if status_is status (integer 409 ∷ [])
    then "The schedule conflicts with the current workflow. Refresh, check that the workflow is active and its published version contains a Scheduled Trigger, then try again."
    else if status_is status (integer 422 ∷ [])
    then "The schedule was rejected. Check the interval, five-field cron expression, timezone, and JSON input."
    else if status_is status (integer 503 ∷ [])
    then "Scheduling is temporarily unavailable. Try again later."
    else if status_is status (integer 504 ∷ [])
    then "The request timed out. Refresh schedule state before trying again."
    else "The request could not be confirmed. Refresh schedule state before trying again."

preset_named : String → List (String × String) → Option String
preset_named expression [] = none
preset_named expression ((e, label) ∷ rest) =
    if e == expression then some label else preset_named expression rest

-- the text after `trim`, where the cron expression is a text
abbrev cron_text : Value → String
cron_text (str s) = trim s
cron_text _ = ""

module _ (host : Host) where
  abbrev cron_summary : Schedule → Option String → String
  cron_summary s (some label) = "Runs " ++ host.to_lower label
  cron_summary s none = "Runs on cron " ++ to_string host s.cron_expression

  -- For a schedule whose cron expression is a text.
  pub schedule_summary : Fields → String
  schedule_summary config =
      let s = normalize_schedule config in
      if not (is_nil (validate_schedule host (schedule_fields s)))
      then "Complete the schedule configuration below."
      else if is_text s.schedule_type "interval"
      then "Runs every "
        ++ (to_string host s.interval_minutes
            ++ (" minute"
                ++ (if num_eq (to_number host s.interval_minutes) (integer 1) then "" else "s")))
      else cron_summary s (preset_named (cron_text s.cron_expression) cron_presets)
        ++ (" (" ++ (to_string host s.timezone ++ ")"))
