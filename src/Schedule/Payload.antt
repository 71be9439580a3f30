-- ===== src/Schedule/Payload.antt =====
-- scheduleTrigger.js: what is sent to the server.
pub mod Valid
use relay_workflow_automatio.Prelude.{String, if◌then◌else◌}
use relay_workflow_automatio.Js.{
  Value, undefined, null, bool, num, str, arr, obj, Fields, is_text, remove,
}
use relay_workflow_automatio.Js.Host.{Host}
use relay_workflow_automatio.Js.Text.{trim}
use relay_workflow_automatio.Js.Convert.{to_number}
use relay_workflow_automatio.Js.Effect.{Result, ok, throws, type_error}
use relay_workflow_automatio.Schedule.Config.{Schedule, normalize_schedule, schedule_fields}

-- `v.trim()` is a method of strings only.
abbrev trimmed : Value → Result Value
trimmed (str s) = ok (str (trim s))
trimmed _ = throws type_error

abbrev with_cron : Schedule → Result Value → Result Schedule
with_cron s (ok v) = ok (record s { cron_expression = v })
with_cron s (throws e) = throws e

module _ (host : Host) where
  unfoldable pub payload_of : Schedule → Result Schedule
  payload_of s =
      with_cron
        (record s {
          interval_minutes =
              if is_text s.schedule_type "interval"
              then num (to_number host s.interval_minutes)
              else null;
        })
        (if is_text s.schedule_type "cron" then trimmed s.cron_expression else ok null)

  unfoldable pub schedule_payload : Fields → Result Schedule
  schedule_payload config = payload_of (normalize_schedule config)

  abbrev without_input : Result Schedule → Result Fields
  without_input (ok s) = ok (remove (schedule_fields s) "input_data")
  without_input (throws e) = throws e

  unfoldable pub schedule_node_payload : Fields → Result Fields
  schedule_node_payload config = without_input (schedule_payload config)
