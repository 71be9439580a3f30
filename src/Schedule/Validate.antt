-- ===== src/Schedule/Validate.antt =====
-- scheduleTrigger.js: the validation of a schedule configuration.
use relay_workflow_automatio.Prelude.{
  Bool, not, ◌&&◌, ◌||◌, String, List, [], ◌∷◌, ◌++◌, ltb, if◌then◌else◌,
}
use relay_workflow_automatio.Js.{
  Num, Fields, is_integer, num_lt, num_gt, truthy, is_text, is_record,
}
use relay_workflow_automatio.Js.Host.{Host}
use relay_workflow_automatio.Js.Text.{js_length}
use relay_workflow_automatio.Js.Convert.{to_string, to_number}
use relay_workflow_automatio.Schedule.Config.{Schedule, normalize_schedule}
use relay_workflow_automatio.Schedule.Cron.{valid_cron}

pub record FieldError : Type 0 where
  pub field : String
  pub message : String

-- `if (bad) errors.push({ field, message })`
abbrev pub error_if : Bool → String → String → List FieldError
error_if bad field message = if bad then record { field = field; message = message } ∷ [] else []

module _ (host : Host) where
  unfoldable pub bad_type : Schedule → Bool
  bad_type s = not (is_text s.schedule_type "interval" || is_text s.schedule_type "cron")

  unfoldable pub bad_minutes : Num → Bool
  bad_minutes n = not (is_integer n) || (num_lt n 1 || num_gt n 10080)

  unfoldable pub bad_interval : Schedule → Bool
  bad_interval s =
      is_text s.schedule_type "interval"
      && (is_text s.interval_minutes "" || bad_minutes (to_number host s.interval_minutes))

  unfoldable pub bad_cron : Schedule → Bool
  bad_cron s =
      is_text s.schedule_type "cron"
      && (ltb 100 (js_length (to_string host s.cron_expression))
          || not (valid_cron host s.cron_expression))

  unfoldable pub bad_timezone : Schedule → Bool
  bad_timezone s = not (truthy s.timezone && host.valid_time_zone (to_string host s.timezone))

  unfoldable pub bad_input : Schedule → Bool
  bad_input s = not (is_record s.input_data)

  unfoldable pub schedule_errors : Schedule → List FieldError
  schedule_errors s =
      error_if (bad_type s) "schedule_type" "Choose Interval or Cron."
      ++ (error_if (bad_interval s) "interval_minutes"
            "Enter a whole number from 1 to 10,080 minutes."
          ++ (error_if (bad_cron s) "cron_expression"
                "Enter a valid five-field cron expression (minute, hour, day, month, weekday)."
              ++ (error_if (bad_timezone s) "timezone" "Choose a valid IANA timezone."
                  ++ error_if (bad_input s) "input_data" "Scheduled input must be a JSON object.")))

  unfoldable pub validate_schedule : Fields → List FieldError
  validate_schedule config = schedule_errors (normalize_schedule config)
