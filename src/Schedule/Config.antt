-- ===== src/Schedule/Config.antt =====
-- scheduleTrigger.js: presets and the normal form of a schedule configuration.
use relay_workflow_automatio.Prelude.{ℕ, true, ◌||◌, String, List, [], ◌∷◌, if◌then◌else◌}
use relay_workflow_automatio.Js.{
  Value, bool, num, str, obj, Fields, end, field, integer, get, or_nullish, truthy, is_undefined,
}

abbrev pub interval_presets : List (ℕ × String)
interval_presets =
    (5, "5 minutes")
    ∷ (15, "15 minutes")
    ∷ (30, "30 minutes")
    ∷ (60, "1 hour")
    ∷ (360, "6 hours")
    ∷ (720, "12 hours")
    ∷ (1440, "24 hours")
    ∷ []

abbrev pub cron_presets : List (String × String)
cron_presets =
    ("* * * * *", "Every minute")
    ∷ ("0 * * * *", "Every hour")
    ∷ ("0 9 * * *", "Daily at 9 AM")
    ∷ ("0 9 * * 1", "Every Monday at 9 AM")
    ∷ ("0 9 * * 1-5", "Weekdays at 9 AM")
    ∷ ("0 9 1 * *", "First day of month at 9 AM")
    ∷ []

-- The object that `normalizeSchedule` returns, and its properties in order.
pub record Schedule : Type 0 where
  pub schedule_type : Value
  pub interval_minutes : Value
  pub cron_expression : Value
  pub timezone : Value
  pub enabled : Value
  pub input_data : Value

unfoldable pub schedule_fields : Schedule → Fields
schedule_fields s = field "schedule_type" s.schedule_type (
    field "interval_minutes" s.interval_minutes (
      field "cron_expression" s.cron_expression (
        field "timezone" s.timezone
          (field "enabled" s.enabled (field "input_data" s.input_data end)))))

unfoldable pub normalize_schedule : Fields → Schedule
normalize_schedule config = record {
  schedule_type = or_nullish (get config "schedule_type") (
      if truthy (get config "cron") || truthy (get config "cron_expression")
      then str "cron"
      else str "interval");
  interval_minutes = or_nullish (get config "interval_minutes") (num (integer 30));
  cron_expression =
      or_nullish (get config "cron_expression") (or_nullish (get config "cron") (str "0 9 * * *"));
  timezone = or_nullish (get config "timezone") (str "Asia/Kolkata");
  enabled = or_nullish (get config "enabled") (bool true);
  input_data = if is_undefined (get config "input_data") then obj end else get config "input_data";
}
