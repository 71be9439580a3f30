-- ===== src/Schedule/Payload/Valid.antt =====
-- A configuration that passes the validation is sent as one that passes it too.
use relay_workflow_automatio.Prelude.{
  true, false, ◌||◌, String, [], ◌≡◌, refl, ap, ◌∙◌, arith, eq_iff, if◌then◌else◌, inl, inr,
  Bool-cases,
}
use relay_workflow_automatio.Js.{
  Value, undefined, null, bool, num, str, obj, Fields, is_text, is_string, is_record, truthy, get,
  or_nullish, is_undefined, integer,
}
use relay_workflow_automatio.Js.Host.{Host}
use relay_workflow_automatio.Js.Text.{trim}
use relay_workflow_automatio.Js.Text.Trim.{trim_idem, length-trim}
use relay_workflow_automatio.Js.Convert.{to_string, to_number, text_or_empty}
use relay_workflow_automatio.Js.Effect.{ok}
use relay_workflow_automatio.Schedule.Config.{Schedule, normalize_schedule, schedule_fields}
use relay_workflow_automatio.Schedule.Cron.{valid_cron, valid_cron_text}
use relay_workflow_automatio.Schedule.Validate.{
  schedule_errors, validate_schedule, bad_type, bad_interval, bad_cron, bad_timezone, bad_input,
}
use relay_workflow_automatio.Schedule.Payload.{payload_of, schedule_payload}

module _ (host : Host) where
  -- what an empty list of errors says
  record Passes (s : Schedule) : Type 0 where
    type_ok : bad_type host s ≡ false
    interval_ok : bad_interval host s ≡ false
    cron_ok : bad_cron host s ≡ false
    timezone_ok : bad_timezone host s ≡ false
    input_ok : bad_input host s ≡ false

  Passes-of_errors : (s : Schedule) → schedule_errors host s ≡ [] → Passes s
  unfolding schedule_errors
  Passes-of_errors s h = record {
    type_ok = ground arith;
    interval_ok = ground arith;
    cron_ok = ground arith;
    timezone_ok = ground arith;
    input_ok = ground arith;
  }

  errors-of_Passes : (s : Schedule) → Passes s → schedule_errors host s ≡ []
  unfolding schedule_errors
  errors-of_Passes s p = simp (p.type_ok, p.interval_ok, p.cron_ok, p.timezone_ok, p.input_ok)

  -- The normal form of the normal form differs only where a field is null.
  renormalize :
      (s : Schedule)
      → normalize_schedule (schedule_fields s) ≡ record {
        schedule_type =
            or_nullish s.schedule_type
              (if truthy undefined || truthy s.cron_expression then str "cron" else str "interval");
        interval_minutes = or_nullish s.interval_minutes (num (integer 30));
        cron_expression = or_nullish s.cron_expression (str "0 9 * * *");
        timezone = or_nullish s.timezone (str "Asia/Kolkata");
        enabled = or_nullish s.enabled (bool true);
        input_data = if is_undefined s.input_data then obj Fields.end else s.input_data;
      }
  unfolding normalize_schedule schedule_fields get
  renormalize s = refl

  text_value : (v : Value) (t : String) → is_text v t ≡ true → v ≡ str t
  unfolding is_text
  text_value (str s) t h = ap str ((eq_iff s t).0 h)
  text_value _ t h = ground arith

  interval_sent : Schedule → Schedule
  interval_sent s = record s {
    interval_minutes = num (to_number host s.interval_minutes);
    cron_expression = null;
  }

  cron_sent : String → Schedule → Schedule
  cron_sent t s = record s { interval_minutes = null; cron_expression = str (trim t) }

  valid_cron-trim : (t : String) → valid_cron host (str (trim t)) ≡ valid_cron host (str t)
  unfolding valid_cron valid_cron_text text_or_empty to_string
  valid_cron-trim t = rw trim_idem

  or_nullish_of_truthy : (v d : Value) → truthy v ≡ true → or_nullish v d ≡ v
  unfolding truthy
  or_nullish_of_truthy undefined d h = ground arith
  or_nullish_of_truthy null d h = ground arith
  or_nullish_of_truthy _ d h = refl

  input_of_record : (v d : Value) → is_record v ≡ true → (if is_undefined v then d else v) ≡ v
  input_of_record (obj fs) d h = refl
  input_of_record _ d h = ground arith

  -- The time zone and the input are sent as they are.
  timezone_kept :
      (s s' : Schedule) (d : Value)
      → s'.timezone ≡ or_nullish s.timezone d
      → bad_timezone host s ≡ false
      → bad_timezone host s' ≡ false
  unfolding bad_timezone
  timezone_kept s s' d e h =
      let same : s'.timezone ≡ s.timezone = e ∙ or_nullish_of_truthy s.timezone d (ground arith) in
      rw same h

  input_kept :
      (s s' : Schedule) (d : Value)
      → s'.input_data ≡ (if is_undefined s.input_data then d else s.input_data)
      → bad_input host s ≡ false
      → bad_input host s' ≡ false
  unfolding bad_input
  input_kept s s' d e h =
      let same : s'.input_data ≡ s.input_data = e ∙ input_of_record s.input_data d (ground arith) in
      rw same h

  interval_again : Schedule → Schedule
  interval_again s = record {
    schedule_type = str "interval";
    interval_minutes = num (to_number host s.interval_minutes);
    cron_expression = str "0 9 * * *";
    timezone = or_nullish s.timezone (str "Asia/Kolkata");
    enabled = or_nullish s.enabled (bool true);
    input_data = if is_undefined s.input_data then obj Fields.end else s.input_data;
  }

  Passes-interval :
      (s : Schedule) → s.schedule_type ≡ str "interval" → Passes s → Passes (interval_again s)
  unfolding interval_again bad_type bad_interval bad_cron is_text to_number
  Passes-interval s e p = record {
    type_ok = refl;
    interval_ok = ground (arith, p.interval_ok);
    cron_ok = refl;
    timezone_ok = timezone_kept s (interval_again s) (str "Asia/Kolkata") refl p.timezone_ok;
    input_ok = input_kept s (interval_again s) (obj Fields.end) refl p.input_ok;
  }

  cron_again : String → Schedule → Schedule
  cron_again t s = record {
    schedule_type = str "cron";
    interval_minutes = num (integer 30);
    cron_expression = str (trim t);
    timezone = or_nullish s.timezone (str "Asia/Kolkata");
    enabled = or_nullish s.enabled (bool true);
    input_data = if is_undefined s.input_data then obj Fields.end else s.input_data;
  }

  Passes-cron :
      (t : String) (s : Schedule)
      → s.schedule_type ≡ str "cron"
      → s.cron_expression ≡ str t
      → Passes s
      → Passes (cron_again t s)
  unfolding cron_again bad_type bad_interval bad_cron is_text to_string
  Passes-cron t s e c p = record {
    type_ok = refl;
    interval_ok = refl;
    cron_ok = ground (arith, p.cron_ok, valid_cron-trim t, length-trim t);
    timezone_ok = timezone_kept s (cron_again t s) (str "Asia/Kolkata") refl p.timezone_ok;
    input_ok = input_kept s (cron_again t s) (obj Fields.end) refl p.input_ok;
  }

  string_value : (v : Value) → is_string v ≡ true → (t : String) × (v ≡ str t)
  string_value (str t) h = (t, refl)
  string_value _ h = ground arith

  sent_interval :
      (s : Schedule)
      → s.schedule_type ≡ str "interval"
      → Passes s
      → (p : Schedule) × (payload_of host s ≡ ok p)
        × (validate_schedule host (schedule_fields p) ≡ [])
  unfolding payload_of is_text interval_sent interval_again validate_schedule
  sent_interval s e h = (
    interval_sent s,
    ground arith,
    rw renormalize (rw e (errors-of_Passes (interval_again s) (Passes-interval s e h))),
  )

  sent_cron :
      (t : String) (s : Schedule)
      → s.schedule_type ≡ str "cron"
      → s.cron_expression ≡ str t
      → Passes s
      → (p : Schedule) × (payload_of host s ≡ ok p)
        × (validate_schedule host (schedule_fields p) ≡ [])
  unfolding payload_of is_text cron_sent cron_again validate_schedule
  sent_cron t s e c h = (
    cron_sent t s,
    ground arith,
    rw renormalize (rw e (errors-of_Passes (cron_again t s) (Passes-cron t s e c h))),
  )

  sent :
      (s : Schedule)
      → schedule_errors host s ≡ []
      → (is_text s.schedule_type "cron" ≡ true → is_string s.cron_expression ≡ true)
      → (p : Schedule) × (payload_of host s ≡ ok p)
        × (validate_schedule host (schedule_fields p) ≡ [])
  unfolding bad_type
  sent s h text =
      let passes = Passes-of_errors s h in
      elim (Bool-cases (is_text s.schedule_type "cron")) [
        | inl cron ↦
            let (t, e) = string_value s.cron_expression (text cron) in
            sent_cron t s (text_value s.schedule_type "cron" cron) e passes
        | inr other ↦
            sent_interval s (text_value s.schedule_type "interval" (ground (arith, passes.type_ok)))
              passes
      ]

-- A configuration without errors, whose cron expression is a text if its type is cron, is turned
-- into a payload with no exception, and that payload has no errors either.
pub schedule_payload_valid :
    (host : Host) (config : Fields)
    → validate_schedule host config ≡ []
    → (is_text (normalize_schedule config).schedule_type "cron" ≡ true
        → is_string (normalize_schedule config).cron_expression ≡ true)
    → (p : Schedule) × (schedule_payload host config ≡ ok p)
      × (validate_schedule host (schedule_fields p) ≡ [])
unfolding schedule_payload validate_schedule
schedule_payload_valid host config h text = sent host (normalize_schedule config) h text
