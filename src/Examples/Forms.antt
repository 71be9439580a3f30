-- ===== src/Examples/Forms.antt =====
-- The schedule's form, its drafts and its status.
use relay_workflow_automatio.Prelude.{true, false, none, some, [], ◌≡◌, ◌⊎◌, refl, arith}
use relay_workflow_automatio.Js.{
  Fields, field, str, arr, cons, nil, end, is_text, is_string, get, truthy, is_integer, num_lt,
  num_gt,
}
use relay_workflow_automatio.Js.Convert.{to_number, to_string, text_or_empty}
use relay_workflow_automatio.Js.Text.{js_length, split_spaces, split_on, trim}
use relay_workflow_automatio.Schedule.Cron.{
  valid_cron, valid_cron_text, valid_fields, valid_field, valid_part, valid_pieces,
}
use relay_workflow_automatio.Js.Effect.{ok, throws, type_error}
use relay_workflow_automatio.Schedule.Config.{Schedule, schedule_fields, normalize_schedule}
use relay_workflow_automatio.Schedule.Validate.{
  validate_schedule, schedule_errors, bad_type, bad_minutes, bad_interval, bad_cron, bad_timezone,
  bad_input,
}
use relay_workflow_automatio.Schedule.Payload.{schedule_payload, payload_of}
use relay_workflow_automatio.Schedule.Payload.Valid.{schedule_payload_valid}
use relay_workflow_automatio.Schedule.Draft.{
  Storage, Drafts, read_payload_draft, write_payload_draft, clear_payload_draft,
}
use relay_workflow_automatio.Schedule.Draft.Laws.{read-write, read-clear}
use relay_workflow_automatio.Examples.Samples.{host, config}

full_storage : Storage
full_storage = record { stored = λ k. none; readable = true; writable = false }

abbrev drafts : Drafts
drafts = record { memory = λ k. none; storage = none }

read-write_example :
    read_payload_draft "w" (write_payload_draft "w" "{}" drafts)
    ≡ record { text = "{}"; dirty = true }
read-write_example = read-write "w" "{}" drafts

no_storage : (s : Storage) → drafts.storage ≡ some s → (s.readable ≡ false) ⊎ (s.writable ≡ true)
no_storage s e = ground arith

read-clear_example :
    read_payload_draft "w" (clear_payload_draft "w" drafts) ≡ record { text = "{}"; dirty = false }
read-clear_example = read-clear "w" drafts no_storage

no_errors : validate_schedule host config ≡ []
unfolding validate_schedule schedule_errors normalize_schedule bad_type bad_minutes bad_interval
    bad_cron bad_timezone bad_input get truthy is_text is_integer num_lt num_gt to_number to_string
no_errors = refl

not_cron :
    is_text (normalize_schedule config).schedule_type "cron" ≡ true
    → is_string (normalize_schedule config).cron_expression ≡ true
unfolding normalize_schedule get is_text
not_cron h = ground arith

schedule_payload_valid_example :
    (p : Schedule) × (schedule_payload host config ≡ ok p)
    × (validate_schedule host (schedule_fields p) ≡ [])
schedule_payload_valid_example = schedule_payload_valid host config no_errors not_cron

-- A list with one cron expression passes the validation, and then it has no method `trim`.
abbrev listed : Fields
listed =
    field "schedule_type" (str "cron") (
      field "cron_expression" (arr (cons (str "* * * * *") nil)) (field "timezone" (str "UTC") end))

listed_passes : validate_schedule host listed ≡ []
unfolding validate_schedule schedule_errors normalize_schedule bad_type bad_minutes bad_interval
    bad_cron bad_timezone bad_input get truthy is_text is_integer num_lt num_gt to_number to_string
    js_length valid_cron valid_cron_text valid_fields split_spaces trim text_or_empty valid_field
    split_on valid_part valid_pieces
listed_passes = refl

listed_throws : schedule_payload host listed ≡ throws type_error
unfolding schedule_payload payload_of normalize_schedule get is_text
listed_throws = refl
