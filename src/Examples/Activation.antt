-- ===== src/Examples/Activation.antt =====
-- Publishing a workflow with a schedule, and activating the schedule.
use relay_workflow_automatio.Prelude.{◌+◌, ◌≤◌, Bool, true, [], ◌≡◌, ◌⊎◌, refl, arith, ap}
use relay_workflow_automatio.Js.{
  Value, undefined, str, num, integer, truthy, prop, get, put, find_in, is_text, is_integer, num_lt,
  num_gt, num_eq, is_finite,
}
use relay_workflow_automatio.Js.Text.{trim, trim_start, trim_end, is_space}
use relay_workflow_automatio.Js.Convert.{to_string, to_number}
use relay_workflow_automatio.Schedule.Config.{schedule_fields, normalize_schedule}
use relay_workflow_automatio.Schedule.Validate.{
  validate_schedule, schedule_errors, bad_type, bad_minutes, bad_interval, bad_cron, bad_timezone,
  bad_input,
}
use relay_workflow_automatio.Schedule.Payload.{schedule_payload, payload_of}
use relay_workflow_automatio.Schedule.Draft.{parse_trigger_payload}
use relay_workflow_automatio.Schedule.Status.{is_planned, same_version}
use relay_workflow_automatio.Js.Effect.{
  Error, error, Result, ok, throws, World, ◌>>=◌, continue, call, pure, raise, lift, attempt,
}
use relay_workflow_automatio.Js.Effect.Rules.{total}
use relay_workflow_automatio.Schedule.Reconcile.{
  Call, Reconciled, on_published, reconcile_published_schedule, schedule_rows, find_row,
  published_version, version_number, throw_if, node_type, activate, parsed_draft, config_of,
  ensure_existing, find_existing, same_text, create_missing, checked, first_error, recover,
  synchronize, desired_input, changes_of, canonical_json, sort_keys, insert_sorted, send_changes,
  confirm,
}
use relay_workflow_automatio.Schedule.Reconcile.Calls.{
  creations, updates, publications, reconcile_writes_once,
}
use relay_workflow_automatio.Js.Effect.Log.{Log, Run}
use relay_workflow_automatio.Schedule.Reconcile.Confirmed.{
  IsConfirmed, IsUnscheduled, reconcile_confirms,
}
use relay_workflow_automatio.Schedule.Publish.{
  Published, is_published, confirmed_workflow, after_publication, after_attempt,
  publish_with_schedule, retry_schedule_activation,
}
use relay_workflow_automatio.Schedule.Publish.Laws.{publishings, notifications, publish_writes_once}
use relay_workflow_automatio.Schedule.Publish.Outcome.{publish_throws_quietly}
use relay_workflow_automatio.Examples.Samples.{
  host, answer, refuse, begin, edited, workflow, schedule,
}

reconcile_writes_once_example :
    (total creations (reconcile_published_schedule host answer "w" edited undefined begin).1.made
      ≤ total creations [] + 1)
    × (total updates (reconcile_published_schedule host answer "w" edited undefined begin).1.made
        ≤ total updates [] + 1)
    × (total publications
          (reconcile_published_schedule host answer "w" edited undefined begin).1.made
        ≤ total publications [])
reconcile_writes_once_example = reconcile_writes_once host answer "w" edited undefined begin

publish_writes_once_example :
    (total publishings
        (publish_with_schedule host answer "w" (num (integer 1)) (str "v1") edited begin).1.made
      ≤ total publishings [] + 1)
    × (total notifications
          (publish_with_schedule host answer "w" (num (integer 1)) (str "v1") edited begin).1.made
        ≤ total notifications [] + 1)
    × (total creations
          (publish_with_schedule host answer "w" (num (integer 1)) (str "v1") edited begin).1.made
        ≤ total creations [] + 1)
    × (total updates
          (publish_with_schedule host answer "w" (num (integer 1)) (str "v1") edited begin).1.made
        ≤ total updates [] + 1)
publish_writes_once_example =
    publish_writes_once host answer "w" edited (num (integer 1)) (str "v1") begin

ok_throws : (r : Reconciled) (e : Error) → ¬ (ok r ≡ throws e)
ok_throws r e h = ground (arith, h)

abbrev activated : Reconciled
activated = record { workflow = workflow; schedule = schedule; scheduled = true }

-- the activation of the sample workflow's schedule, which has none before
abbrev activation : Result Reconciled × World Call Bool
activation = reconcile_published_schedule host answer "w" edited undefined begin

activation_returns : activation.0 ≡ ok activated
unfolding ◌>>=◌ continue call pure raise lift attempt truthy prop get put find_in is_text to_string
    trim trim_start trim_end is_space is_integer num_lt num_gt num_eq to_number schedule_payload
    payload_of schedule_fields normalize_schedule validate_schedule schedule_errors bad_type
    bad_minutes bad_interval bad_cron bad_timezone bad_input parse_trigger_payload is_planned
    same_version is_finite reconcile_published_schedule schedule_rows find_row published_version
    version_number throw_if node_type activate parsed_draft config_of ensure_existing find_existing
    same_text create_missing checked first_error recover synchronize desired_input changes_of
    canonical_json sort_keys insert_sorted send_changes confirm
activation_returns = refl

reconcile_confirms_example :
    (es : Log Call) × Run answer begin activation.1 es
    × (((activated.scheduled ≡ true) × IsConfirmed host "w" es activated)
        ⊎ IsUnscheduled host "w" es activated)
reconcile_confirms_example =
    reconcile_confirms host answer "w" edited undefined begin activation.1 activated
      (ap (λ r. (r, activation.1)) activation_returns)

abbrev publication : Result Published × World Call Bool
publication = publish_with_schedule host answer "w" (num (integer 1)) (str "v1") edited begin

retry : Result Reconciled × World Call Bool
retry = retry_schedule_activation host answer "w" edited begin

retry_returns : retry.0 ≡ ok activated
unfolding retry retry_schedule_activation after_attempt ◌>>=◌ continue call pure raise lift attempt
    truthy prop get put find_in is_text to_string trim trim_start trim_end is_space is_integer
    num_lt num_gt num_eq to_number schedule_payload payload_of schedule_fields normalize_schedule
    validate_schedule schedule_errors bad_type bad_minutes bad_interval bad_cron bad_timezone
    bad_input parse_trigger_payload is_planned same_version is_finite reconcile_published_schedule
    schedule_rows find_row published_version version_number throw_if node_type activate parsed_draft
    config_of ensure_existing find_existing same_text create_missing checked first_error recover
    synchronize desired_input changes_of canonical_json sort_keys insert_sorted send_changes confirm
retry_returns = refl

-- A server that refuses to publish.
abbrev refusal : Result Published × World Call Bool
refusal = publish_with_schedule host refuse "w" (num (integer 1)) (str "v1") edited begin

refusal_throws : refusal.0 ≡ throws (error "refused")
unfolding publish_with_schedule is_published confirmed_workflow after_publication ◌>>=◌ continue
    call pure raise lift attempt truthy prop get put find_in is_text to_string trim trim_start
    trim_end is_space is_integer num_lt num_gt num_eq to_number schedule_payload payload_of
    schedule_fields normalize_schedule validate_schedule schedule_errors bad_type bad_minutes
    bad_interval bad_cron bad_timezone bad_input parse_trigger_payload is_planned same_version
    is_finite reconcile_published_schedule schedule_rows find_row published_version version_number
    throw_if node_type activate parsed_draft config_of ensure_existing find_existing same_text
    create_missing checked first_error recover synchronize desired_input changes_of canonical_json
    sort_keys insert_sorted send_changes confirm
refusal_throws = refl

reports_quietly : (v : Value) (s : Bool) → (a : Value) × ((refuse (on_published v) s).0 ≡ ok a)
reports_quietly v s = (undefined, refl)

publish_throws_quietly_example : total notifications refusal.1.made ≤ total notifications begin.made
publish_throws_quietly_example =
    publish_throws_quietly host refuse "w" edited reports_quietly (num (integer 1)) (str "v1") begin
      refusal.1 (error "refused") (ap (λ r. (r, refusal.1)) refusal_throws)
