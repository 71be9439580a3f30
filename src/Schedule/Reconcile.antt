-- ===== src/Schedule/Reconcile.antt =====
-- scheduleTrigger.js: bringing the server's schedule in line with the published workflow. The
-- API's functions are calls that the parameter `respond` answers. Rows and responses are objects
-- where a property of them is read.
pub mod Answers
pub mod Calls
pub mod Owned
pub mod Confirmed
use relay_workflow_automatio.Prelude.{
  Bool, true, false, not, ◌&&◌, ◌||◌, String, Option, none, some, List, [], ◌∷◌, ◌==◌, any, filter,
  if◌then◌else◌,
}
use relay_workflow_automatio.Js.{
  Num, integer, num_eq, Value, undefined, null, num, bool, str, arr, obj, Fields, end, field, Items,
  nil, cons, get, put, prop, or_nullish, or_else, truthy, is_text, is_array, is_record,
  is_undefined, find_in, fields_of,
}
use relay_workflow_automatio.Js.Host.{Host}
use relay_workflow_automatio.Js.Convert.{to_string}
use relay_workflow_automatio.Js.Effect.{
  Error, error, type_error, Result, ok, throws, World, Async, lift, pure, raise, attempt, ◌>>=◌,
  ◌>>◌, Respond, call,
}
use relay_workflow_automatio.Schedule.Config.{Schedule, schedule_fields}
use relay_workflow_automatio.Schedule.Validate.{FieldError, validate_schedule}
use relay_workflow_automatio.Schedule.Payload.{schedule_payload}
use relay_workflow_automatio.Schedule.Draft.{
  PayloadDraft, ParsedPayload, input, rejected, parse_trigger_payload,
}
use relay_workflow_automatio.Schedule.Status.{is_planned, same_version}

-- The calls of the API, and the caller's `onPublished`.
pub data Call : Type 0 where
  get_workflow get_workflow_versions : String → Call
  get_workflow_nodes : String → Value → Call
  list_schedules : Call
  create_schedule : Fields → Call
  update_schedule : Value → Fields → Call
  get_schedule : Value → Call
  publish_workflow : String → Value → Call
  on_published : Value → Call

-- `scheduleRows`
unfoldable pub schedule_rows : Value → String → Value
schedule_rows response key =
    if is_array response
    then response
    else or_else (prop response key)
        (or_else (prop response "results") (or_else (prop response "data") (arr nil)))

-- `rows.find(p)`, which throws where the rows are no array
abbrev found_row : Option Value → Result Value
found_row none = throws type_error
found_row (some v) = ok v

unfoldable pub find_row : (Value → Bool) → Value → Result Value
find_row p rows = found_row (find_in p rows)

module _ (host : Host) where
  -- inserts a property before the first one whose name does not collate before it
  unfoldable pub insert_sorted : String → Value → Fields → Fields
  insert_sorted k v end = field k v end
  insert_sorted k v (field j w fs) =
      if host.collates k j then field k v (field j w fs) else field j w (insert_sorted k v fs)

  unfoldable mutual
    pub sort_keys : Value → Value
    sort_keys (obj fs) = obj (sort_fields fs)
    sort_keys (arr xs) = arr (sort_items xs)
    sort_keys v = v

    pub sort_fields : Fields → Fields
    sort_fields end = end
    sort_fields (field k v fs) = insert_sorted k (sort_keys v) (sort_fields fs)

    pub sort_items : Items → Items
    sort_items nil = nil
    sort_items (cons v vs) = cons (sort_keys v) (sort_items vs)

  unfoldable pub canonical_json : Value → String
  canonical_json v = host.json_text (sort_keys v)

  unfoldable pub same_text : Value → Value → Bool
  same_text a b = to_string host a == to_string host b

  abbrev pub sent_fields : List String
  sent_fields =
      "schedule_type" ∷ "interval_minutes" ∷ "cron_expression" ∷ "timezone" ∷ "input_data" ∷ []

  -- the fields whose canonical text differs
  unfoldable pub changes_of : Value → Fields → List String → Fields
  unfolding canonical_json
  changes_of existing desired [] = end
  changes_of existing desired (name ∷ names) =
      let rest = changes_of existing desired names in
      if canonical_json (or_nullish (prop existing name) null) == canonical_json (get desired name)
      then rest
      else field name (get desired name) rest

  unfoldable pub node_type : Value → Value
  node_type node =
      or_else (prop node "node_type")
        (or_else (prop node "type") (prop (prop node "data") "typeId"))

  -- `errors.length` leads to the first error's message
  unfoldable pub first_error : List FieldError → Result (Unit {0})
  first_error [] = ok tt
  first_error (e ∷ es) = throws (error e.message)

  -- `schedulePayload({ ...config, ...})` with its validation
  unfoldable pub checked : Result Schedule → Result Schedule
  checked (throws e) = throws e
  checked (ok desired) = elim (first_error (validate_schedule host (schedule_fields desired))) [
    | ok _ ↦ ok desired
    | throws e ↦ throws e
  ]

  -- `error.status && ![409, 503, 504].includes(error.status)`
  unfoldable pub status_in : List Num → Num → Bool
  status_in codes n = any (num_eq n) codes

  abbrev definite_status : Option Num → Bool
  definite_status none = false
  definite_status (some n) =
      truthy (num n) && not (status_in (integer 409 ∷ integer 503 ∷ integer 504 ∷ []) n)

  unfoldable pub is_definite : Error → Bool
  unfolding status_in
  is_definite e = definite_status e.status

  unfoldable pub parsed_draft : Option PayloadDraft → Result Value
  parsed_draft none = ok (obj end)
  parsed_draft (some d) =
      if d.dirty
      then elim (parse_trigger_payload host d.text) [
        | input v ↦ ok v
        | rejected m ↦ throws (error m)
      ]
      else ok (obj end)

  abbrev is_dirty : Option PayloadDraft → Bool
  is_dirty none = false
  is_dirty (some d) = d.dirty

pub record Reconciled : Type 0 where
  pub workflow : Value
  pub schedule : Value
  pub scheduled : Bool

-- `if (test) throw error`
unfoldable pub throw_if : {C S : Type 0} → Bool → Error → Async C S (Unit {0})
throw_if test e = if test then raise e else pure tt

abbrev pub version_mismatch : Error
version_mismatch = record {
  message =
      "Schedule version mismatch. Workflow publication succeeded, but lifecycle synchronization needs attention. Retry schedule activation to synchronize the published version.";
  status = none;
  code = some "SCHEDULE_VERSION_MISMATCH";
}

module _ (host : Host) {S : Type 0} (respond : Respond Call S) where
  abbrev Api : Type 0 → Type 0
  Api A = Async Call S A

  -- `versions.find((item) => String(item.id) === String(workflow.published_version_id))`
  unfoldable pub published_version : Value → Value → Result Value
  unfolding same_text
  published_version workflow versions =
      find_row (λ item. same_text host (prop item "id") (prop workflow "published_version_id"))
        (schedule_rows versions "versions")

  unfoldable pub version_number : Value → Value
  version_number version = or_nullish (prop version "version_number") (prop version "version")

  unfoldable pub find_existing : String → Api Value
  unfolding same_text
  find_existing workflow_id = do
    schedules ← call respond list_schedules
    lift (
        find_row (λ item. same_text host (prop item "workflow_id") (str workflow_id))
          (schedule_rows schedules "schedules"))

  -- the `catch` of the creation: look once more, and never create again
  unfoldable pub recover : String → Result Value → Api Value
  recover workflow_id (ok created) = pure created
  recover workflow_id (throws e) = if is_definite host e then raise e else (do
    existing ← find_existing workflow_id
    if truthy existing then pure existing else raise e)

  unfoldable pub create_missing : String → Value → Value → Api Value
  unfolding checked recover
  create_missing workflow_id config parsed = do
    desired ←
        lift (checked host (schedule_payload host (put (fields_of config) "input_data" parsed)))
    created ← attempt (
        call respond
          (create_schedule (field "workflow_id" (str workflow_id) (schedule_fields desired))))
    recover workflow_id created

  unfoldable pub ensure_existing : String → Value → Value → Api Value
  unfolding create_missing
  ensure_existing workflow_id config parsed = do
    existing ← find_existing workflow_id
    if truthy existing then pure existing else create_missing workflow_id config parsed

  unfoldable pub send_changes : Value → Fields → Api Value
  send_changes existing end = pure undefined
  send_changes existing changes = call respond (update_schedule (prop existing "id") changes)

  -- the checks after the last read
  unfoldable pub confirm : Value → Value → Api Reconciled
  unfolding throw_if
  confirm workflow schedule = do
    throw_if (not (same_version host schedule workflow))
        (error "Schedule version mismatch. Refresh schedule state and retry activation.")
    throw_if (truthy (prop schedule "enabled") && not (is_planned host schedule)) (
        error
          "Automatic scheduling could not be confirmed. Refresh schedule state and explicitly resume the schedule if appropriate.")
    pure (record { workflow = workflow; schedule = schedule; scheduled = true })

  -- what the draft's input is for an existing schedule
  unfoldable pub desired_input : Option PayloadDraft → Value → Value → Value
  desired_input draft parsed existing =
      if is_dirty host draft then parsed else or_nullish (prop existing "input_data") (obj end)

  unfoldable pub synchronize : Value → Value → Option PayloadDraft → Value → Value → Api Reconciled
  unfolding throw_if checked desired_input
  synchronize workflow config draft parsed existing = do
    throw_if (not (same_version host existing workflow)) version_mismatch
    desired ← lift (
        checked host (
          schedule_payload host (
            put (put (fields_of config) "enabled" (prop existing "enabled")) "input_data"
              (desired_input draft parsed existing))))
    send_changes existing (changes_of host existing (schedule_fields desired) (sent_fields host))
    schedule ← call respond (get_schedule (prop existing "id"))
    confirm workflow schedule

  -- `intendedConfig ?? trigger.configuration ?? trigger.config ?? trigger.data?.config ?? {}`
  unfoldable pub config_of : Value → Value → Value
  config_of intended trigger = or_nullish intended (
      or_nullish (prop trigger "configuration") (
        or_nullish (prop trigger "config")
          (or_nullish (prop (prop trigger "data") "config") (obj end))))

  unfoldable pub activate : String → Value → Value → Option PayloadDraft → Value → Api Reconciled
  unfolding parsed_draft throw_if
  activate workflow_id workflow trigger draft intended = do
    throw_if (not (is_text (prop workflow "status") "active"))
        (error "Activate the workflow before scheduling automatic runs.")
    parsed ← lift (parsed_draft host draft)
    existing ← ensure_existing workflow_id (config_of intended trigger) parsed
    synchronize workflow (config_of intended trigger) draft parsed existing

  unfoldable pub reconcile_published_schedule :
      String → Option PayloadDraft → Value → Api Reconciled
  unfolding throw_if
  reconcile_published_schedule workflow_id draft intended = do
    workflow ← call respond (get_workflow workflow_id)
    throw_if (not (truthy (prop workflow "published_version_id")))
        (error "Publish this workflow before activating its schedule.")
    versions ← call respond (get_workflow_versions workflow_id)
    version ← lift (published_version workflow versions)
    throw_if (not (truthy version) || not (is_text (prop version "status") "published"))
        (error "The published workflow version could not be confirmed. Refresh and try again.")
    nodes ← call respond (get_workflow_nodes workflow_id (version_number version))
    trigger ← lift (
        find_row (λ node. is_text (node_type host node) "trigger.schedule")
          (schedule_rows nodes "nodes"))
    if truthy trigger
        then activate workflow_id workflow trigger draft intended
        else pure (record { workflow = workflow; schedule = null; scheduled = false })
