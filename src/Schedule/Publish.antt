-- ===== src/Schedule/Publish.antt =====
-- scheduleTrigger.js: publishing a workflow together with its schedule, and the retry.
pub mod Laws
pub mod Outcome
use Prim.Native.String.{◌++◌}
use relay_workflow_automatio.Prelude.{
  Bool, true, false, not, ◌&&◌, ◌||◌, String, Option, none, some, ◌==◌, if◌then◌else◌,
}
use relay_workflow_automatio.Js.{
  Value, undefined, Fields, prop, spread, truthy, is_text, num, fields_of,
}
use relay_workflow_automatio.Js.Host.{Host}
use relay_workflow_automatio.Js.Convert.{to_string}
use relay_workflow_automatio.Js.Effect.{
  Error, error, Result, ok, throws, World, Async, lift, pure, raise, attempt, ◌>>=◌, ◌>>◌, Respond,
  call,
}
use relay_workflow_automatio.Schedule.Config.{Schedule, normalize_schedule, schedule_fields}
use relay_workflow_automatio.Schedule.Draft.{PayloadDraft}
use relay_workflow_automatio.Schedule.Status.{schedule_error}
use relay_workflow_automatio.Schedule.Reconcile.{
  Call, get_workflow, get_workflow_versions, publish_workflow, on_published, Reconciled, throw_if,
  published_version, version_number, version_mismatch, reconcile_published_schedule,
}

pub data Published : Type 0 where
  reconciled : Reconciled → Option PayloadDraft → Option String → Published
  scheduling_failed : Value → String → Published

-- `publicationError || error`
abbrev first_of_errors : Result Value → Error → Error
first_of_errors (throws e) later = e
first_of_errors (ok v) later = later

abbrev or_text : String → String → String
or_text a b = if a == "" then b else a

abbrev warning : Result Value → Option String
warning (ok v) = none
warning (throws e) = some (
    "Workflow published, but lifecycle synchronization was not fully confirmed. "
    ++ or_text e.message "Refresh its state before retrying synchronization.")

-- `error.status ? scheduleError(error) : error.message`
abbrev failure_text : Error → String
failure_text e = elim e.status [
  | none ↦ e.message
  | some n ↦ if truthy (num n) then schedule_error (some n) else e.message
]

abbrev published_of : Value → Option PayloadDraft → Result Value → Result Reconciled → Published
published_of workflow draft publication (ok r) = reconciled r draft (warning publication)
published_of workflow draft publication (throws e) = scheduling_failed workflow (failure_text e)

module _ (host : Host) {S : Type 0} (respond : Respond Call S) where
  abbrev Api : Type 0 → Type 0
  Api A = Async Call S A

  unfoldable pub is_published : Value → Value → Bool
  is_published version_id workflow =
      to_string host (prop workflow "published_version_id") == to_string host version_id
      && is_text (prop workflow "status") "active"

  -- `workflow = await api.getWorkflow(workflowId)`, whose error yields to that of the publication
  unfoldable pub confirmed_workflow : Result Value → Result Value → Api Value
  confirmed_workflow publication (ok workflow) = pure workflow
  confirmed_workflow publication (throws e) = raise (first_of_errors publication e)

  unfoldable pub after_publication :
      String → Option PayloadDraft → Result Value → Value → Api Published
  after_publication workflow_id draft publication workflow = do
    result ← attempt (reconcile_published_schedule host respond workflow_id draft undefined)
    pure (published_of workflow draft publication result)

  -- `draft` is what `payloadDraft` stands for once the workflow is published.
  unfoldable pub publish_with_schedule :
      String → Value → Value → Option PayloadDraft → Api Published
  publish_with_schedule workflow_id number version_id draft = do
    publication ← attempt (call respond (publish_workflow workflow_id number))
    answer ← attempt (call respond (get_workflow workflow_id))
    workflow ← confirmed_workflow publication answer
    throw_if (not (is_published version_id workflow)) (
        first_of_errors publication
          (error "Publishing was not confirmed. Refresh workflow state before retrying."))
    call respond (on_published workflow) >>= λ _.
        after_publication workflow_id draft publication workflow

  unfoldable pub republish : String → Option PayloadDraft → Error → Api Reconciled
  republish workflow_id draft e = do
    workflow ← call respond (get_workflow workflow_id)
    versions ← call respond (get_workflow_versions workflow_id)
    version ← lift (published_version host respond workflow versions)
    throw_if (not (truthy version) || not (is_text (prop workflow "status") "active")) e
    call respond (publish_workflow workflow_id (version_number host respond version)) >>= λ _.
        reconcile_published_schedule host respond workflow_id draft undefined

  -- `error.code === "SCHEDULE_VERSION_MISMATCH"`
  unfoldable pub is_mismatch : Error → Bool
  is_mismatch e = elim e.code [ none ↦ false | some c ↦ c == "SCHEDULE_VERSION_MISMATCH" ]

  unfoldable pub after_attempt : String → Option PayloadDraft → Result Reconciled → Api Reconciled
  after_attempt workflow_id draft (ok r) = pure r
  after_attempt workflow_id draft (throws e) =
      if is_mismatch e then republish workflow_id draft e else raise e

  unfoldable pub retry_schedule_activation : String → Option PayloadDraft → Api Reconciled
  retry_schedule_activation workflow_id draft = do
    result ← attempt (reconcile_published_schedule host respond workflow_id draft undefined)
    after_attempt workflow_id draft result

unfoldable pub refresh_schedule_configuration : Fields → Value → Fields
refresh_schedule_configuration configuration unsaved =
    spread (schedule_fields (normalize_schedule configuration)) (fields_of unsaved)
