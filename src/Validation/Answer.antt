-- ===== src/Validation/Answer.antt =====
-- workflowValidation.js: the reading of the server's answer, and the validation of a canvas, whose
-- answer is dropped where the canvas is no longer the one that was sent.
pub mod Placed
pub mod Judged
use relay_workflow_automatio.Prelude.{
  Bool, true, false, not, ◌&&◌, ◌||◌, String, Option, none, some, List, [], ◌∷◌, find, is_nil, map,
  if◌then◌else◌,
}
use relay_workflow_automatio.Js.{
  Value, undefined, bool, str, arr, obj, Fields, field, end, Items, prop, put, items, is_array,
  is_nullish, or_nullish, or_else, strict_eq, fields_of,
}
use relay_workflow_automatio.Js.Host.{Host}
use relay_workflow_automatio.Js.Effect.{
  error, type_error, Result, ok, throws, Async, World, pure, attempt, ◌>>=◌, Respond, call,
}
use relay_workflow_automatio.Graph.{Edge}
use relay_workflow_automatio.Saving.Snapshot.{SavedNode}
use relay_workflow_automatio.Validation.Definition.{workflow_definition}

-- What the editor shows of a validation.
pub record Checked : Type 0 where
  pub is_valid : Bool
  pub errors : List Value
  pub warnings : List Value

abbrev pub issue_node : Value → Value
issue_node issue = or_nullish (prop issue "node_id") (prop issue "nodeId")

unfoldable pub node_named : List SavedNode → Value → Option SavedNode
node_named nodes node_id = find (λ (n : SavedNode). strict_eq (str n.node_id) node_id) nodes

abbrev canvas_id : Option SavedNode → Value
canvas_id none = undefined
canvas_id (some n) = str n.id

abbrev label_of : Option SavedNode → Value
label_of none = undefined
label_of (some n) = n.label

-- `normalize`. An issue is an object; another value that is not null has no properties to copy.
unfoldable pub normalize_issue : List SavedNode → Value → Value
normalize_issue nodes issue =
    let node_id = issue_node issue in
    let node = node_named nodes node_id in
    obj (
      put (put (put (fields_of issue) "nodeId" node_id) "canvasNodeId" (canvas_id node)) "nodeLabel"
        (or_else (label_of node) node_id))

abbrev pub add_issue : List SavedNode → Value → Result (List Value) → Result (List Value)
add_issue nodes issue (throws e) = throws e
add_issue nodes issue (ok later) = ok (normalize_issue nodes issue ∷ later)

-- `issues.map(normalize)`: reading a property of null throws
unfoldable pub normalize_issues : List SavedNode → List Value → Result (List Value)
normalize_issues nodes [] = ok []
normalize_issues nodes (issue ∷ issues) =
    let rest = normalize_issues nodes issues in
    if is_nullish issue then throws type_error else add_issue nodes issue rest

abbrev pub listed : Value → List Value
listed (arr xs) = items xs
listed _ = []

abbrev is_bool : Value → Bool
is_bool (bool b) = true
is_bool _ = false

abbrev pub says_valid : Value → Bool
says_valid (bool b) = b
says_valid _ = false

-- does the answer have the form of one, without errors where it says that the canvas is valid?
unfoldable pub is_answer : Value → Bool
is_answer response =
    is_bool (prop response "valid")
    && is_array (prop response "errors")
    && is_array (prop response "warnings")
    && not (says_valid (prop response "valid") && not (is_nil (listed (prop response "errors"))))

abbrev checked_of : Bool → Result (List Value) → Result (List Value) → Result Checked
checked_of valid (ok errors) (ok warnings) =
    ok (record { is_valid = valid; errors = errors; warnings = warnings })
checked_of valid (ok errors) (throws e) = throws e
checked_of valid (throws e) _ = throws e

unfoldable pub normalize_validation : Value → List SavedNode → Result Checked
unfolding is_answer
normalize_validation response nodes =
    if is_answer response
    then checked_of (says_valid (prop response "valid"))
        (normalize_issues nodes (listed (prop response "errors")))
        (normalize_issues nodes (listed (prop response "warnings")))
    else throws (error "Invalid validation response.")

abbrev one_error : Fields → Checked
one_error issue = record { is_valid = false; errors = obj issue ∷ []; warnings = [] }

unfoldable pub validation_unavailable : Checked
validation_unavailable = one_error (
    field "code" (str "VALIDATION_UNAVAILABLE") (
      field "message"
        (str "Unable to validate this workflow. Check your connection and retry validation.") end))

unfoldable pub invalid_sample : String → Checked
invalid_sample message = one_error (
    field "code" (str "INVALID_SAMPLE_INPUT")
      (field "field" (str "sample_input") (field "message" (str message) end)))

-- `isCurrent() ? … : null`
abbrev pub if_current : Bool → Checked → Option Checked
if_current current checked = if current then some checked else none

abbrev pub or_unavailable : Result Checked → Checked
or_unavailable (ok checked) = checked
or_unavailable (throws e) = validation_unavailable

-- how the request with its `catch` ends: `isCurrent` is asked after the answer
unfoldable pub after_request : Bool → List SavedNode → Result Value → Option Checked
unfolding normalize_validation
after_request current nodes (ok response) =
    if_current current (or_unavailable (normalize_validation response nodes))
after_request current nodes (throws e) = if_current current validation_unavailable

module _ (host : Host) {S : Type 0} (respond : Respond Fields S) (is_current : S → Bool) where
  -- `isCurrent()`
  unfoldable pub ask_current : Async Fields S Bool
  ask_current w = (ok (is_current w.behind), w)

  abbrev pub check_definition : List SavedNode → Result Fields → Async Fields S (Option Checked)
  check_definition nodes (throws e) =
      ask_current >>= λ current. pure (if_current current (invalid_sample e.message))
  check_definition nodes (ok definition) = do
    response ← attempt (call respond definition)
    current ← ask_current
    pure (after_request current nodes response)

  unfoldable pub validate_canvas :
      List SavedNode → List Edge → String → Async Fields S (Option Checked)
  validate_canvas nodes edges text =
      check_definition nodes (workflow_definition host nodes edges text)
