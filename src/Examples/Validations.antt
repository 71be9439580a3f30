-- ===== src/Examples/Validations.antt =====
-- A canvas with one node that is validated while it is edited, and an answer with one error.
use relay_workflow_automatio.Prelude.{
  ℕ, suc, Bool, true, false, String, Option, none, some, List, [], ◌∷◌, ◌≡◌, refl, arith,
}
use relay_workflow_automatio.Js.{
  integer, Value, bool, str, arr, obj, nil, cons, Fields, field, end, get, prop, put, strict_eq,
  items, truthy,
}
use relay_workflow_automatio.Js.Host.{Host}
use relay_workflow_automatio.Js.Text.{trim}
use relay_workflow_automatio.Js.Effect.{Result, ok, World}
use relay_workflow_automatio.Saving.Snapshot.{SavedNode}
use relay_workflow_automatio.Validation.Definition.{
  workflow_definition, canvas_definition, add_sample, definition_node,
}
use relay_workflow_automatio.Validation.Answer.{
  Checked, is_answer, node_named, normalize_issue, normalize_issues, normalize_validation,
  after_request,
}
use relay_workflow_automatio.Validation.Answer.Placed.{IsShown, normalize_validation-IsShown}
use relay_workflow_automatio.Validation.Inline.{
  Shown, key_of, Hook, over, clean_up, mount, render, fire, receive, Reach, mounted, later,
  rendering, firing, answering, result_of, is_pending,
}
use relay_workflow_automatio.Validation.Inline.Fresh.{HasOrigin}
use relay_workflow_automatio.Validation.Inline.Origin.{Reach-HasOrigin}
use relay_workflow_automatio.Examples.Samples.{host}

abbrev written : Value → String
written (arr (cons (str s) vs)) = s
written _ = "{}"

abbrev snapshot : Value
snapshot = obj (
    field "nodes" (arr (cons (obj (field "nodeId" (str "a") end)) nil))
      (field "edges" (arr nil) end))

-- A key is the scope, and every snapshot is read as that of the one node.
abbrev editing : Host
editing = record host { json_text = written; parse_json = λ s. some snapshot }

abbrev nodes : List SavedNode
nodes =
    record {
      id = "7";
      node_id = "a";
      type_id = "action.email";
      label = str "Mail";
      x = integer 0;
      y = integer 0;
      config = none;
    }
    ∷ []

abbrev issue : Value
issue = obj (field "node_id" (str "a") (field "message" (str "No recipient") end))

abbrev rejection : Value
rejection = obj (
    field "valid" (bool false)
      (field "errors" (arr (cons issue nil)) (field "warnings" (arr nil) end)))

abbrev approval : Value
approval =
    obj (field "valid" (bool true) (field "errors" (arr nil) (field "warnings" (arr nil) end)))

abbrev rejected : Checked
rejected = record {
  is_valid = false;
  errors =
      obj (
        field "node_id" (str "a") (
          field "message" (str "No recipient") (
            field "nodeId" (str "a")
              (field "canvasNodeId" (str "7") (field "nodeLabel" (str "Mail") end)))))
      ∷ [];
  warnings = [];
}

is_rejected : normalize_validation rejection nodes ≡ ok rejected
unfolding normalize_validation is_answer normalize_issues normalize_issue node_named prop get put
    items strict_eq truthy
is_rejected = refl

normalize_validation-IsShown_example : IsShown nodes rejection rejected
normalize_validation-IsShown_example =
    normalize_validation-IsShown nodes rejection rejected is_rejected

-- The canvas changes while the server is asked: it is no longer current after the answer.
abbrev reject : Fields → Bool → Result Value × Bool
reject definition current = (ok rejection, false)

abbrev before : World Fields Bool
before = record { behind = true; made = [] }

abbrev canvas : String → Shown
canvas scope = record { nodes = nodes; edges = []; sample_text = ""; scope = str scope }

-- The first canvas is sent, then the second; the answer to the first one comes late.
abbrev hook_run : (s : Hook) × Reach editing s
unfolding mount render fire receive key_of clean_up workflow_definition canvas_definition add_sample
    definition_node prop get trim
hook_run = (
  _,
  later
      (later
        (later
          (later (later (mounted (canvas "one")) (firing 0 (omega arith) refl))
            (rendering (canvas "two")))
          (firing 1 (omega arith) refl))
        (answering 1 _ (ok rejection) (omega arith) refl))
      (answering 0 _ (ok approval) (omega arith) refl),
)

late_is_dropped : (result_of hook_run.0 ≡ some rejected) × (is_pending hook_run.0 ≡ false)
unfolding mount render fire receive key_of clean_up workflow_definition canvas_definition add_sample
    definition_node prop get trim after_request result_of is_pending normalize_validation is_answer
    normalize_issues normalize_issue node_named put strict_eq truthy items
late_is_dropped = (refl, refl)

Reach-HasOrigin_example :
    ((c : Checked)
      → result_of hook_run.0 ≡ some c
      → (i : ℕ) × (key_of editing ((hook_run.0).runs i).on ≡ (hook_run.0).key)
        × HasOrigin editing (hook_run.0).log i ((hook_run.0).runs i).on c)
    × ((i : ℕ) (o : Option Checked)
        → suc i ≡ (hook_run.0).started
        → ((hook_run.0).runs i).current ≡ true
        → ((hook_run.0).runs i).stage ≡ over o
        → (result_of hook_run.0 ≡ o) × (is_pending hook_run.0 ≡ false))
Reach-HasOrigin_example = Reach-HasOrigin editing hook_run.1
