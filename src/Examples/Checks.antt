-- ===== src/Examples/Checks.antt =====
-- The checks of branches, references and decisions.
use relay_workflow_automatio.Prelude.{true, String, List, [], ◌∷◌, In, ◌≡◌, ◌↔◌}
use relay_workflow_automatio.Js.{Value, str, arr, obj, cons, nil, end, field}
use relay_workflow_automatio.Graph.{Node, Edge}
use relay_workflow_automatio.Config.Node.Ai.{allowed_errors}
use relay_workflow_automatio.Config.Node.Ai.Decisions.{
  AreDecisions, allowed_errors-AreDecisions_iff,
}
use relay_workflow_automatio.Config.Branches.{branches, validate_condition_branches}
use relay_workflow_automatio.Config.Branches.Labelled.{
  IsBranched, validate_condition_branches-IsBranched_iff,
}
use relay_workflow_automatio.Config.References.{validate_decision_references}
use relay_workflow_automatio.Config.References.Available.{
  IsAvailable, checked_texts, validate_decision_references-IsAvailable_iff,
}
use relay_workflow_automatio.Js.Text.{split_spaces, trim}
use relay_workflow_automatio.Schedule.Cron.{kinds, valid_cron_text}
use relay_workflow_automatio.Schedule.Cron.Fields.{AreFields, valid_cron_text-AreFields_iff}
use relay_workflow_automatio.Examples.Samples.{host, node, nodes, edges}

abbrev decisions : Value
decisions = arr (cons (str "YES") (cons (str "NO") nil))

allowed_errors-AreDecisions_iff_example :
    (allowed_errors host decisions ≡ []) ↔ AreDecisions host decisions
allowed_errors-AreDecisions_iff_example = allowed_errors-AreDecisions_iff host decisions

abbrev approval : List Node
approval = node "p" "human.approval" ∷ node "q" "action.email" ∷ []

abbrev approved : List Edge
approved = record { id = "e"; source = "p"; target = "q"; condition = str "approved" } ∷ []

validate_condition_branches-IsBranched_iff_example :
    (validate_condition_branches host approval approved ≡ [])
    ↔ ((n : Node) → In n approval → branches host n ≡ true → IsBranched host approval approved n)
validate_condition_branches-IsBranched_iff_example =
    validate_condition_branches-IsBranched_iff host approval approved

abbrev instructions : Value
instructions = obj (field "instructions" (str "Use {{nodes.a.output}}") end)

validate_decision_references-IsAvailable_iff_example :
    (validate_decision_references instructions nodes edges "d" ≡ [])
    ↔ ((text : String) → In text (checked_texts instructions) → IsAvailable nodes edges "d" text)
validate_decision_references-IsAvailable_iff_example =
    validate_decision_references-IsAvailable_iff nodes edges "d" instructions

valid_cron_text-AreFields_iff_example :
    (valid_cron_text host "0 9 * * MON-FRI/2" ≡ true)
    ↔ AreFields host kinds (split_spaces (trim "0 9 * * MON-FRI/2"))
valid_cron_text-AreFields_iff_example = valid_cron_text-AreFields_iff host "0 9 * * MON-FRI/2"
