-- ===== src/Config/Options.antt =====
-- frontend/src/components/workflow/branchOptions.js: the outcomes that a branching node declares.
use relay_workflow_automatio.Prelude.{
  Bool, true, not, ◌&&◌, ◌||◌, String, Option, none, some, List, [], ◌∷◌, map, ◌==◌, find, has,
  if◌then◌else◌,
}
use relay_workflow_automatio.Js.{Value, str, arr, Fields, get, items, fields_of}
use relay_workflow_automatio.Js.Host.{Host}
use relay_workflow_automatio.Js.Text.{trim, includes}
use relay_workflow_automatio.Graph.{Node, Edge, text_is}
use relay_workflow_automatio.Variables.{previous_nodes_for}
use relay_workflow_automatio.Config.Patterns.{node_reference}
use relay_workflow_automatio.Config.Normalize.{is_legacy_condition}

pub record BranchOption : Type 0 where
  pub value : String
  pub label : String

abbrev same : String → BranchOption
same s = record { value = s; label = s }

-- `node.data?.nodeId ?? node.id`
abbrev or_id : Option String → String → String
or_id none id = id
or_id (some n) id = n

pub logical_id : Node → String
logical_id n = or_id n.node_id n.id

-- `[...new Set(xs)]`: the first of equal texts stays
pub dedupe : List String → List String → List String
dedupe before [] = []
dedupe before (x ∷ xs) =
    let rest = dedupe (x ∷ before) xs in
    let less = dedupe before xs in if has x before then less else x ∷ rest

-- the texts of an array that are not blank
texts : List Value → List String
texts [] = []
texts (str s ∷ vs) = let rest = texts vs in if trim s == "" then rest else s ∷ rest
texts (v ∷ vs) = texts vs

abbrev allowed_texts : Value → List String
allowed_texts (arr xs) = texts (items xs)
allowed_texts _ = []

pub decision_options : Host → Fields → List BranchOption
decision_options host config =
    map same (
      dedupe []
        (map (λ s. host.to_upper (trim s)) (allowed_texts (get config "allowed_decisions"))))

is_action : Option String → Bool
is_action type_id =
    text_is type_id "action.http_request"
    || (text_is type_id "action.email" || text_is type_id "action.refund")

-- the outcomes of the output of an upstream node
upstream_options : Host → Option Node → String → Option (List BranchOption)
upstream_options host none output = none
upstream_options host (some upstream) output =
    if text_is upstream.type_id "ai.decision" && output == "decision"
    then some (decision_options host (fields_of upstream.config))
    else if is_action upstream.type_id && output == "success"
    then some (
        record { value = "true"; label = "True" }
        ∷ record { value = "false"; label = "False" }
        ∷ [])
    else none

referenced_options :
    Host → Node → List Node → List Edge → Option (String × String) → Option (List BranchOption)
referenced_options host source nodes edges none = none
referenced_options host source nodes edges (some (node, output)) =
    upstream_options host
      (find (λ n. logical_id n == node) (previous_nodes_for nodes edges source.id true)) output

-- `typeof config.value === "string" ? config.value.trim() : ""`
abbrev trimmed_text : Value → String
trimmed_text (str s) = trim s
trimmed_text _ = ""

condition_options : Host → Node → List Node → List Edge → Option (List BranchOption)
condition_options host source nodes edges =
    let config = fields_of source.config in
    let value = trimmed_text (get config "value") in
    if is_legacy_condition config
    then none
    else if value == ""
    then some []
    else if not (includes value "{{") && not (includes value "}}")
    then some (same value ∷ [])
    else referenced_options host source nodes edges (node_reference value)

-- `none` is `null`: the node has no declared set of outcomes.
pub branch_options : Host → Node → List Node → List Edge → Option (List BranchOption)
branch_options host source nodes edges =
    if text_is source.type_id "human.approval"
    then some (
        record { value = "approved"; label = "Approved" }
        ∷ record { value = "rejected"; label = "Rejected" }
        ∷ [])
    else if not (text_is source.type_id "logic.condition")
    then none
    else condition_options host source nodes edges
