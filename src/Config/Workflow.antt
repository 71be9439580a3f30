-- ===== src/Config/Workflow.antt =====
-- configValidation.js: `validateWorkflowConfiguration`, the validation of the whole canvas.
pub mod Connected
use mathlib.Core.Option
use Prim.Native.String.{◌++◌ as join}
use relay_workflow_automatio.Prelude.{
  ℕ, ◌+◌, Bool, true, false, not, ◌&&◌, ◌||◌, String, Option, none, some, List, [], ◌∷◌, ◌++◌, map,
  ◌==◌, has, filter, length, ltb, eqb, if◌then◌else◌,
}
use relay_workflow_automatio.Js.{Value}
use relay_workflow_automatio.Js.Host.{Host}
use relay_workflow_automatio.Js.Effect.{Result, ok, throws}
use relay_workflow_automatio.Graph.{Node, Edge, is_trigger}
use relay_workflow_automatio.Graph.Flood.{flood}
use relay_workflow_automatio.Schedule.Validate.{FieldError}
use relay_workflow_automatio.Config.Node.{validate_node_configuration}
use relay_workflow_automatio.Config.Node.Ai.{join_names}
use relay_workflow_automatio.Config.Options.{logical_id}
use relay_workflow_automatio.Config.Branches.{CanvasError, or_label, validate_condition_branches}
use relay_workflow_automatio.Config.References.{
  validate_decision_references, validate_condition_references, validate_generate_references,
}

abbrev canvas_error : String → String → CanvasError
canvas_error code message = record {
  code = code;
  field = none;
  node_id = none;
  edge_id = none;
  message = message;
}

abbrev pub ids_of : List Node → List String
ids_of nodes = map (λ (n : Node). n.id) nodes

-- The `reachable` set after the loop. The stack is built from the triggers in order.
unfoldable pub reachable_ids : List Edge → List String → List String
reachable_ids edges triggers =
    Option.get_or
      (flood edges (length triggers + length edges)
        (record { pending = triggers; marked = triggers }))
      []

-- `node.data?.label || node.data?.nodeId || node.id`
abbrev shown_name : Node → String
shown_name n = or_label n.label (or_label n.node_id n.id)

unfoldable pub disconnected_errors : List Node → List String → List CanvasError
disconnected_errors nodes reachable =
    if eqb (length reachable) (length nodes)
    then []
    else canvas_error "DISCONNECTED_NODES" (
        join "Connect every node to a trigger before saving or publishing: "
          (join (join_names (map shown_name (filter (λ n. not (has n.id reachable)) nodes))) "."))
      ∷ []

unfoldable pub structure_errors : List Node → List Edge → List Node → List CanvasError
structure_errors nodes edges [] =
    canvas_error "NO_TRIGGER" "Workflow must have at least one Trigger node." ∷ []
structure_errors nodes edges (trigger ∷ []) =
    if ltb 1 (length nodes)
    then disconnected_errors nodes (reachable_ids edges (trigger.id ∷ []))
    else []
structure_errors nodes edges (trigger ∷ other ∷ more) =
    canvas_error "MULTIPLE_TRIGGERS" "Workflow must have exactly one Trigger node." ∷ []

module _ (host : Host) where
  reference_errors : String → Node → List Node → List Edge → List FieldError
  reference_errors type_id node nodes edges =
      if type_id == "ai.decision"
      then validate_decision_references node.config nodes edges node.id
      else if type_id == "ai.generate"
      then validate_generate_references node.config nodes edges node.id
      else if type_id == "logic.condition"
      then validate_condition_references node.config nodes edges node.id
      else []

  abbrev located : Node → String → FieldError → CanvasError
  located node label e = record {
    code = join "NODE_CONFIG_" (host.to_upper e.field);
    field = some e.field;
    node_id = some (logical_id node);
    edge_id = none;
    message = join label (join ": " e.message);
  }

  -- `node.data?.typeId ?? "custom"`
  abbrev type_or_custom : Option String → String
  type_or_custom none = "custom"
  type_or_custom (some t) = t

  append_to : List FieldError → Result (List FieldError) → Result (List FieldError)
  append_to later (ok es) = ok (es ++ later)
  append_to later (throws e) = throws e

  locate : (FieldError → CanvasError) → Result (List FieldError) → Result (List CanvasError)
  locate f (ok es) = ok (map f es)
  locate f (throws e) = throws e

  pub node_errors : List Node → List Edge → Node → Result (List CanvasError)
  node_errors nodes edges node =
      let type_id = type_or_custom node.type_id in
      locate (located node (or_label node.label type_id)) (
        append_to (reference_errors type_id node nodes edges)
          (validate_node_configuration host type_id node.config))

  concat : Result (List CanvasError) → Result (List CanvasError) → Result (List CanvasError)
  concat (ok a) (ok b) = ok (a ++ b)
  concat (ok a) (throws e) = throws e
  concat (throws e) later = throws e

  all_node_errors : List Node → List Edge → List Node → Result (List CanvasError)
  all_node_errors nodes edges [] = ok []
  all_node_errors nodes edges (n ∷ ns) =
      concat (node_errors nodes edges n) (all_node_errors nodes edges ns)

  pub validate_workflow_configuration : List Node → List Edge → Bool → Result (List CanvasError)
  validate_workflow_configuration nodes edges include_structure =
      concat
        (ok (
          if include_structure then structure_errors nodes edges (filter is_trigger nodes) else []))
        (concat (all_node_errors nodes edges nodes)
          (ok (validate_condition_branches host nodes edges)))
