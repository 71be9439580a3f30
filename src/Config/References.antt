-- ===== src/Config/References.antt =====
-- configValidation.js: the expressions in a configuration that refer to other nodes.
pub mod Available
use Prim.Native.String.{◌++◌ as join}
use relay_workflow_automatio.Prelude.{
  Bool, true, false, not, ◌&&◌, ◌||◌, String, Option, none, some, List, [], ◌∷◌, ◌++◌, map, ◌==◌,
  any, has, starts_with, if◌then◌else◌,
}
use relay_workflow_automatio.Js.{Value, str, arr, obj, Items, nil, cons, Fields, end, field, prop}
use relay_workflow_automatio.Js.Text.{trim_start}
use relay_workflow_automatio.Graph.{Node, Edge, is_trigger}
use relay_workflow_automatio.Variables.{previous_nodes_for}
use relay_workflow_automatio.Schedule.Validate.{FieldError, error_if}
use relay_workflow_automatio.Config.Patterns.{after, take_name, span, plain}
use relay_workflow_automatio.Config.Branches.{or_label}

-- `(?:\.[^{}]*)?\s*\}\}` at the beginning
abbrev ends_reference : String → Bool
ends_reference s = elim (after "." s) [
  | none ↦ starts_with (trim_start s) "}}"
  | some path ↦ starts_with (span plain path).1 "}}"
]

abbrev named : Option (String × String) → Option String
named none = none
named (some (name, rest)) = if ends_reference rest then some name else none

abbrev in_nodes : Option String → Option String
in_nodes none = none
in_nodes (some path) = named (take_name path)

abbrev in_braces : Option String → Option String
in_braces none = none
in_braces (some inner) = in_nodes (after "nodes." (trim_start inner))

-- `/\{\{\s*nodes\.([^\s.{}]+)(?:\.[^{}]*)?\s*\}\}/` at the beginning: the name
pub reference_at : String → Option String
reference_at s = in_braces (after "{{" s)

abbrev add_name : Option String → List String → List String
add_name none names = names
add_name (some n) names = n ∷ names

-- `matchAll` with that expression. Two matches never overlap, since a match has braces only at
-- its two ends, so every position is tried.
pub references : String → List String
references String.[] = []
references (String.◌∷◌ c s) = add_name (reference_at (String.◌∷◌ c s)) (references s)

abbrev trigger_inside : Option String → Bool
trigger_inside none = false
trigger_inside (some inner) = starts_with (trim_start inner) "trigger."

-- `/\{\{\s*trigger\./.test(s)`
pub mentions_trigger : String → Bool
mentions_trigger String.[] = false
mentions_trigger (String.◌∷◌ c s) =
    trigger_inside (after "{{" (String.◌∷◌ c s)) || mentions_trigger s

pub missing_message : String → String
missing_message name =
    join "Referenced node '"
      (join name "' is missing or not upstream. Reconnect it or update this expression.")

name_errors : List String → String → List String → List FieldError
name_errors ids at [] = []
name_errors ids at (name ∷ names) =
    error_if (not (has name ids)) at (missing_message name) ++ name_errors ids at names

-- The errors about one text.
pub text_errors : List Node → List String → String → String → List FieldError
text_errors upstream ids at text =
    name_errors ids at (references text)
    ++ error_if (mentions_trigger text && not (any is_trigger upstream)) at
        "Connect an upstream trigger before using trigger variables."

module _ (upstream : List Node) (ids : List String) (field_name : String) where
  mutual
    -- `visit`
    pub visit : Value → List FieldError
    visit (str s) = text_errors upstream ids field_name s
    visit (arr xs) = visit_items xs
    visit (obj fs) = visit_fields fs
    visit _ = []

    pub visit_items : Items → List FieldError
    visit_items nil = []
    visit_items (cons v vs) = visit v ++ visit_items vs

    pub visit_fields : Fields → List FieldError
    visit_fields end = []
    visit_fields (field k v fs) = visit v ++ visit_fields fs

-- `node.data?.nodeId || node.id`
pub reference_id : Node → String
reference_id n = or_label n.node_id n.id

pub validate_decision_references : Value → List Node → List Edge → String → List FieldError
validate_decision_references config nodes edges current =
    let upstream = previous_nodes_for nodes edges current true in
    let ids = map reference_id upstream in
    visit upstream ids "instructions" (prop config "instructions")
    ++ (visit upstream ids "input_mappings" (prop config "input_mappings")
        ++ visit upstream ids "rag_context" (prop config "rag_context"))

rename : String → String → FieldError → FieldError
rename from to e = if e.field == from then record e { field = to } else e

pub validate_condition_references : Value → List Node → List Edge → String → List FieldError
validate_condition_references config nodes edges current =
    map (λ (e : FieldError). record e { field = "value" })
      (validate_decision_references
        (obj (field "input_mappings" (obj (field "value" (prop config "value") end)) end)) nodes
        edges current)

pub validate_generate_references : Value → List Node → List Edge → String → List FieldError
validate_generate_references config nodes edges current = map (rename "input_mappings" "prompt") (
    validate_decision_references
      (obj (
        field "instructions" (prop config "instructions") (
          field "input_mappings" (obj (field "prompt" (prop config "prompt") end))
            (field "rag_context" (prop config "rag_context") end))))
      nodes edges current)
