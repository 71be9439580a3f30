-- ===== src/Config/Normalize.antt =====
-- configValidation.js: normal forms of node configurations.
pub mod Rag
use relay_workflow_automatio.Prelude.{
  Bool, true, false, not, ◌&&◌, ◌||◌, String, Option, none, some, List, [], ◌∷◌, ◌==◌, any, has,
  if◌then◌else◌,
}
use relay_workflow_automatio.Js.{
  Value, undefined, null, bool, num, str, arr, obj, Fields, end, field, Items, nil, cons, get,
  has_own, put, remove, keys, or_nullish, or_else, strict_eq, is_record, fields_of, map_items,
  filter_fields, spread,
}
use relay_workflow_automatio.Js.Host.{Host}
use relay_workflow_automatio.Js.Text.{trim}

abbrev pub ai_decision_fields : List String
ai_decision_fields =
    "connection_id" ∷ "model" ∷ "instructions" ∷ "input_mappings" ∷ "rag_context"
    ∷ "allowed_decisions" ∷ []

abbrev pub ai_generate_fields : List String
ai_generate_fields = "connection_id" ∷ "model" ∷ "instructions" ∷ "prompt" ∷ "rag_context" ∷ []

-- `typeof value === "string" ? value.trim().toUpperCase() : value`
abbrev pub upper_text : Host → Value → Value
upper_text host (str s) = str (host.to_upper (trim s))
upper_text host v = v

abbrev with_decisions : Host → Fields → Value → Fields
with_decisions host config (arr xs) =
    put config "allowed_decisions" (arr (map_items (upper_text host) xs))
with_decisions host config _ = config

pub normalize_decision_configuration : Host → Fields → Fields
normalize_decision_configuration host config =
    with_decisions host config (get config "allowed_decisions")

pub upgrade_decision_configuration : Fields → Fields
upgrade_decision_configuration config =
    let blank = field "connection_id" (str "") (
      field "model" (str "") (
        field "input_mappings" (obj end)
          (field "rag_context" (str "") (field "allowed_decisions" (arr nil) end)))) in
    put (spread blank (filter_fields (λ key. has key ai_decision_fields) config)) "instructions"
      (or_else (get config "instructions") (or_else (get config "prompt") (str "")))

-- any key but `value`
pub is_legacy_condition : Fields → Bool
is_legacy_condition config = any (λ key. not (key == "value")) (keys config)

unfoldable pub rag_knowledge_base_id : Fields → Value
rag_knowledge_base_id config =
    if has_own config "knowledge_base_id"
    then get config "knowledge_base_id"
    else get config "knowledge_base"

-- no conflict between the two names of the knowledge base
unfoldable pub rag_agrees : Fields → Bool
rag_agrees config =
    not (has_own config "knowledge_base_id")
    || (not (has_own config "knowledge_base")
        || strict_eq (get config "knowledge_base_id") (get config "knowledge_base"))

-- An argument that is no object is `{}`.
unfoldable pub normalize_rag_configuration : Value → Fields
normalize_rag_configuration value =
    let config = fields_of value in
    let normalized =
      put config "knowledge_base_id" (or_nullish (rag_knowledge_base_id config) (str "")) in
    remove (if rag_agrees config then remove normalized "knowledge_base" else normalized)
      "workspace_id"
