-- ===== src/Config/Node/Ai.antt =====
-- configValidation.js: the validation of the AI nodes' configurations.
pub mod Decisions
use Prim.Native.String.{◌++◌ as join}
use relay_workflow_automatio.Prelude.{
  ℕ, Bool, true, false, not, ◌&&◌, ◌||◌, String, List, [], ◌∷◌, ◌++◌, map, ◌==◌, length, any, has,
  filter, is_nil, ltb, if◌then◌else◌,
}
use relay_workflow_automatio.Js.{
  Value, num, str, arr, Fields, get, has_own, keys, is_undefined, is_integer, num_lt, num_gt,
  is_record, fields_of, items, strict_eq,
}
use relay_workflow_automatio.Js.Host.{Host}
use relay_workflow_automatio.Js.Text.{trim, js_length}
use relay_workflow_automatio.Schedule.Validate.{FieldError, error_if}
use relay_workflow_automatio.Config.Patterns.{is_uuid, is_expression, is_decision_name}
use relay_workflow_automatio.Config.Normalize.{
  ai_decision_fields, ai_generate_fields, rag_knowledge_base_id,
}

-- `Number.isInteger(v) && v >= lo && v <= hi`
unfoldable pub integer_between : ℕ → ℕ → Value → Bool
integer_between lo hi (num n) = is_integer n && not (num_lt n lo || num_gt n hi)
integer_between lo hi _ = false

-- `typeof v !== "string" || v.length > max`
unfoldable pub text_too_long : ℕ → Value → Bool
text_too_long max (str s) = ltb max (js_length s)
text_too_long max _ = true

-- `typeof v !== "string" || !v.trim()`
unfoldable pub blank_text : Value → Bool
blank_text (str s) = trim s == ""
blank_text _ = true

-- `xs.join(", ")`
pub join_names : List String → String
join_names [] = ""
join_names (x ∷ []) = x
join_names (x ∷ y ∷ ys) = join x (join ", " (join_names (y ∷ ys)))

uuid_value : Value → Bool
uuid_value (str s) = is_uuid s
uuid_value _ = false

expression_value : Value → Bool
expression_value (str s) = is_expression s
expression_value _ = false

-- A text that is required and has a greatest length, which the message writes.
bounded_text : Fields → String → String → ℕ → String → List FieldError
bounded_text config field label max shown =
    if blank_text (get config field)
    then error_if true field (join label " is required.")
    else error_if (text_too_long max (get config field)) field
        (join label (join " must be " (join shown " characters or fewer.")))

optional_text : Fields → String → ℕ → String → List FieldError
optional_text config field max message =
    error_if (not (is_undefined (get config field)) && text_too_long max (get config field)) field
      message

-- `new Set(xs).size !== xs.length`
pub repeats : List String → Bool
repeats [] = false
repeats (x ∷ xs) = has x xs || repeats xs

abbrev blank_key : String → Bool
blank_key key = trim key == ""

mapping_errors : Value → List FieldError
mapping_errors mappings =
    if not (is_undefined mappings) && not (is_record mappings)
    then error_if true "input_mappings" "Input mappings must be an object."
    else error_if (any blank_key (keys (fields_of mappings))) "input_mappings"
        "Input mapping names cannot be empty."

abbrev bad_decision : String → Bool
bad_decision value = not (is_decision_name value) || ltb 100 (js_length value)

module _ (host : Host) where
  -- `typeof value === "string" ? value.trim().toUpperCase() : ""`
  abbrev decision_text : Value → String
  decision_text (str s) = host.to_upper (trim s)
  decision_text _ = ""

  name_errors : List String → List FieldError
  name_errors normalized =
      error_if (any bad_decision normalized) "allowed_decisions"
        "Use up to 100 letters, numbers, or underscores per decision, starting with a letter."
      ++ error_if (repeats normalized) "allowed_decisions"
          "Allowed decisions must be unique (case insensitive)."

  pub allowed_errors : Value → List FieldError
  allowed_errors (arr xs) =
      error_if (ltb (length (items xs)) 2 || ltb 20 (length (items xs))) "allowed_decisions"
        "Add between 2 and 20 allowed decisions."
      ++ name_errors (map decision_text (items xs))
  allowed_errors _ = error_if true "allowed_decisions" "Add between 2 and 20 allowed decisions."

  unsupported : List String → Fields → List String
  unsupported known config = filter (λ key. not (has key known)) (keys config)

  pub decision_errors : Fields → List FieldError
  decision_errors config =
      let extra = unsupported ai_decision_fields config in
      error_if (not (uuid_value (get config "connection_id"))) "connection_id"
        "Choose an active AI provider connection."
      ++ (bounded_text config "model" "Model" 150 "150"
          ++ (bounded_text config "instructions" "AI instructions" 10000 "10,000"
              ++ (optional_text config "rag_context" 2000
                    "RAG context must be text with at most 2,000 characters."
                  ++ (mapping_errors (get config "input_mappings")
                      ++ (allowed_errors (get config "allowed_decisions")
                          ++ error_if (not (is_nil extra)) "legacy" (
                              join "Review and upgrade legacy AI settings before saving: "
                                (join (join_names extra) ".")))))))

pub generate_errors : Fields → List FieldError
generate_errors config =
    let extra = filter (λ key. not (has key ai_generate_fields)) (keys config) in
    error_if
      (not (expression_value (get config "connection_id"))
        && not (uuid_value (get config "connection_id")))
      "connection_id" "Choose an active AI provider connection."
    ++ (bounded_text config "model" "Model" 150 "150"
        ++ (bounded_text config "prompt" "Prompt" 10000 "10,000"
            ++ (optional_text config "instructions" 10000
                  "Instructions must be text with at most 10,000 characters."
                ++ (optional_text config "rag_context" 2000
                      "RAG context must be text with at most 2,000 characters."
                    ++ error_if (not (is_nil extra)) "legacy" (
                        join "Unsupported AI Generate fields: " (
                          join (join_names extra)
                            ". Review this configuration before publishing."))))))

-- the two names of the knowledge base are there and differ
abbrev rag_conflict : Fields → Bool
rag_conflict config =
    (has_own config "knowledge_base_id" && has_own config "knowledge_base")
    && not (strict_eq (get config "knowledge_base_id") (get config "knowledge_base"))

pub rag_search_errors : Fields → List FieldError
rag_search_errors config =
    (if rag_conflict config
      then error_if true "knowledge_base_id"
          "Conflicting knowledge base IDs. Choose a knowledge base to resolve this."
      else error_if (not (uuid_value (rag_knowledge_base_id config))) "knowledge_base_id"
          "Choose a knowledge base with a valid UUID.")
    ++ ((if blank_text (get config "query")
          then error_if true "query" "Search query is required."
          else error_if (text_too_long 2000 (get config "query")) "query"
              "Search query must be 2,000 characters or fewer.")
        ++ error_if (not (integer_between 1 20 (get config "top_k"))) "top_k"
            "Top results must be a whole number from 1 to 20.")
