-- ===== src/Editing/Catalogue.antt =====
-- nodeDefinitions.js: the types of nodes with their default configurations, and the repair of
-- configurations that older versions have stored.
pub mod Again
pub mod Cleared
use relay_workflow_automatio.Prelude.{
  true, Bool, String, Option, none, some, List, [], ◌∷◌, ◌&&◌, ◌==◌, find, if◌then◌else◌,
}
use relay_workflow_automatio.Js.{
  integer, Value, null, bool, num, str, arr, obj, nil, Fields, field, end, get, put, remove,
  has_own, is_text, or_nullish,
}
use relay_workflow_automatio.Js.Text.{split_on}

pub record NodeDefinition : Type 0 where
  pub type_id : String
  pub name : String
  pub category : String
  pub icon : String
  pub description : String
  pub default_config : Fields

abbrev trigger_webhook : NodeDefinition
trigger_webhook = record {
  type_id = "trigger.webhook";
  name = "Webhook";
  category = "Triggers";
  icon = "⚡";
  description = "Trigger workflow on incoming HTTP POST";
  default_config = field "method" (str "POST") (field "path" (str "/hooks/webhook_1") end);
}

abbrev trigger_schedule : NodeDefinition
trigger_schedule = record {
  type_id = "trigger.schedule";
  name = "Scheduled Trigger";
  category = "Triggers";
  icon = "🕒";
  description = "Automatically run this workflow at scheduled times.";
  default_config = field "schedule_type" (str "interval") (
      field "interval_minutes" (num (integer 30)) (
        field "cron_expression" null
          (field "timezone" (str "Asia/Kolkata") (field "enabled" (bool true) end))));
}

abbrev trigger_manual : NodeDefinition
trigger_manual = record {
  type_id = "trigger.manual";
  name = "Manual Trigger";
  category = "Triggers";
  icon = "▶";
  description = "Start this workflow manually with custom input data.";
  default_config =
      field "description" (str "")
        (field "input_schema" (obj (field "type" (str "object") end)) end);
}

abbrev action_http_request : NodeDefinition
action_http_request = record {
  type_id = "action.http_request";
  name = "HTTP Request";
  category = "Actions";
  icon = "🌐";
  description = "Make an outbound HTTP API request";
  default_config = field "method" (str "POST") (
      field "url" (str "") (
        field "timeout" (num (integer 10)) (field "headers" (str "") (field "body" (str "") end))));
}

abbrev action_email : NodeDefinition
action_email = record {
  type_id = "action.email";
  name = "Send Email";
  category = "Actions";
  icon = "✉";
  description = "Send an automated notification email";
  default_config =
      field "to" (str "")
        (field "subject" (str "") (field "body" (str "") (field "body_format" (str "plain") end)));
}

abbrev action_refund : NodeDefinition
action_refund = record {
  type_id = "action.refund";
  name = "Refund Payment";
  category = "Actions";
  icon = "💳";
  description = "Process a payment refund";
  default_config =
      field "connection_id" (str "")
        (field "payment_id" (str "") (field "amount" (str "") (field "reason" (str "") end)));
}

abbrev ai_decision : NodeDefinition
ai_decision = record {
  type_id = "ai.decision";
  name = "AI Decision";
  category = "AI";
  icon = "🧠";
  description = "Classify structured inputs into defined decisions";
  default_config = field "connection_id" (str "") (
      field "model" (str "") (
        field "instructions" (str "") (
          field "input_mappings" (obj end)
            (field "rag_context" (str "") (field "allowed_decisions" (arr nil) end)))));
}

abbrev ai_rag_search : NodeDefinition
ai_rag_search = record {
  type_id = "ai.rag_search";
  name = "RAG Search";
  category = "AI";
  icon = "🔍";
  description = "Search connected vector knowledge bases";
  default_config =
      field "knowledge_base_id" (str "")
        (field "query" (str "") (field "top_k" (num (integer 5)) end));
}

abbrev ai_generate : NodeDefinition
ai_generate = record {
  type_id = "ai.generate";
  name = "AI Generate";
  category = "AI";
  icon = "✨";
  description = "Generate text with a connected AI provider";
  default_config = field "connection_id" (str "") (
      field "model" (str "") (
        field "instructions" (str "")
          (field "prompt" (str "") (field "rag_context" (str "") end))));
}

abbrev logic_condition : NodeDefinition
logic_condition = record {
  type_id = "logic.condition";
  name = "Condition";
  category = "Logic";
  icon = "🔀";
  description = "Route to the branch matching an evaluated value";
  default_config = field "value" (str "") end;
}

abbrev human_approval : NodeDefinition
human_approval = record {
  type_id = "human.approval";
  name = "Approval Gate";
  category = "Human";
  icon = "👤";
  description = "Pause the workflow until a human approves or rejects the request";
  default_config =
      field "approver_user_id" null (field "message" (str "") (field "timeout_minutes" null end));
}

-- the nodes of `NODE_CATEGORIES`, category by category
abbrev pub node_definitions : List NodeDefinition
node_definitions =
    trigger_webhook ∷ trigger_schedule ∷ trigger_manual ∷ action_http_request ∷ action_email
    ∷ action_refund ∷ ai_decision ∷ ai_rag_search ∷ ai_generate ∷ logic_condition ∷ human_approval
    ∷ []

-- `exampleValuesByType[typeId]`, with no entries where there is no such key
abbrev pub examples_of : String → Fields
examples_of type_id =
    if type_id == "action.http_request"
    then field "headers" (str "Content-Type: application/json") (field "body" (str "{}") end)
    else if type_id == "action.email"
    then field "to" (str "user@example.com") (
        field "subject" (str "Workflow Alert")
          (field "body" (str "Your workflow step completed.") end))
    else if type_id == "action.refund"
    then field "payment_id" (str "ch_12345") end
    else end

-- older refund nodes keep their payment under another name
unfoldable pub rename_charge : Fields → Fields
rename_charge config =
    remove (put config "payment_id" (or_nullish (get config "payment_id") (get config "charge_id")))
      "charge_id"

abbrev pub repaired : String → Fields → Fields
repaired type_id config =
    if type_id == "action.refund" && has_own config "charge_id"
    then rename_charge config
    else config

abbrev pub text_of : Value → String
text_of (str s) = s
text_of _ = ""

-- the loop over the examples: a value that is still the example is emptied
unfoldable pub clear_examples : Fields → Fields → Fields
clear_examples end config = config
clear_examples (field key example fs) config =
    let cleared = clear_examples fs (put config key (str "")) in
    let kept = clear_examples fs config in
    if is_text (get config key) (text_of example) then cleared else kept

unfoldable pub clear_example_node_config : String → Value → Value
unfolding rename_charge clear_examples
clear_example_node_config type_id (obj config) =
    obj (clear_examples (examples_of type_id) (repaired type_id config))
clear_example_node_config type_id config = config

-- `typeId.split(".").pop()`
unfoldable pub last_part : List String → String
last_part [] = ""
last_part (s ∷ []) = s
last_part (s ∷ ss) = last_part ss

abbrev pub prefix_of : String → String
prefix_of type_id = last_part (split_on 0x2e type_id)

abbrev custom_definition : String → NodeDefinition
custom_definition type_id = record {
  type_id = if type_id == "" then "custom.node" else type_id;
  name = if type_id == "" then "Node" else prefix_of type_id;
  category = "Custom";
  icon = "⚙";
  description = "Workflow node";
  default_config = end;
}

abbrev or_custom : String → Option NodeDefinition → NodeDefinition
or_custom type_id none = custom_definition type_id
or_custom type_id (some d) = d

unfoldable pub get_node_definition : String → NodeDefinition
get_node_definition type_id =
    or_custom type_id (find (λ (d : NodeDefinition). d.type_id == type_id) node_definitions)
