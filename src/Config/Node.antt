-- ===== src/Config/Node.antt =====
-- configValidation.js: the validation of one node's configuration.
pub mod Ai
use Prim.Native.String.{◌++◌ as join}
use relay_workflow_automatio.Prelude.{
  ℕ, Bool, true, false, not, ◌&&◌, ◌||◌, String, Option, none, some, List, [], ◌∷◌, ◌++◌, ◌==◌,
  length, any, has, ltb, eqb, starts_with, if◌then◌else◌,
}
use relay_workflow_automatio.Js.{
  Num, Value, undefined, null, bool, num, str, arr, obj, Fields, Items, get, prop, truthy, keys,
  is_undefined, is_nullish, is_integer, is_finite, num_lt, num_gt, is_text, is_record, fields_of,
}
use relay_workflow_automatio.Js.Host.{Host}
use relay_workflow_automatio.Js.Text.{trim, js_length}
use relay_workflow_automatio.Js.Convert.{to_string, to_number, text_or_empty}
use relay_workflow_automatio.Js.Effect.{Result, ok, throws, type_error}
use relay_workflow_automatio.Schedule.Validate.{FieldError, error_if, validate_schedule}
use relay_workflow_automatio.Config.Patterns.{has_expression, is_email, is_uuid}
use relay_workflow_automatio.Config.Normalize.{is_legacy_condition}
use relay_workflow_automatio.Config.Node.Ai.{
  integer_between, text_too_long, decision_errors, generate_errors, rag_search_errors, blank_text,
}

module _ (host : Host) where
  -- `required(value)`, and `containsExpression(value)`
  pub required : Value → Bool
  required v = not (trim (text_or_empty host v) == "")

  contains_expression : Value → Bool
  contains_expression v = has_expression (text_or_empty host v)

  pub require_field : Fields → String → String → List FieldError
  require_field config field label =
      error_if (not (required (get config field))) field (join label " is required.")

  manual_errors : Fields → List FieldError
  manual_errors config =
      error_if
        (not (is_undefined (get config "description"))
          && text_too_long 500 (get config "description"))
        "description" "Description must be 500 characters or fewer."
      ++ error_if
          (not (is_undefined (get config "input_schema"))
            && (not (is_text (prop (get config "input_schema") "type") "object")
                || not (eqb (length (keys (fields_of (get config "input_schema")))) 1)))
          "input_schema" "Input type must be JSON Object."

  webhook_errors : Fields → List FieldError
  webhook_errors config =
      error_if (not (truthy (get config "webhook_id"))) "webhook_id"
        "Set up a webhook endpoint before saving this trigger."

  -- `["GET", …].includes(config.method)`
  one_of : List String → Value → Bool
  one_of texts v = any (is_text v) texts

  http_errors : Fields → List FieldError
  http_errors config =
      require_field config "connection_id" "HTTP connection"
      ++ (require_field config "method" "HTTP method"
          ++ (error_if
                (required (get config "method")
                  && not (
                      one_of ("GET" ∷ "POST" ∷ "PUT" ∷ "PATCH" ∷ "DELETE" ∷ [])
                        (get config "method")))
                "method" "Choose a supported HTTP method."
              ++ (require_field config "url" "Request path"
                  ++ error_if
                      (not (is_undefined (get config "timeout"))
                        && not (integer_between 1 120 (get config "timeout")))
                      "timeout" "Timeout must be between 1 and 120 seconds.")))

  -- `!regex.test(config.to.trim())`: `trim` is a method of strings only
  recipient_errors : Value → Result (List FieldError)
  recipient_errors to =
      if required to && not (contains_expression to) then address_errors to else ok []
    where
      address_errors : Value → Result (List FieldError)
      address_errors (str s) =
          ok (error_if (not (is_email (trim s))) "to" "Enter a valid recipient email address.")
      address_errors _ = throws type_error

  around : List FieldError → Result (List FieldError) → List FieldError → Result (List FieldError)
  around before (ok es) later = ok (before ++ (es ++ later))
  around before (throws e) later = throws e

  email_errors : Fields → Result (List FieldError)
  email_errors config =
      around
        (error_if
            (not (is_undefined (get config "body_format"))
              && not (one_of ("plain" ∷ "html" ∷ []) (get config "body_format")))
            "body_format" "Choose Plain Text or HTML."
          ++ (require_field config "connection_id" "Gmail account"
              ++ require_field config "to" "Recipient email"))
        (recipient_errors (get config "to"))
        (require_field config "subject" "Email subject" ++ require_field config "body" "Email body")

  -- `!Number.isFinite(amount) || amount <= 0`; NaN fails the first test
  bad_amount : Num → Bool
  bad_amount n = not (is_finite n) || not (num_gt n 0)

  refund_errors : Fields → List FieldError
  refund_errors config =
      require_field config "connection_id" "Payment connection"
      ++ (require_field config "payment_id" "Payment ID"
          ++ (require_field config "amount" "Refund amount"
              ++ error_if
                  ((required (get config "amount")
                      && not (contains_expression (get config "amount")))
                    && bad_amount (to_number host (get config "amount")))
                  "amount" "Refund amount must be a positive number or a variable."))

  condition_errors : Fields → List FieldError
  condition_errors config =
      error_if (is_legacy_condition config) "legacy"
        "This Condition uses older comparison settings. Update it to exact-value routing before publishing."
      ++ (if blank_text (get config "value")
          then error_if true "value" "Value to Evaluate is required."
          else error_if (text_too_long 2000 (get config "value")) "value"
              "Value to Evaluate must be 2,000 characters or fewer.")

  -- `!Number.isInteger(n) || n <= 0`
  bad_timeout : Num → Bool
  bad_timeout n = not (is_integer n) || not (num_gt n 0)

  approval_errors : Fields → List FieldError
  approval_errors config =
      require_field config "approver_user_id" "Approver"
      ++ (require_field config "message" "Approval message"
          ++ error_if
              (not (is_nullish (get config "timeout_minutes"))
                && (not (is_text (get config "timeout_minutes") "")
                    && bad_timeout (to_number host (get config "timeout_minutes"))))
              "timeout_minutes" "Timeout must be a positive whole number of minutes.")

  -- A configuration that is no object is `{}`.
  pub validate_node_configuration : String → Value → Result (List FieldError)
  validate_node_configuration type_id value =
      let config = fields_of value in
      if type_id == "trigger.manual"
      then ok (manual_errors config)
      else if type_id == "trigger.webhook"
      then ok (webhook_errors config)
      else if type_id == "trigger.schedule"
      then ok (validate_schedule host config)
      else if type_id == "action.http_request"
      then ok (http_errors config)
      else if type_id == "action.email"
      then email_errors config
      else if type_id == "action.refund"
      then ok (refund_errors config)
      else if type_id == "ai.decision"
      then ok (decision_errors host config)
      else if type_id == "ai.generate"
      then ok (generate_errors config)
      else if type_id == "ai.rag_search"
      then ok (rag_search_errors config)
      else if type_id == "logic.condition"
      then ok (condition_errors config)
      else if type_id == "human.approval"
      then ok (approval_errors config)
      else ok []
