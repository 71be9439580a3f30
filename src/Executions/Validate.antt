-- ===== src/Executions/Validate.antt =====
-- lib/executions.js: the checks of the server's answers, and the order of the recorded steps.
pub mod Ordered
use relay_workflow_automatio.Prelude.{
  Bool, true, false, not, ◌&&◌, ◌||◌, String, List, [], ◌∷◌, all, ◌==◌, sort_by, if◌then◌else◌,
}
use relay_workflow_automatio.Js.{
  Num, nan, Value, num, str, arr, obj, Fields, Items, nil, cons, prop, put, items, truthy, is_array,
  is_string, is_nullish, is_integer, is_finite, num_lt, num_eq, fields_of,
}
use relay_workflow_automatio.Js.Host.{Host}
use relay_workflow_automatio.Js.Effect.{error, Result, ok, throws}
use relay_workflow_automatio.Proxy.Body.{num_less}

abbrev pub invalid : {A : Type 0} → Result A
invalid = throws (error "Unexpected execution response")

abbrev optional_text : Value → Bool
optional_text v = is_nullish v || is_string v

abbrev has_text : Value → Bool
has_text (str s) = not (s == "")
has_text _ = false

-- `Number.isFinite(v) && v >= 0`
abbrev is_amount : Value → Bool
is_amount (num n) = is_finite n && not (num_lt n 0)
is_amount _ = false

-- `Number.isInteger(v) && v >= least`
abbrev pub is_whole_from : Value → Bool → Bool
is_whole_from (num n) positive = is_integer n && not (num_lt n (if positive then 1 else 0))
is_whole_from _ positive = false

unfoldable pub valid_record : Value → Bool
valid_record item =
    has_text (prop item "id")
    && is_string (prop item "status")
    && optional_text (prop item "started_at")
    && optional_text (prop item "completed_at")
    && (is_nullish (prop item "duration_ms") || is_amount (prop item "duration_ms"))

unfoldable pub valid_execution : Value → Bool
unfolding valid_record
valid_execution item =
    valid_record item
    && is_string (prop item "workflow_id")
    && optional_text (prop item "workflow_name")
    && optional_text (prop item "workflow_version_id")
    && optional_text (prop item "trigger_type")

unfoldable pub validate_execution : Value → Result Value
unfolding valid_execution
validate_execution item = if valid_execution item then ok item else invalid

abbrev elements : Value → List Value
elements (arr xs) = items xs
elements _ = []

unfoldable pub validate_execution_list : Value → Result Value
unfolding valid_execution
validate_execution_list v =
    if is_array (prop v "items")
      && is_whole_from (prop v "total") false
      && is_whole_from (prop v "page") true
      && is_whole_from (prop v "page_size") true
      && all valid_execution (elements (prop v "items"))
    then ok v
    else invalid

unfoldable pub valid_step : Value → Bool
unfolding valid_record
valid_step step =
    valid_record step
    && is_string (prop step "node_id")
    && optional_text (prop step "node_name")
    && optional_text (prop step "node_type")
    && is_whole_from (prop step "sequence") true
    && is_whole_from (prop step "attempt") true

abbrev number_of : Value → Num
number_of (num n) = n
number_of _ = nan

abbrev text_of : Value → String
text_of (str s) = s
text_of _ = ""

-- `a - b || rest`: not after by the first numbers that differ
abbrev by_number : Num → Num → Bool → Bool
by_number a b rest = num_less a b || (num_eq a b && rest)

-- The comparison of two steps: not after by sequence, attempt and id.
unfoldable pub step_le : Host → Value → Value → Bool
step_le host a b = by_number (number_of (prop a "sequence")) (number_of (prop b "sequence")) (
    by_number (number_of (prop a "attempt")) (number_of (prop b "attempt"))
      (host.collates (text_of (prop a "id")) (text_of (prop b "id"))))

abbrev pub items_of : List Value → Items
items_of [] = nil
items_of (v ∷ vs) = cons v (items_of vs)

-- `{ ...data, items: sorted }`
abbrev sorted_steps : Host → Value → List Value → Value
sorted_steps host v steps =
    obj (put (fields_of v) "items" (arr (items_of (sort_by (step_le host) steps))))

unfoldable pub validate_execution_steps : Host → Value → Result Value
unfolding valid_step
validate_execution_steps host v =
    if is_array (prop v "items") && all valid_step (elements (prop v "items"))
    then ok (sorted_steps host v (elements (prop v "items")))
    else invalid
