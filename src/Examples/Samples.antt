-- ===== src/Examples/Samples.antt =====
-- The data of the examples: a host, a canvas, and a server that answers the calls.
use relay_workflow_automatio.Prelude.{
  Bool, true, false, String, Option, none, some, List, [], ◌∷◌, ◌==◌, if◌then◌else◌,
}
use relay_workflow_automatio.Js.{
  nan, integer, Value, undefined, null, bool, num, str, arr, obj, nil, cons, Fields, end, field,
}
use relay_workflow_automatio.Js.Host.{Host}
use relay_workflow_automatio.Js.Effect.{error, Result, ok, throws, World}
use relay_workflow_automatio.Graph.{Node, Edge}
use relay_workflow_automatio.Schedule.Draft.{PayloadDraft}
use relay_workflow_automatio.Schedule.Reconcile.{
  Call, get_workflow, get_workflow_versions, get_workflow_nodes, list_schedules, create_schedule,
  update_schedule, get_schedule, publish_workflow, on_published,
}

abbrev text_of : Value → String
text_of (str s) = s
text_of _ = "{}"

abbrev pub host : Host
host = record {
  number_text = λ n. "1";
  text_number = λ s. if s == "1" then integer 1 else nan;
  to_upper = λ s. if s == "yes" then "YES" else s;
  to_lower = λ s. if s == "Active" then "active" else s;
  valid_time_zone = λ s. s == "UTC";
  parse_date = λ s. if s == "2026-01-01" then integer 1767225600000 else nan;
  parse_json = λ s. if s == "{}" then some (obj end) else none;
  json_text = text_of;
  json_pretty = text_of;
  collates = λ a b. true;
}

abbrev pub node : String → String → Node
node id type_id = record {
  id = id;
  type_id = some type_id;
  node_id = none;
  label = none;
  config = undefined;
  x = num (integer 0);
  y = num (integer 0);
}

abbrev pub edge : String → String → Edge
edge source target = record { id = source; source = source; target = target; condition = undefined }

-- t → a → b → d and a → c → d, with a loop from d to itself
abbrev pub t : Node
t = node "t" "trigger.manual"

abbrev pub a : Node
a = node "a" "action.email"

abbrev pub b : Node
b = node "b" "action.refund"

abbrev pub nodes : List Node
nodes = t ∷ a ∷ b ∷ node "c" "action.email" ∷ node "d" "action.email" ∷ []

abbrev pub edges : List Edge
edges = edge "t" "a" ∷ edge "a" "b" ∷ edge "a" "c" ∷ edge "b" "d" ∷ edge "c" "d" ∷ edge "d" "d" ∷ []

-- A server with one published workflow, whose trigger runs on a schedule.
abbrev pub workflow : Value
workflow = obj (field "published_version_id" (str "v1") (field "status" (str "active") end))

abbrev pub version : Value
version = obj (
    field "id" (str "v1")
      (field "status" (str "published") (field "version_number" (num (integer 1)) end)))

abbrev pub config : Fields
config =
    field "schedule_type" (str "interval")
      (field "interval_minutes" (num (integer 15)) (field "timezone" (str "UTC") end))

abbrev pub trigger : Value
trigger = obj (field "node_type" (str "trigger.schedule") (field "configuration" (obj config) end))

abbrev pub schedule : Value
schedule = obj (
    field "id" (str "s1") (
      field "workflow_version_id" (str "v1")
        (field "enabled" (bool true) (field "next_run_at" (str "2026-01-01") end))))

-- The state counts nothing but whether the schedule was created.
abbrev pub answer : Call → Bool → Result Value × Bool
answer (get_workflow id) made = (ok workflow, made)
answer (get_workflow_versions id) made = (ok (arr (cons version nil)), made)
answer (get_workflow_nodes id n) made = (ok (arr (cons trigger nil)), made)
answer list_schedules made = (ok (arr nil), made)
answer (create_schedule fields) made = (ok schedule, true)
answer (update_schedule id changes) made = (ok schedule, made)
answer (get_schedule id) made = (ok schedule, made)
answer (publish_workflow id n) made = (ok null, made)
answer (on_published v) made = (ok undefined, made)

-- The same server when publishing fails, and when nothing is published.
abbrev pub refuse : Call → Bool → Result Value × Bool
refuse (get_workflow id) made = (ok (obj end), made)
refuse (publish_workflow id n) made = (throws (error "refused"), made)
refuse _ made = (ok undefined, made)

abbrev pub begin : World Call Bool
begin = record { behind = false; made = [] }

abbrev pub edited : Option PayloadDraft
edited = some (record { text = "{}"; dirty = true })
