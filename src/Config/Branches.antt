-- ===== src/Config/Branches.antt =====
-- configValidation.js: `validateConditionBranches`, the labels of the edges out of branching nodes.
pub mod Labels
pub mod Labelled
use Prim.Native.String.{◌++◌ as join}
use relay_workflow_automatio.Prelude.{
  Bool, true, not, ◌&&◌, ◌||◌, String, Option, none, some, List, [], ◌∷◌, ◌++◌, ◌==◌, any, filter,
  is_nil, ltb, if◌then◌else◌,
}
use relay_workflow_automatio.Js.{Value, str}
use relay_workflow_automatio.Js.Host.{Host}
use relay_workflow_automatio.Js.Text.{trim, js_length}
use relay_workflow_automatio.Graph.{Node, Edge, text_is}
use relay_workflow_automatio.Config.Options.{BranchOption, logical_id, branch_options}

-- What the validation of the canvas reports.
pub record CanvasError : Type 0 where
  pub code : String
  pub field : Option String
  pub node_id : Option String
  pub edge_id : Option String
  pub message : String

-- What is reported about one node: its code, its id and the kind and label that messages name.
pub record Subject : Type 0 where
  pub code : String
  pub node_id : String
  pub branch_type : String
  pub label : String

-- The errors so far, and the labels met at this node with the first edge of each.
pub record Progress : Type 0 where
  pub errors : List CanvasError
  pub seen : List (String × String)

pub first_edge : String → List (String × String) → Option String
first_edge value [] = none
first_edge value ((v, edge) ∷ seen) = if v == value then some edge else first_edge value seen

-- `errors.some((error) => error.edgeId === edge)`
pub is_reported : String → List CanvasError → Bool
is_reported edge errors = any (λ (e : CanvasError). text_is e.edge_id edge) errors

abbrev report : Subject → String → String → CanvasError
report subject edge message = record {
  code = subject.code;
  field = none;
  node_id = some subject.node_id;
  edge_id = some edge;
  message = join subject.label (join ": " message);
}

abbrev offers : String → Option (List BranchOption) → Bool
offers value none = true
offers value (some options) = any (λ (o : BranchOption). o.value == value) options

abbrev choose_message : Subject → String
choose_message subject = join "Choose an outcome for this " (join subject.branch_type " branch.")

-- The message about a label that is a text, if its form is wrong.
pub form_message : Subject → Option (List BranchOption) → String → Option String
form_message subject options value =
    if trim value == ""
    then some (choose_message subject)
    else if not (value == trim value)
    then some "Branch labels cannot begin or end with spaces."
    else if ltb 255 (js_length value)
    then some "Branch labels must be 255 characters or fewer."
    else if not (offers value options)
    then some (join "Outcome '" (join value "' is not available. Choose a current outcome."))
    else none

used_message : Subject → String → String
used_message subject value =
    join "Outcome '" (join value (join "' is already used on this " (join subject.branch_type ".")))

-- A label of a good form: the first edge with it is reported too when a second one is met.
repeated : Subject → String → Edge → Option String → List CanvasError → List CanvasError
repeated subject value edge none errors = errors
repeated subject value edge (some earlier) errors =
    let message = used_message subject value in
    let again = report subject edge.id message ∷ [] in
    if is_reported earlier errors
    then errors ++ again
    else errors ++ (report subject earlier message ∷ again)

abbrev text_errors :
    Subject → String → Edge → Option String → Option String → List CanvasError → List CanvasError
text_errors subject value edge (some message) earlier errors =
    errors ++ (report subject edge.id message ∷ [])
text_errors subject value edge none earlier errors = repeated subject value edge earlier errors

-- `if (!seen.has(value)) seen.set(value, edge.id)`
abbrev remember : String → Edge → Option String → List (String × String) → List (String × String)
remember value edge none seen = (value, edge.id) ∷ seen
remember value edge (some earlier) seen = seen

-- One round of the inner loop, by what `edge.data?.condition` is.
check_label : Subject → Option (List BranchOption) → Edge → Value → Progress → Progress
check_label subject options edge (str value) p =
    let earlier = first_edge value p.seen in
    record {
      errors = text_errors subject value edge (form_message subject options value) earlier p.errors;
      seen = remember value edge earlier p.seen;
    }
check_label subject options edge _ p = record p {
  errors = p.errors ++ (report subject edge.id (choose_message subject) ∷ []);
}

pub check_edges : Subject → Option (List BranchOption) → List Edge → Progress → Progress
check_edges subject options [] p = p
check_edges subject options (edge ∷ edges) p =
    check_edges subject options edges (check_label subject options edge edge.condition p)

-- `node.data?.label || nodeId`
abbrev pub or_label : Option String → String → String
or_label none id = id
or_label (some l) id = if l == "" then id else l

pub outgoing : Node → List Edge → List Edge
outgoing node edges = filter (λ (e : Edge). e.source == node.id) edges

subject_of : Node → Subject
subject_of node =
    let approval = text_is node.type_id "human.approval" in
    record {
      code = if approval then "APPROVAL_BRANCH_LABEL" else "CONDITION_BRANCH_LABEL";
      node_id = logical_id node;
      branch_type = if approval then "Human Approval" else "Condition";
      label = or_label node.label (logical_id node);
    }

no_branches : Node → List Edge → List CanvasError
no_branches node edges =
    if is_nil (outgoing node edges) && not (text_is node.type_id "human.approval")
    then record {
      code = "CONDITION_NO_BRANCHES";
      field = none;
      node_id = some (logical_id node);
      edge_id = none;
      message =
          join (or_label node.label (logical_id node)) ": Connect at least one outgoing branch.";
    }
      ∷ []
    else []

module _ (host : Host) where
  -- One round of the outer loop.
  check_node : List Node → List Edge → Node → List CanvasError → List CanvasError
  check_node nodes edges node errors =
      (check_edges (subject_of node) (branch_options host node nodes edges) (outgoing node edges)
        (record { errors = errors ++ no_branches node edges; seen = [] })).errors

  pub branches : Node → Bool
  branches n = text_is n.type_id "logic.condition" || text_is n.type_id "human.approval"

  check_nodes : List Node → List Edge → List Node → List CanvasError → List CanvasError
  check_nodes nodes edges [] errors = errors
  check_nodes nodes edges (n ∷ ns) errors =
      check_nodes nodes edges ns (check_node nodes edges n errors)

  pub validate_condition_branches : List Node → List Edge → List CanvasError
  validate_condition_branches nodes edges = check_nodes nodes edges (filter branches nodes) []
