-- ===== src/Validation/Answer/Placed.antt =====
-- What the editor shows of an answer: each issue of the server, at the node of the canvas that it
-- names.
use relay_workflow_automatio.Prelude.{
  Bool, true, false, String, Option, none, some, List, [], ◌∷◌, ◌≡◌, ◌≢◌, refl, sym, ap, subst, ◌∙◌,
  inl, inr, arith, eq_iff, is_nil, Bool-cases, In,
}
use relay_workflow_automatio.Js.{
  Value, undefined, null, bool, num, str, arr, obj, prop, get, fields_of, is_nullish, or_else, put,
  strict_eq,
}
use relay_workflow_automatio.Js.Laws.{get-put}
use relay_workflow_automatio.Js.Effect.{Result, ok, throws}
use relay_workflow_automatio.Saving.Snapshot.{SavedNode}
use relay_workflow_automatio.Validation.Answer.{
  Checked, canvas_id, label_of, add_issue, node_named, normalize_issue, normalize_issues,
  issue_node, normalize_validation, is_answer, is_bool, listed, says_valid, checked_of,
}

-- The node of the canvas with a logical id, or none has it.
abbrev pub IsNamed : List SavedNode → Value → Option SavedNode → Type 0
IsNamed nodes node_id none =
    (n : SavedNode) → In n nodes → strict_eq (str n.node_id) node_id ≡ false
IsNamed nodes node_id (some n) = In n nodes × (strict_eq (str n.node_id) node_id ≡ true)

module _ (node_id : Value) where
  pass-IsNamed :
      (n : SavedNode) (nodes : List SavedNode) (o : Option SavedNode)
      → strict_eq (str n.node_id) node_id ≡ false
      → IsNamed nodes node_id o
      → IsNamed (n ∷ nodes) node_id o
  pass-IsNamed n nodes none other h =
      λ m here. elim here [ inl e ↦ rw e other | inr later ↦ h m later ]
  pass-IsNamed n nodes (some m) other h = (inr h.0, h.1)

  pub node_named-IsNamed :
      (nodes : List SavedNode) → IsNamed nodes node_id (node_named nodes node_id)
  unfolding node_named
  node_named-IsNamed [] = λ n here. absurd here
  node_named-IsNamed (n ∷ nodes) = elim (Bool-cases (strict_eq (str n.node_id) node_id)) [
    | inl holds ↦ rw holds (inl refl, holds)
    | inr fails ↦ rw fails (pass-IsNamed n nodes _ fails (node_named-IsNamed nodes))
  ]

-- The issue that is shown has the properties of the server's issue, and its place on the canvas.
pub record IsPlaced (nodes : List SavedNode) (issue shown : Value) : Type 0 where
  pub named : prop shown "nodeId" ≡ issue_node issue
  pub node : Option SavedNode
  pub place : prop shown "canvasNodeId" ≡ canvas_id node
  pub right : IsNamed nodes (issue_node issue) node
  pub others :
      (key : String)
      → key ≢ "nodeId"
      → key ≢ "canvasNodeId"
      → key ≢ "nodeLabel"
      → prop shown key ≡ get (fields_of issue) key

normalize_issue-IsPlaced :
    (nodes : List SavedNode) (issue : Value) → IsPlaced nodes issue (normalize_issue nodes issue)
unfolding normalize_issue prop
normalize_issue-IsPlaced nodes issue =
    let id = issue_node issue in
    let node = node_named nodes id in
    let first = put (fields_of issue) "nodeId" id in
    let second = put first "canvasNodeId" (canvas_id node) in
    let label = or_else (label_of node) id in
    record {
      named =
          get-put second "nodeLabel" label "nodeId"
          ∙ get-put first "canvasNodeId" (canvas_id node) "nodeId"
          ∙ get-put (fields_of issue) "nodeId" id "nodeId";
      node = node;
      place =
          get-put second "nodeLabel" label "canvasNodeId"
          ∙ get-put first "canvasNodeId" (canvas_id node) "canvasNodeId";
      right = node_named-IsNamed id nodes;
      others = λ key a b c. ground (
        arith,
        get-put second "nodeLabel" label key,
        get-put first "canvasNodeId" (canvas_id node) key,
        get-put (fields_of issue) "nodeId" id key,
        eq_iff "nodeLabel" key,
        eq_iff "canvasNodeId" key,
        eq_iff "nodeId" key,
      );
    }

-- The issues that are shown are the issues of the server, in its order.
pub data ArePlaced (nodes : List SavedNode) : List Value → List Value → Type 0 where
  no_issues : ArePlaced nodes [] []
  one_more :
      {issue shown : Value} {issues more : List Value}
      → IsPlaced nodes issue shown
      → ArePlaced nodes issues more
      → ArePlaced nodes (issue ∷ issues) (shown ∷ more)

-- the issues were normalized one by one
normalize_issues-split :
    (nodes : List SavedNode) (issue : Value) (issues shown : List Value)
    → normalize_issues nodes (issue ∷ issues) ≡ ok shown
    → (more : List Value) × (normalize_issues nodes issues ≡ ok more)
      × (normalize_issue nodes issue ∷ more ≡ shown)
unfolding normalize_issues
normalize_issues-split nodes issue issues shown e = elim (Bool-cases (is_nullish issue)) [
  | inl missing ↦ absurd (ground (arith, missing, e))
  | inr there ↦ go (normalize_issues nodes issues) refl (rw there at e)
]
  where
    go :
        (o : Result (List Value))
        → normalize_issues nodes issues ≡ o
        → add_issue nodes issue o ≡ ok shown
        → (more : List Value) × (normalize_issues nodes issues ≡ ok more)
          × (normalize_issue nodes issue ∷ more ≡ shown)
    go (throws x) h p = absurd (ground arith)
    go (ok more) h p = (more, h, ground arith)

normalize_issues-ArePlaced :
    (nodes : List SavedNode) (issues shown : List Value)
    → normalize_issues nodes issues ≡ ok shown
    → ArePlaced nodes issues shown
unfolding normalize_issues
normalize_issues-ArePlaced nodes [] [] e = no_issues
normalize_issues-ArePlaced nodes [] (v ∷ vs) e = absurd (ground arith)
normalize_issues-ArePlaced nodes (issue ∷ issues) shown e =
    let (more, rest, same) = normalize_issues-split nodes issue issues shown e in
    subst (ArePlaced nodes (issue ∷ issues)) same (
      one_more (normalize_issue-IsPlaced nodes issue)
        (normalize_issues-ArePlaced nodes issues more rest))

bool-says : (v : Value) → is_bool v ≡ true → v ≡ bool (says_valid v)
bool-says (bool b) e = refl
bool-says undefined e = absurd (ground arith)
bool-says null e = absurd (ground arith)
bool-says (num n) e = absurd (ground arith)
bool-says (str s) e = absurd (ground arith)
bool-says (arr xs) e = absurd (ground arith)
bool-says (obj fs) e = absurd (ground arith)

nil-empty : (vs : List Value) → is_nil vs ≡ true → vs ≡ []
nil-empty [] e = refl
nil-empty (v ∷ vs) e = absurd (ground arith)

-- Both lists were normalized.
checked-split :
    (valid : Bool) (a b : Result (List Value)) (c : Checked)
    → checked_of valid a b ≡ ok c
    → (valid ≡ c.is_valid) × (a ≡ ok c.errors) × (b ≡ ok c.warnings)
checked-split valid (ok errors) (ok warnings) c e =
    let same : record { is_valid = valid; errors = errors; warnings = warnings } ≡ c =
      ground arith in
    (
      ap (λ (x : Checked). x.is_valid) same,
      ap (λ (x : Checked). ok x.errors) same,
      ap (λ (x : Checked). ok x.warnings) same,
    )
checked-split valid (ok errors) (throws x) c e = absurd (ground arith)
checked-split valid (throws x) b c e = absurd (ground arith)

-- The answer that is shown: the verdict of the server, and its issues.
pub record IsShown (nodes : List SavedNode) (response : Value) (c : Checked) : Type 0 where
  pub verdict : prop response "valid" ≡ bool c.is_valid
  pub sound : c.is_valid ≡ true → c.errors ≡ []
  pub errors : ArePlaced nodes (listed (prop response "errors")) c.errors
  pub warnings : ArePlaced nodes (listed (prop response "warnings")) c.warnings

-- An answer of the server that is accepted is shown as it is: its verdict, which is "valid" only
-- without errors, and each of its errors and warnings in order, with its own properties and with the
-- node of the canvas that has the logical id which the issue names, if there is one.
pub normalize_validation-IsShown :
    (nodes : List SavedNode) (response : Value) (c : Checked)
    → normalize_validation response nodes ≡ ok c
    → IsShown nodes response c
unfolding normalize_validation is_answer normalize_issues
normalize_validation-IsShown nodes response c e = elim (Bool-cases (is_answer response)) [
  | inl holds ↦
      let (valid, first, second) =
        checked-split (says_valid (prop response "valid"))
          (normalize_issues nodes (listed (prop response "errors")))
          (normalize_issues nodes (listed (prop response "warnings"))) c (rw holds at e) in
      record {
        verdict = bool-says (prop response "valid") (ground arith) ∙ ap (λ b. bool b) valid;
        sound = λ yes.
            let empty = nil-empty (listed (prop response "errors")) (ground arith) in
            let rest : ok [] ≡ ok c.errors = sym (ap (normalize_issues nodes) empty) ∙ first in
            ground arith;
        errors = normalize_issues-ArePlaced nodes _ _ first;
        warnings = normalize_issues-ArePlaced nodes _ _ second;
      }
  | inr fails ↦ absurd (let none_left = rw fails at e in ground arith)
]
