-- ===== src/Graph.antt =====
-- The canvas of the workflow editor: nodes, edges, and the worklist searches over them.
-- `Explore` is the search that marks an id when it is taken from the stack, `Flood` the one that
-- marks it when it is put there; both occur in frontend/src/components/workflow.
pub mod Explore
pub mod Flood
use relay_workflow_automatio.Prelude.{
  String, Bool, false, Option, none, some, List, [], ◌∷◌, map, ◌==◌, starts_with, ◌≡◌, filter,
}
use relay_workflow_automatio.Js.{Value}

-- A React Flow node, with the fields of `node.data` that the program reads. A field that is
-- missing (or a missing `data`) is `none`. Identifiers are strings, so `String(node.id)` is `node.id`.
pub record Node : Type 0 where
  pub id : String
  pub type_id : Option String
  pub node_id : Option String
  pub label : Option String
  pub config : Value
  pub x : Value
  pub y : Value

-- An edge of the canvas; `condition` is `edge.data?.condition`.
pub record Edge : Type 0 where
  pub id : String
  pub source : String
  pub target : String
  pub condition : Value

-- `node.data?.typeId?.startsWith("trigger.")`, as a condition
abbrev type_starts : Option String → Bool
type_starts none = false
type_starts (some t) = starts_with t "trigger."

unfoldable pub is_trigger : Node → Bool
is_trigger n = type_starts n.type_id

-- `node.data?.typeId === t`
abbrev pub text_is : Option String → String → Bool
text_is none t = false
text_is (some s) t = s == t

-- the targets of the edges out of a node, and the sources of the edges into it, in edge order
unfoldable pub successors : List Edge → String → List String
successors edges u = map (λ (e : Edge). e.target) (filter (λ (e : Edge). e.source == u) edges)

unfoldable pub predecessors : List Edge → String → List String
predecessors edges u = map (λ (e : Edge). e.source) (filter (λ (e : Edge). e.target == u) edges)
