-- ===== src/Saving/Snapshot.antt =====
-- workflowSaveState.js: the snapshot of what is saved of a canvas.
pub mod Shuffled
use relay_workflow_automatio.Prelude.{
  ℕ, ◌+◌, ◌-◌, ◌*◌, ◌/◌, ◌^◌, Bool, true, false, not, ◌||◌, String, Option, none, some, List, [],
  ◌∷◌, map, ◌==◌, eqb, sort_by, if◌then◌else◌,
}
use relay_workflow_automatio.Js.{
  Num, nan, infinite, finite, integer, Value, undefined, null, num, str, arr, obj, Fields, field,
  end, Items, prop, or_nullish,
}
use relay_workflow_automatio.Js.Host.{Host}
use relay_workflow_automatio.Graph.{Edge}
use relay_workflow_automatio.Config.Normalize.{
  normalize_decision_configuration, normalize_rag_configuration,
}
use relay_workflow_automatio.Executions.Validate.{items_of}

-- A node of the editor, with what is saved of it. The editor gives each node a logical id and a
-- type; a configuration is an object, or missing.
pub record SavedNode : Type 0 where
  pub id : String
  pub node_id : String
  pub type_id : String
  pub label : Value
  pub x : Num
  pub y : Num
  pub config : Option Fields

-- `Math.round`
unfoldable pub round : Num → Num
round nan = nan
round (infinite s) = infinite s
round (finite false m k) = integer ((m * 2 + 2 ^ k) / (2 * 2 ^ k))
round (finite true m k) = finite true ((m * 2 + (2 ^ k - 1)) / (2 * 2 ^ k)) 0

-- `logicalIds.get(id)`: of two nodes with one id the later one counts
unfoldable pub logical_of : List SavedNode → String → Option String
logical_of [] id = none
logical_of (n ∷ ns) id = elim (logical_of ns id) [
  | some node_id ↦ some node_id
  | none ↦ if n.id == id then some n.node_id else none
]

abbrev pub or_id : Option String → String → String
or_id none id = id
or_id (some node_id) id = node_id

abbrev pub config_of : Option Fields → Fields
config_of none = end
config_of (some fs) = fs

module _ (host : Host) where
  unfoldable pub saved_config : String → Option Fields → Fields
  saved_config type_id config =
      if type_id == "ai.rag_search"
      then normalize_rag_configuration (obj (config_of config))
      else if type_id == "ai.decision"
      then normalize_decision_configuration host (config_of config)
      else config_of config

  unfoldable pub node_entry : SavedNode → Value
  unfolding saved_config
  node_entry n = obj (
      field "nodeId" (str n.node_id) (
        field "type" (str n.type_id) (
          field "label" n.label (
            field "x" (num (round n.x)) (
              field "y" (num (round n.y))
                (field "config" (obj (saved_config n.type_id n.config)) end))))))

  unfoldable pub edge_entry : List SavedNode → Edge → Value
  edge_entry nodes e = obj (
      field "source" (str (or_id (logical_of nodes e.source) e.source)) (
        field "target" (str (or_id (logical_of nodes e.target) e.target))
          (field "condition" (or_nullish e.condition null) end)))

  abbrev text_of : Value → String
  text_of (str s) = s
  text_of _ = ""

  -- the two comparisons of `sort`
  abbrev pub node_le : Value → Value → Bool
  node_le a b = host.collates (text_of (prop a "nodeId")) (text_of (prop b "nodeId"))

  abbrev pub edge_le : Value → Value → Bool
  edge_le a b = host.collates (host.json_text a) (host.json_text b)

  unfoldable pub sorted_nodes : List SavedNode → List Value
  sorted_nodes nodes = sort_by node_le (map node_entry nodes)

  unfoldable pub sorted_edges : List SavedNode → List Edge → List Value
  sorted_edges nodes edges = sort_by edge_le (map (edge_entry nodes) edges)

  abbrev pub snapshot_of : List Value → List Value → Value
  snapshot_of nodes edges =
      obj (field "nodes" (arr (items_of nodes)) (field "edges" (arr (items_of edges)) end))

  unfoldable pub snapshot_value : List SavedNode → List Edge → Value
  snapshot_value nodes edges = snapshot_of (sorted_nodes nodes) (sorted_edges nodes edges)

  unfoldable pub workflow_save_snapshot : List SavedNode → List Edge → String
  workflow_save_snapshot nodes edges = host.json_text (snapshot_value nodes edges)

  -- has the canvas changed since `saved` was taken at a revision? Revisions count the edits.
  unfoldable pub workflow_changed_during_save : String → List SavedNode → List Edge → ℕ → ℕ → Bool
  workflow_changed_during_save saved nodes edges saved_revision current_revision =
      not (eqb saved_revision current_revision) || not (saved == workflow_save_snapshot nodes edges)
