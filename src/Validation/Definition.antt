-- ===== src/Validation/Definition.antt =====
-- workflowValidation.js, workflowDefinition: what is sent to be validated.
use relay_workflow_automatio.Prelude.{String, none, some, List, ◌==◌, if◌then◌else◌}
use relay_workflow_automatio.Js.{
  Value, arr, obj, Fields, field, end, prop, put, map_items, is_record,
}
use relay_workflow_automatio.Js.Text.{trim}
use relay_workflow_automatio.Js.Host.{Host}
use relay_workflow_automatio.Js.Effect.{error, type_error, Result, ok, throws}
use relay_workflow_automatio.Graph.{Edge}
use relay_workflow_automatio.Saving.Snapshot.{SavedNode, workflow_save_snapshot}

-- an entry of the snapshot, in the words of the server
unfoldable pub definition_node : Value → Value
definition_node node = obj (
    field "node_id" (prop node "nodeId") (
      field "node_type" (prop node "type") (
        field "label" (prop node "label") (
          field "position_x" (prop node "x") (
            field "position_y" (prop node "y") (field "configuration" (prop node "config") end))))))

unfoldable pub definition_edge : Value → Value
definition_edge edge = obj (
    field "source_node_id" (prop edge "source")
      (field "target_node_id" (prop edge "target") (field "condition" (prop edge "condition") end)))

-- `snapshot.nodes.map(…)` and `snapshot.edges.map(…)`
abbrev definition_of : Value → Value → Result Fields
definition_of (arr nodes) (arr edges) = ok (
    field "nodes" (arr (map_items definition_node nodes))
      (field "edges" (arr (map_items definition_edge edges)) end))
definition_of _ _ = throws type_error

abbrev sample_message : String
sample_message = "Sample trigger input must be a valid JSON object."

abbrev with_sample : Host → String → Fields → Result Fields
with_sample host text definition = elim (host.parse_json text) [
  | none ↦ throws (error sample_message)
  | some sample ↦
      if is_record sample
      then ok (put definition "sample_input" sample)
      else throws (error "Sample trigger input must be a JSON object.")
]

-- the sample belongs to the definition where its text is not blank
unfoldable pub add_sample : Host → String → Result Fields → Result Fields
add_sample host text (throws e) = throws e
add_sample host text (ok definition) =
    if trim text == "" then ok definition else with_sample host text definition

-- `JSON.parse(workflowSaveSnapshot(nodes, edges))` with its rewriting
unfoldable pub canvas_definition : Host → List SavedNode → List Edge → Result Fields
canvas_definition host nodes edges =
    elim (host.parse_json (workflow_save_snapshot host nodes edges)) [
      | none ↦ throws (error "SyntaxError")
      | some snapshot ↦ definition_of (prop snapshot "nodes") (prop snapshot "edges")
    ]

unfoldable pub workflow_definition : Host → List SavedNode → List Edge → String → Result Fields
unfolding canvas_definition add_sample
workflow_definition host nodes edges text =
    add_sample host text (canvas_definition host nodes edges)
