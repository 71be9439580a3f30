-- ===== src/Executions/Canvas.antt =====
-- lib/executions.js, canvasExecutionState: the recorded steps of a run, on the nodes of the canvas.
pub mod Recorded
use relay_workflow_automatio.Prelude.{
  ℕ, Bool, true, false, not, ◌&&◌, ◌||◌, String, Option, none, some, List, [], ◌∷◌, map, filter,
  filter_map, has, ltb, leb, eqb, ◌==◌, if◌then◌else◌,
}
use relay_workflow_automatio.Js.{Value, truthy, prop, strict_eq}
use relay_workflow_automatio.Js.Host.{Host}
use relay_workflow_automatio.Graph.{Node}
use relay_workflow_automatio.Config.Options.{logical_id}
use relay_workflow_automatio.Executions.Status.{normalize_status}

-- A recorded step, as validateExecutionSteps passes it.
pub record Step : Type 0 where
  pub id : String
  pub node_id : String
  pub status : String
  pub sequence : ℕ
  pub attempt : ℕ

pub record Snapshot : Type 0 where
  pub execution : Value
  pub steps : List Step

-- The map from node ids to steps.
abbrev pub ByNode : Type 0
ByNode = String → Option Step

-- does the step replace the previous one of its node?
abbrev pub replaces : Step → Step → Bool
replaces step previous =
    ltb previous.sequence step.sequence
    || (eqb step.sequence previous.sequence && leb previous.attempt step.attempt)

abbrev replaces_any : Step → Option Step → Bool
replaces_any step none = true
replaces_any step (some previous) = replaces step previous

unfoldable pub place : ByNode → Step → ByNode
place m step id =
    if step.node_id == id && replaces_any step (m step.node_id) then some step else m id

unfoldable pub place_all : ByNode → List Step → ByNode
place_all m [] = m
place_all m (step ∷ steps) = place_all (place m step) steps

unfoldable pub by_node : List Step → ByNode
by_node steps = place_all (λ id. none) steps

pub record Decorated : Type 0 where
  pub node : Node
  pub execution_status : Option String
  pub execution_active : Bool

pub record CanvasState : Type 0 where
  pub nodes : List Decorated
  pub matching_version : Bool
  pub unmatched : List Step

abbrev status_of : Option Step → Option String
status_of none = none
status_of (some step) = some step.status

abbrev id_of : Option Step → Option String
id_of none = none
id_of (some step) = some step.node_id

-- the ids of the steps that stand on a node
unfoldable pub matched_ids : List Node → List Step → List String
matched_ids nodes steps = filter_map (λ n. id_of (by_node steps (logical_id n))) nodes

unfoldable pub unmatched_steps : List Node → List Step → List Step
unmatched_steps nodes steps =
    filter (λ (s : Step). not (has s.node_id (matched_ids nodes steps))) steps

module _ (host : Host) where
  -- `Boolean(snapshot && versionId && snapshot.execution.workflow_version_id === versionId)`
  unfoldable pub is_matching : Option Snapshot → Value → Bool
  is_matching none version_id = false
  is_matching (some snapshot) version_id =
      truthy version_id && strict_eq (prop snapshot.execution "workflow_version_id") version_id

  abbrev steps_of : Option Snapshot → Bool → List Step
  steps_of none matching = []
  steps_of (some snapshot) matching = if matching then snapshot.steps else []

  abbrev is_running : Option Snapshot → Bool
  is_running none = false
  is_running (some snapshot) =
      has (normalize_status host (prop snapshot.execution "status")) ("running" ∷ "pending" ∷ [])

  unfoldable pub canvas_execution_state : List Node → Option Snapshot → Value → CanvasState
  canvas_execution_state nodes snapshot version_id =
      let matching = is_matching snapshot version_id in
      let steps = steps_of snapshot matching in
      record {
        nodes =
            map
              (λ n. record {
                node = n;
                execution_status = status_of (by_node steps (logical_id n));
                execution_active = matching && is_running snapshot;
              })
              nodes;
        matching_version = matching;
        unmatched = unmatched_steps nodes steps;
      }
