-- ===== src/Variables.antt =====
-- frontend/src/components/workflow/workflowVariables.js: which earlier nodes may be referred to.
pub mod LeadsTo
pub mod Previous
pub mod Guaranteed
use mathlib.Core.Option
use relay_workflow_automatio.Prelude.{
  ℕ, ◌+◌, String, Bool, true, false, not, ◌&&◌, ◌||◌, Option, none, some, List, [], ◌∷◌, map,
  reverse, ◌==◌, has, length, filter, filter_map, if◌then◌else◌,
}
use relay_workflow_automatio.Graph.{Node, Edge, is_trigger, text_is, successors, predecessors}
use relay_workflow_automatio.Graph.Explore.{Outcome, exhausted, found, out_of_fuel, explore}
use relay_workflow_automatio.Graph.Flood.{flood}

pub outputs_by_type : List (String × List String)
outputs_by_type =
    ("ai.generate", "content" ∷ "model" ∷ "input_tokens" ∷ "output_tokens" ∷ [])
    ∷ (
      "ai.decision",
      "decision" ∷ "reason" ∷ "data" ∷ "model" ∷ "input_tokens" ∷ "output_tokens" ∷ [],
    )
    ∷ ("ai.rag_search", "chunks" ∷ "context" ∷ [])
    ∷ ("action.http_request", "status_code" ∷ "body" ∷ "headers" ∷ "success" ∷ [])
    ∷ ("action.email", "message_id" ∷ "thread_id" ∷ "label_ids" ∷ "success" ∷ [])
    ∷ ("action.refund", "refund_id" ∷ "payment_id" ∷ "amount" ∷ "status" ∷ "success" ∷ [])
    ∷ []

-- `new Map(nodes.map((node) => [node.id, node]))`: the last node of an id is the one found.
pub by_id : List Node → String → Option Node
by_id [] id = none
by_id (n ∷ ns) id = elim (by_id ns id) [
  | some later ↦ some later
  | none ↦ if n.id == id then some n else none
]

-- A round of a search pushes each edge's other end at most once, so these rounds are enough.
abbrev pub rounds : List Edge → ℕ
rounds edges = length edges + length edges + 1

abbrev pub never : String → Bool
never id = false

-- The `following` loop: what the current node leads to.
pub following_ids : List Edge → String → List String
following_ids edges current =
    Option.get_or (flood edges (rounds edges) (record { pending = current ∷ []; marked = [] })) []

abbrev pub marked_ids : Outcome → List String
marked_ids (exhausted seen) = seen
marked_ids found = []
marked_ids out_of_fuel = []

-- The `pending` loop, from the sources of the edges into the current node. `reverse` gives the
-- set's order of insertion, and the stack's top is its last element.
pub previous_ids : List Edge → String → List String
previous_ids edges current = reverse (
    marked_ids (
      explore (λ id. id == current) never (predecessors edges) (rounds edges)
        (reverse (predecessors edges current)) []))

-- `includeTriggers || !node.data?.typeId?.startsWith("trigger.")`
pub keeps : List Edge → String → Bool → Node → Bool
keeps edges current include_triggers n =
    let following = following_ids edges current in
    not (has n.id following) && (include_triggers || not (is_trigger n))

pub previous_nodes_for : List Node → List Edge → String → Bool → List Node
previous_nodes_for nodes edges current include_triggers = reverse (
    filter (keeps edges current include_triggers)
      (filter_map (by_id nodes) (previous_ids edges current)))

abbrev pub is_found : Outcome → Bool
is_found found = true
is_found _ = false

-- `canReachWithout`: is there a way from the root to the current node that avoids `excluded`?
-- `none` is the excluded id `null`.
pub can_reach_without : List Edge → String → String → Option String → Bool
can_reach_without edges root current excluded = is_found (
    explore (text_is excluded) (λ id. id == current) (successors edges) (rounds edges) (root ∷ [])
      [])

on_every_route : List Edge → String → String → Node → Bool
on_every_route edges root current n =
    not (text_is n.type_id "human.approval")
    && not (can_reach_without edges root current (some n.id))

from_root : List Node → List Edge → String → String → List Node
from_root nodes edges current root =
    if can_reach_without edges root current none
    then filter (on_every_route edges root current) (previous_nodes_for nodes edges current false)
    else []

guaranteed_of : List Node → List Edge → String → List Node → List Node
guaranteed_of nodes edges current (trigger ∷ []) = from_root nodes edges current trigger.id
guaranteed_of nodes edges current _ = []

pub guaranteed_previous_nodes_for : List Node → List Edge → String → List Node
guaranteed_previous_nodes_for nodes edges current =
    guaranteed_of nodes edges current (filter is_trigger nodes)
