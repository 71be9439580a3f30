-- ===== src/Graph/Flood.antt =====
-- The loop that marks an id when it is pushed:
--   while (pending.length) { source = pending.pop(); for (edge of edges)
--     if (edge.source === source && !marked.has(edge.target)) { marked.add(edge.target);
--       pending.push(edge.target) } }
pub mod Correct
pub mod Fresh
use mathlib.Core.List.{foldl}
use relay_workflow_automatio.Prelude.{
  ℕ, zero, suc, String, Bool, true, not, ◌&&◌, Option, none, some, List, [], ◌∷◌, has, ◌==◌, ◌≡◌,
  if◌then◌else◌,
}
use relay_workflow_automatio.Graph.{Edge, successors}

-- `pending` has its top at the head, `marked` its newest id.
pub record Flooding : Type 0 where
  pub pending : List String
  pub marked : List String

-- one round of the inner loop
unfoldable pub offer : String → Flooding → Edge → Flooding
offer source s e =
    if e.source == source && not (has e.target s.marked)
    then record { pending = e.target ∷ s.pending; marked = e.target ∷ s.marked }
    else s

unfoldable pub scan : String → Flooding → List Edge → Flooding
scan source = foldl (offer source)

-- `none` if the fuel runs out
unfoldable pub flood : List Edge → ℕ → Flooding → Option (List String)
flood edges zero s = elim s.pending [ [] ↦ some s.marked | _ ∷ _ ↦ none ]
flood edges (suc fuel) s = elim s.pending [
  | [] ↦ some s.marked
  | source ∷ rest ↦ flood edges fuel (scan source (record s { pending = rest }) edges)
]

-- The ids at the ends of the walks of at least one edge out of `starts`.
pub data Follows (edges : List Edge) (starts : List String) : String → Type 0 where
  one :
      (u : String) {v : String}
      → has u starts ≡ true
      → has v (successors edges u) ≡ true
      → Follows edges starts v
  more :
      {u v : String}
      → Follows edges starts u
      → has v (successors edges u) ≡ true
      → Follows edges starts v
