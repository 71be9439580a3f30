-- ===== src/Graph/Explore.antt =====
-- The depth-first loop that marks an id when it is popped:
--   while (pending.length) { id = pending.pop(); if (skip(id) || seen.has(id)) continue;
--     if (stop(id)) return true; seen.add(id); push every id of next(id) }
-- The stack is a list with its top at the head, the set a list with its newest id at the head.
pub mod Fuel
pub mod Correct
use relay_workflow_automatio.Prelude.{
  ℕ, zero, suc, String, Bool, true, false, ◌||◌, List, [], ◌∷◌, ◌++◌, reverse, has, ◌≡◌,
}

pub data Outcome : Type 0 where
  exhausted : List String → Outcome
  found out_of_fuel : Outcome

module _ (skip stop : String → Bool) (next : String → List String) where
  pub explore : ℕ → List String → List String → Outcome
  explore zero [] seen = exhausted seen
  explore zero (id ∷ pending) seen = out_of_fuel
  explore (suc fuel) [] seen = exhausted seen
  explore (suc fuel) (id ∷ pending) seen = elim (skip id || has id seen) [
    | true ↦ explore fuel pending seen
    | false ↦ elim (stop id) [
      | true ↦ found
      | false ↦ explore fuel (reverse (next id) ++ pending) (id ∷ seen)
    ]
  ]

  -- The ids on the walks from `starts` whose ids are not skipped.
  pub data Reached (starts : List String) : String → Type 0 where
    start : {id : String} → has id starts ≡ true → skip id ≡ false → Reached starts id
    onward :
        {u v : String}
        → Reached starts u
        → has v (next u) ≡ true
        → skip v ≡ false
        → Reached starts v
