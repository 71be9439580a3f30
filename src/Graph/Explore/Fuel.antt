-- ===== src/Graph/Explore/Fuel.antt =====
-- The loop of `Explore` ends: a round takes one id from the stack, and an id pushes its successors
-- once. `keys` holds, for each edge, the id that pushes the other end.
use relay_workflow_automatio.Prelude.{
  ℕ, zero, suc, ◌+◌, ◌≤◌, String, Bool, true, false, List, [], ◌∷◌, ◌++◌, reverse, has, ◌≡◌, ◌≢◌,
  arith, length, length-append, length-reverse, if◌then◌else◌, eq_iff, refl, ◌==◌,
}
use relay_workflow_automatio.Graph.Explore.{explore, Outcome, exhausted, found, out_of_fuel}

-- the edges whose pushing id is `u`, and those whose pushing id is not yet marked
unfoldable pub count : String → List String → ℕ
count u [] = 0
count u (k ∷ keys) = if k == u then suc (count u keys) else count u keys

pub unmarked : List String → List String → ℕ
unmarked seen [] = 0
unmarked seen (k ∷ keys) = if has k seen then unmarked seen keys else suc (unmarked seen keys)

pub unmarked-cons :
    (u : String) (seen keys : List String)
    → has u seen ≡ false
    → unmarked (u ∷ seen) keys + count u keys ≡ unmarked seen keys
unfolding unmarked count has
unmarked-cons u seen [] h = omega arith
unmarked-cons u seen (k ∷ keys) h = ground (arith, unmarked-cons u seen keys h, eq_iff k u)

pub unmarked-le : (seen keys : List String) → unmarked seen keys ≤ length keys
unfolding unmarked
unmarked-le seen [] = omega arith
unmarked-le seen (k ∷ keys) = ground (arith, unmarked-le seen keys)

module _ (skip stop : String → Bool) (next : String → List String) (keys : List String)
    (pushes : (u : String) → length (next u) ≡ count u keys) where
  pub explore_ends :
      (fuel : ℕ) (pending seen : List String)
      → length pending + unmarked seen keys ≤ fuel
      → explore skip stop next fuel pending seen ≢ out_of_fuel
  unfolding explore
  explore_ends zero [] seen h = λ e. ground arith
  explore_ends zero (id ∷ pending) seen h = absurd (omega arith)
  explore_ends (suc fuel) [] seen h = λ e. ground arith
  explore_ends (suc fuel) (id ∷ pending) seen h = ground (
    arith,
    explore_ends fuel pending seen,
    explore_ends fuel (reverse (next id) ++ pending) (id ∷ seen),
    length-append (reverse (next id)) pending,
    length-reverse (next id),
    pushes id,
    unmarked-cons id seen keys,
  )

pub count-pos : (u : String) (keys : List String) → has u keys ≡ true → 1 ≤ count u keys
unfolding count has
count-pos u [] h = ground arith
count-pos u (k ∷ keys) h = ground (arith, count-pos u keys, eq_iff k u, eq_iff u k)

pub Outcome-exhausted :
    (o : Outcome) → o ≢ out_of_fuel → o ≢ found → (t : List String) × (o ≡ exhausted t)
Outcome-exhausted (exhausted t) f g = (t, refl)
Outcome-exhausted found f g = absurd (g refl)
Outcome-exhausted out_of_fuel f g = absurd (f refl)

pub count-le : (u : String) (keys : List String) → count u keys ≤ length keys
unfolding count
count-le u [] = omega arith
count-le u (k ∷ keys) = ground (arith, count-le u keys)
