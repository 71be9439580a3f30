-- ===== src/Config/Workflow/Connected.antt =====
-- The structural check of the canvas: every node hangs on the trigger.
use relay_workflow_automatio.Prelude.{
  ◌+◌, ◌≤◌, true, false, String, List, [], ◌∷◌, has, In, length, length-map, filter, Distinct,
  Within, Distinct-length-le, Within-of_length, In-filter, ◌≡◌, ◌⊎◌, ◌↔◌, inl, inr, refl, ap, sym,
  subst, arith, eq_iff,
}
use relay_workflow_automatio.Graph.{Node, Edge, is_trigger, successors}
use relay_workflow_automatio.Graph.Flood.{Follows, one, more}
use relay_workflow_automatio.Graph.Flood.Correct.{flood_decides}
use relay_workflow_automatio.Graph.Flood.Fresh.{flood-Distinct}
use relay_workflow_automatio.Config.Workflow.{
  structure_errors, disconnected_errors, reachable_ids, ids_of,
}

-- The node is the trigger, or a walk from the trigger ends in it.
abbrev pub Hangs : List Edge → String → String → Type 0
Hangs edges trigger v = (v ≡ trigger) ⊎ Follows edges (trigger ∷ []) v

module _ (edges : List Edge) (trigger : String) where
  -- The set after the loop: distinct ids, exactly those that hang on the trigger.
  reachable_facts :
      Distinct (reachable_ids edges (trigger ∷ []))
      × ((v : String) → (has v (reachable_ids edges (trigger ∷ [])) ≡ true) ↔ Hangs edges trigger v)
  unfolding reachable_ids has
  reachable_facts =
      let starts : List String = trigger ∷ [] in
      let (t, e, holds) =
        flood_decides edges starts starts (λ v h. h) (1 + length edges) (omega arith) in
      let distinct =
        flood-Distinct edges (1 + length edges) (record { pending = starts; marked = starts }) t
          (refl, tt) e in
      rw e (
        distinct,
        λ v.
            let (to, from) = holds v in
            (
              λ h. elim (to h) [ inl f ↦ inr f | inr b ↦ inl (ground (arith, eq_iff v trigger)) ],
              λ h. elim h [
                | inl s ↦ from (inr (ground (arith, eq_iff v trigger)))
                | inr f ↦ from (inl f)
              ],
            ),
      )

  -- The ends of the edges are nodes of the canvas.
  Hangs-within :
      (ids : List String)
      → ((u v : String) → has v (successors edges u) ≡ true → has v ids ≡ true)
      → has trigger ids ≡ true
      → {v : String} → Hangs edges trigger v
      → has v ids ≡ true
  Hangs-within ids inside known (inl e) = rw e known
  Hangs-within ids inside known (inr (one u a n)) = inside u _ n
  Hangs-within ids inside known (inr (more {u} f n)) = inside u _ n

pub In-ids_of : (n : Node) (nodes : List Node) → In n nodes → has n.id (ids_of nodes) ≡ true
unfolding has
In-ids_of n [] m = absurd m
In-ids_of n (k ∷ nodes) (inl e) = ground (arith, eq_iff n.id k.id, ap (λ (x : Node). x.id) e)
In-ids_of n (k ∷ nodes) (inr m) = ground (arith, In-ids_of n nodes m)

empty_has : (y : String) → has y [] ≡ false
unfolding has
empty_has y = refl

only : (x : String) → Distinct (x ∷ [])
only x = (empty_has x, tt)

only_one : (v x : String) → has v (x ∷ []) ≡ true → v ≡ x
unfolding has
only_one v x h = ground (arith, eq_iff v x)

-- Every node of the canvas hangs on the trigger.
abbrev pub IsConnected : List Node → List Edge → Node → Type 0
IsConnected nodes edges trigger =
    (v : String) → has v (ids_of nodes) ≡ true → Hangs edges trigger.id v

-- On a canvas with distinct ids, whose edges end in its nodes, and with one trigger, the structural
-- check reports nothing exactly when every node is the trigger or is the end of a walk from it.
pub structure_errors_iff :
    (nodes : List Node) (edges : List Edge) (trigger : Node)
    → filter is_trigger nodes ≡ trigger ∷ []
    → Distinct (ids_of nodes)
    → ((u v : String) → has v (successors edges u) ≡ true → has v (ids_of nodes) ≡ true)
    → (structure_errors nodes edges (filter is_trigger nodes) ≡ [])
      ↔ IsConnected nodes edges trigger
unfolding structure_errors disconnected_errors
structure_errors_iff nodes edges trigger single distinct inside =
    let ids = ids_of nodes in
    let r = reachable_ids edges (trigger.id ∷ []) in
    let (fresh, holds) = reachable_facts edges trigger.id in
    let here : In trigger (filter is_trigger nodes) = subst (In trigger) (sym single) (inl refl) in
    let known : has trigger.id ids ≡ true =
      In-ids_of trigger nodes ((In-filter is_trigger trigger nodes).0 here).0 in
    let within : Within r ids =
      λ v h. Hangs-within edges trigger.id ids inside known ((holds v).0 h) in
    let size = length-map nodes (λ (n : Node). n.id) in
    let fits = Distinct-length-le r ids fresh within in
    let one_there : 1 ≤ length r =
      Distinct-length-le (trigger.id ∷ []) r (only trigger.id)
        (λ v h. rw (only_one v trigger.id h) ((holds trigger.id).1 (inl refl))) in
    rw (single, structure_errors)
      (
        λ h v k. (holds v).0 (Within-of_length r ids fresh within (ground arith) v k),
        λ all.
            let back = Distinct-length-le ids r distinct (λ v k. (holds v).1 (all v k)) in
            ground arith,
      )
