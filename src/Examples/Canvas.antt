-- ===== src/Examples/Canvas.antt =====
-- The variables and the checks of a small canvas with two branches that meet.
use relay_workflow_automatio.Prelude.{
  true, false, String, [], ◌∷◌, In, ◌≡◌, ◌↔◌, refl, has, Distinct, arith, filter,
}
use relay_workflow_automatio.Graph.{is_trigger, successors}
use relay_workflow_automatio.Variables.{previous_nodes_for, guaranteed_previous_nodes_for}
use relay_workflow_automatio.Variables.Previous.{IsPrevious, previous_nodes_for_iff}
use relay_workflow_automatio.Variables.Guaranteed.{IsGuaranteed, guaranteed_previous_nodes_for_iff}
use relay_workflow_automatio.Config.Workflow.{
  ids_of, structure_errors, disconnected_errors, reachable_ids,
}
use relay_workflow_automatio.Graph.Flood.{flood, scan, offer}
use relay_workflow_automatio.Config.Workflow.Connected.{IsConnected, structure_errors_iff}
use relay_workflow_automatio.Examples.Samples.{t, a, b, nodes, edges, edge}

previous_nodes_for_iff_example :
    In b (previous_nodes_for nodes edges "d" false) ↔ IsPrevious nodes edges "d" false b
previous_nodes_for_iff_example = previous_nodes_for_iff nodes edges "d" false b

one_trigger : filter is_trigger nodes ≡ t ∷ []
unfolding is_trigger
one_trigger = refl

guaranteed_previous_nodes_for_iff_example :
    In a (guaranteed_previous_nodes_for nodes edges "d") ↔ IsGuaranteed nodes edges "t" "d" a
guaranteed_previous_nodes_for_iff_example =
    guaranteed_previous_nodes_for_iff nodes edges "d" t a one_trigger

Distinct-ids : Distinct (ids_of nodes)
unfolding has
Distinct-ids = (refl, (refl, (refl, (refl, (refl, tt)))))

ends_known : (u v : String) → has v (successors edges u) ≡ true → has v (ids_of nodes) ≡ true
unfolding has successors
ends_known u v = ground arith

structure_errors_iff_example :
    (structure_errors nodes edges (filter is_trigger nodes) ≡ []) ↔ IsConnected nodes edges t
structure_errors_iff_example =
    structure_errors_iff nodes edges t one_trigger Distinct-ids ends_known

-- An edge to a missing node makes up for a node that hangs on nothing.
lost_node : structure_errors (t ∷ a ∷ []) (edge "t" "ghost" ∷ []) (t ∷ []) ≡ []
unfolding structure_errors disconnected_errors reachable_ids flood scan offer has
lost_node = refl
