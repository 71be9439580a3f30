-- ===== src/Saving/Save/Mirror.antt =====
-- What the changes of the held nodes do to the entry of an id.
use relay_workflow_automatio.Prelude.{
  true, false, String, Option, none, some, List, [], ◌∷◌, ◌++◌, map, has, Distinct, In, ◌==◌, ◌≡◌,
  inl, inr, refl, ap, arith, eq_iff, if◌then◌else◌,
}
use relay_workflow_automatio.Js.{obj}
use relay_workflow_automatio.Saving.Snapshot.{SavedNode, round, config_of}
use relay_workflow_automatio.Saving.Snapshot.Shuffled.{ids}
use relay_workflow_automatio.Saving.Diff.{ServerNode, server_node_of}
use relay_workflow_automatio.Saving.Save.{change_node, without_node}
use relay_workflow_automatio.Saving.Save.Moves.{change_nodes, without_nodes}

abbrev pub or_node : Option ServerNode → Option ServerNode → Option ServerNode
or_node none later = later
or_node (some s) later = some s

pub entry-append :
    (xs ys : List ServerNode) (id : String)
    → server_node_of (xs ++ ys) id ≡ or_node (server_node_of xs id) (server_node_of ys id)
unfolding server_node_of
entry-append [] ys id = refl
entry-append (x ∷ xs) ys id = ground (arith, entry-append xs ys id)

-- an entry with what is sent of a node
abbrev pub sent_to : SavedNode → ServerNode → ServerNode
sent_to n s = record s {
  label = n.label;
  position_x = round n.x;
  position_y = round n.y;
  configuration = obj (config_of n.config);
}

abbrev sent_entry : SavedNode → Option ServerNode → Option ServerNode
sent_entry n none = none
sent_entry n (some s) = some (sent_to n s)

entry-change :
    (n : SavedNode) (xs : List ServerNode) (id : String)
    → server_node_of (change_node n xs) id
      ≡ (if n.id == id then sent_entry n (server_node_of xs id) else server_node_of xs id)
unfolding server_node_of change_node
entry-change n [] id = ground arith
entry-change n (x ∷ xs) id =
    ground (arith, entry-change n xs id, eq_iff x.rf_id n.id, eq_iff x.rf_id id, eq_iff n.id id)

entry-without :
    (rf : String) (xs : List ServerNode) (id : String)
    → server_node_of (without_node rf xs) id ≡ (if rf == id then none else server_node_of xs id)
unfolding server_node_of without_node
entry-without rf [] id = ground arith
entry-without rf (x ∷ xs) id =
    ground (arith, entry-without rf xs id, eq_iff x.rf_id rf, eq_iff x.rf_id id, eq_iff rf id)

abbrev pub rf_ids : List ServerNode → List String
rf_ids ss = map (λ (s : ServerNode). s.rf_id) ss

pub entry-without_nodes :
    (ss xs : List ServerNode) (id : String)
    → server_node_of (without_nodes ss xs) id
      ≡ (if has id (rf_ids ss) then none else server_node_of xs id)
unfolding has
entry-without_nodes [] xs id = refl
entry-without_nodes (s ∷ ss) xs id = ground (
  arith,
  entry-without_nodes ss (without_node s.rf_id xs) id,
  entry-without s.rf_id xs id,
  eq_iff id s.rf_id,
  eq_iff s.rf_id id,
)

pub In-ids : (n : SavedNode) (ns : List SavedNode) → In n ns → has n.id (ids ns) ≡ true
unfolding has
In-ids n [] m = absurd m
In-ids n (u ∷ ns) (inl same) = ground (arith, ap (λ (k : SavedNode). k.id) same, eq_iff n.id u.id)
In-ids n (u ∷ ns) (inr later) = ground (arith, In-ids n ns later)

-- An id of none of the changed nodes keeps its entry.
pub entry-unchanged :
    (ns : List SavedNode) (xs : List ServerNode) (id : String)
    → has id (ids ns) ≡ false
    → server_node_of (change_nodes ns xs) id ≡ server_node_of xs id
unfolding has
entry-unchanged [] xs id h = refl
entry-unchanged (n ∷ ns) xs id h = ground (
  arith,
  entry-unchanged ns (change_node n xs) id,
  entry-change n xs id,
  eq_iff id n.id,
  eq_iff n.id id,
)

-- The id of a changed node has what is sent of it.
pub entry-changed :
    (ns : List SavedNode) (xs : List ServerNode) (n : SavedNode) (s : ServerNode)
    → Distinct (ids ns)
    → In n ns
    → server_node_of xs n.id ≡ some s
    → server_node_of (change_nodes ns xs) n.id ≡ some (sent_to n s)
unfolding has
entry-changed [] xs n s d m h = absurd m
entry-changed (u ∷ ns) xs n s (fresh, d) (inl same) h = ground (
  arith,
  entry-unchanged ns (change_node u xs) n.id,
  entry-change u xs n.id,
  eq_iff u.id n.id,
  ap (λ (k : SavedNode). k.id) same,
)
entry-changed (u ∷ ns) xs n s (fresh, d) (inr later) h =
    entry-changed ns (change_node u xs) n s d later
      (ground (arith, entry-change u xs n.id, eq_iff u.id n.id, In-ids n ns later))

-- No id gets an entry by a change.
pub entry-there :
    (ns : List SavedNode) (xs : List ServerNode) (id : String)
    → server_node_of xs id ≡ none
    → server_node_of (change_nodes ns xs) id ≡ none
entry-there [] xs id h = h
entry-there (n ∷ ns) xs id h =
    entry-there ns (change_node n xs) id (ground (arith, entry-change n xs id))
