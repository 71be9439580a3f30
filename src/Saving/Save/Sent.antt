-- ===== src/Saving/Save/Sent.antt =====
-- A save that succeeds: the calls for what differs between the canvas and what was held before.
use relay_workflow_automatio.Prelude.{
  true, false, String, some, List, [], ◌++◌, In, In-filter, In-append, ◌==◌, ◌≡◌, inl, refl, sym,
  subst, arith,
}
use relay_workflow_automatio.Js.{null, str, Fields, get, or_nullish}
use relay_workflow_automatio.Js.Host.{Host}
use relay_workflow_automatio.Js.Effect.{Respond}
use relay_workflow_automatio.Graph.{Edge}
use relay_workflow_automatio.Saving.Snapshot.{SavedNode}
use relay_workflow_automatio.Saving.Diff.{
  ServerNode, ServerEdge, is_temp_node, is_temp_edge, node_id_of, server_node_of, server_edge_of,
  new_nodes, updated_nodes, deleted_nodes, new_edges, updated_edges, deleted_edges,
  edges_of_removed, edges_to_delete,
}
use relay_workflow_automatio.Saving.Save.{
  Call, create_workflow_node, create_workflow_edge, update_workflow_node, update_workflow_edge,
  delete_workflow_node, delete_workflow_edge, Held, node_fields, create_node, keep_node,
  update_node, delete_edge, delete_node, create_edge, keep_edge, update_edge, edge_fields,
  new_server_edge, changed_server_edge, send_changes,
}
use relay_workflow_automatio.Saving.Save.Sends.{
  Sends, Nothing, Sends-weaken, Sends-pure, Sends-raise, Sends-if, Sends-ask, Sends-change,
  Sends-read, Sends-bind, Sends-each,
}
use relay_workflow_automatio.Saving.Save.Differences.{
  Shows, IsSame, IsSameEdge, different-node, different-edge, any_none, set_edges-Listed,
}

-- Among the calls is one for each difference between the canvas and what was held before.
pub record AreSent (host : Host) (held : List ServerNode) (held_edges : List ServerEdge)
    (nodes : List SavedNode) (edges : List Edge) (cs : List Call) : Type 0 where
  pub created :
      (n : SavedNode)
      → In n nodes
      → is_temp_node n ≡ true
      → (fs : Fields) × In (create_workflow_node fs) cs
        × Shows n fs
        × (get fs "node_id" ≡ str n.node_id)
        × (get fs "node_type" ≡ str n.type_id)
  pub updated :
      (n : SavedNode) (s : ServerNode)
      → In n nodes
      → is_temp_node n ≡ false
      → server_node_of held n.id ≡ some s
      → ¬ IsSame host n s
      → (fs : Fields) × In (update_workflow_node n.node_id fs) cs × Shows n fs
  pub deleted :
      (s : ServerNode)
      → In s held
      → ((n : SavedNode) → In n nodes → ¬ (n.id ≡ s.rf_id))
      → In (delete_workflow_node s.node_id) cs
  pub connected :
      (e : Edge)
      → In e edges
      → is_temp_edge e.id ≡ true
      → (fs : Fields) × In (create_workflow_edge fs) cs
        × (get fs "condition" ≡ or_nullish e.condition null)
  pub reconnected :
      (e : Edge) (s : ServerEdge)
      → In e edges
      → is_temp_edge e.id ≡ false
      → server_edge_of held_edges e.id ≡ some s
      → ¬ IsSameEdge nodes e s
      → (fs : Fields) × In (update_workflow_edge e.id fs) cs
        × (get fs "source_node_id" ≡ str (node_id_of nodes e.source))
        × (get fs "target_node_id" ≡ str (node_id_of nodes e.target))
        × (get fs "condition" ≡ or_nullish e.condition null)
  pub disconnected :
      (s : ServerEdge)
      → In s held_edges
      → is_temp_edge s.rf_id ≡ false
      → ((e : Edge) → In e edges → ¬ (e.id ≡ s.rf_id))
      → In (delete_workflow_edge s.rf_id) cs

module _ (host : Host) {S : Type 0} (respond : Respond Call S) where
  Created : SavedNode → List Call → Type 0
  Created n ds =
      (fs : Fields) × In (create_workflow_node fs) ds
      × Shows n fs
      × (get fs "node_id" ≡ str n.node_id)
      × (get fs "node_type" ≡ str n.type_id)

  keep_node-Sends :
      (n : SavedNode) (real : String)
      → Sends host respond (Nothing host respond) (keep_node host respond n real)
  unfolding keep_node
  keep_node-Sends n real =
      Sends-if host respond (real == "") (λ _. Sends-raise host respond _)
        (λ _. Sends-change host respond _)

  create_node-Sends : (n : SavedNode) → Sends host respond (Created n) (create_node host respond n)
  unfolding Created create_node node_fields get
  create_node-Sends n =
      Sends-weaken host respond
        (λ ds (made, _). (node_fields n, made, (refl, refl, refl, refl), refl, refl))
        (Sends-bind host respond (Sends-ask host respond _) (λ res. keep_node-Sends n _))

  Updated : SavedNode → List Call → Type 0
  Updated n ds = (fs : Fields) × In (update_workflow_node n.node_id fs) ds × Shows n fs

  update_node-Sends : (n : SavedNode) → Sends host respond (Updated n) (update_node host respond n)
  unfolding Updated update_node get
  update_node-Sends n =
      Sends-weaken host respond (λ ds (made, _). (_, made, (refl, refl, refl, refl)))
        (Sends-bind host respond (Sends-ask host respond _) (λ res. Sends-change host respond _))

  Disconnected : ServerEdge → List Call → Type 0
  Disconnected s ds = is_temp_edge s.rf_id ≡ false → In (delete_workflow_edge s.rf_id) ds

  delete_edge-Sends :
      (s : ServerEdge) → Sends host respond (Disconnected s) (delete_edge host respond s)
  unfolding Disconnected delete_edge
  delete_edge-Sends s =
      Sends-weaken host respond (λ ds (made, _). made)
        (Sends-bind host respond {P = Disconnected s}
          (Sends-if host respond (is_temp_edge s.rf_id)
            (λ temp.
              Sends-weaken host respond (λ ds _ real. absurd (ground arith))
                (Sends-pure host respond _))
            (λ _. Sends-weaken host respond (λ ds made _. made) (Sends-ask host respond _)))
          (λ res. Sends-change host respond _))

  delete_node-Sends :
      (s : ServerNode)
      → Sends host respond (In (delete_workflow_node s.node_id)) (delete_node host respond s)
  unfolding delete_node
  delete_node-Sends s =
      Sends-weaken host respond (λ ds (made, _). made)
        (Sends-bind host respond (Sends-ask host respond _) (λ res. Sends-change host respond _))

  Connected : Edge → List Call → Type 0
  Connected e ds =
      (fs : Fields) × In (create_workflow_edge fs) ds
      × (get fs "condition" ≡ or_nullish e.condition null)

  keep_edge-Sends :
      (ids : List (String × String)) (e : Edge) (real : String)
      → Sends host respond (Nothing host respond) (keep_edge host respond ids e real)
  unfolding keep_edge
  keep_edge-Sends ids e real =
      Sends-if host respond (real == "") (λ _. Sends-raise host respond _)
        (λ _. Sends-change host respond _)

  create_edge-Sends :
      (ids : List (String × String)) (e : Edge)
      → Sends host respond (Connected e) (create_edge host respond ids e)
  unfolding Connected create_edge edge_fields new_server_edge get
  create_edge-Sends ids e =
      Sends-weaken host respond (λ ds (_, made). made)
        (Sends-bind host respond {Q = Connected e} (Sends-read host respond) (λ h.
          Sends-weaken host respond (λ ds (made, _). (_, made, refl))
            (Sends-bind host respond (Sends-ask host respond _) (λ res. keep_edge-Sends ids e _))))

  Reconnected : List SavedNode → Edge → List Call → Type 0
  Reconnected nodes e ds =
      (fs : Fields) × In (update_workflow_edge e.id fs) ds
      × (get fs "source_node_id" ≡ str (node_id_of nodes e.source))
      × (get fs "target_node_id" ≡ str (node_id_of nodes e.target))
      × (get fs "condition" ≡ or_nullish e.condition null)

  update_edge-Sends :
      (nodes : List SavedNode) (e : Edge)
      → Sends host respond (Reconnected nodes e) (update_edge host respond nodes e)
  unfolding Reconnected update_edge edge_fields changed_server_edge get
  update_edge-Sends nodes e =
      Sends-weaken host respond (λ ds (made, _). (_, made, refl, refl, refl))
        (Sends-bind host respond (Sends-ask host respond _) (λ res. Sends-change host respond _))

  pub send_changes-AreSent :
      (nodes : List SavedNode) (edges : List Edge) (start : Held S)
      → Sends host respond
          (AreSent host start.nodes start.edges nodes edges)
          (send_changes host respond nodes edges start)
  unfolding send_changes Created Updated Disconnected Connected Reconnected new_nodes updated_nodes
      deleted_nodes new_edges updated_edges deleted_edges edges_to_delete
  send_changes-AreSent nodes edges start =
      Sends-weaken host respond
        (λ ds (creates, (updates, (cuts, (deletes, (_, (connects, reconnects)))))). record {
          created = λ n m is_temp. creates n ((In-filter is_temp_node n nodes).1 (m, is_temp));
          updated = λ n s m old there differs. updates n (
              (In-filter _ n _).1 (
                (In-filter _ n nodes).1 (m, rw old refl),
                rw there (different-node host n s differs),
              ));
          deleted = λ s m gone. deletes s (
              (In-filter _ s start.nodes).1
                (m, rw (any_none (λ (n : SavedNode). n.id) s.rf_id nodes gone) refl));
          connected = λ e m is_temp. connects e ((In-filter _ e edges).1 (m, is_temp));
          reconnected = λ e s m old there differs. reconnects e (
              (In-filter _ e _).1 (
                (In-filter _ e edges).1 (m, rw old refl),
                rw there (different-edge nodes e s differs),
              ));
          disconnected = λ s m old gone.
              let (u, k, q) =
                set_edges-Listed
                  (deleted_edges start.edges edges
                    ++ edges_of_removed start.edges (deleted_nodes start.nodes nodes))
                  [] s.rf_id
                  (inl (
                    s,
                    (In-append s _ _).1 (
                        inl (
                          (In-filter _ s start.edges).1
                            (m, rw (any_none (λ (e : Edge). e.id) s.rf_id edges gone) refl))),
                    refl,
                  )) in
              subst (λ i. In (delete_workflow_edge i) ds) q
                (cuts u k (subst (λ i. is_temp_edge i ≡ false) (sym q) old));
        })
        (Sends-bind host respond (Sends-each host respond create_node-Sends _) (λ _.
          Sends-bind host respond (Sends-each host respond update_node-Sends _) (λ _.
            Sends-bind host respond (Sends-each host respond delete_edge-Sends _) (λ _.
              Sends-bind host respond (Sends-each host respond delete_node-Sends _) (λ _.
                Sends-bind host respond (Sends-read host respond) (λ h.
                  Sends-bind host respond (Sends-each host respond (create_edge-Sends _) _)
                    (λ _. Sends-each host respond (update_edge-Sends nodes) _)))))))
