-- ===== src/Saving/Save/Complete.antt =====
-- The whole of a save that reports success.
use relay_workflow_automatio.Prelude.{
  true, String, List, [], ◌++◌, ◌≡◌, refl, sym, ap, ◌∙◌, subst, arith, Bool-cases, inl, inr, eq_iff,
  eqb_iff,
}
use relay_workflow_automatio.Js.Host.{Host}
use relay_workflow_automatio.Js.Effect.{Result, ok, throws, World, pure, attempt, ◌>>=◌, Respond}
use relay_workflow_automatio.Js.Effect.Rules.{>>=-eq-ok, attempt-eq-ok}
use relay_workflow_automatio.Graph.{Edge}
use relay_workflow_automatio.Saving.Snapshot.{
  SavedNode, workflow_save_snapshot, workflow_changed_during_save,
}
use relay_workflow_automatio.Saving.Diff.{
  ServerNode, nodes_snap, new_nodes, updated_nodes, deleted_nodes,
}
use relay_workflow_automatio.Saving.Save.{
  Call, Held, Save, change, read, send_changes, Flags, is_refused, Canvas, Outcome, handle_save,
  outcome_of, refusal, start_save, forget_ids,
}
use relay_workflow_automatio.Saving.Save.Moves.{
  Moves, Moves-bind, Moves-read, SameNodes, SameNodes-trans, DeletesAll, create_nodes-Moves,
  update_nodes-Moves, delete_nodes-Moves, same_each, delete_edge-Moves, create_edge-Moves,
  update_edge-Moves, created_nodes, created_ids, who, change_nodes, without_nodes,
}
use relay_workflow_automatio.Saving.Save.Sent.{AreSent, send_changes-AreSent}
use relay_workflow_automatio.Saving.Save.Saved.{IsEditable, AreNew, IsSaved, after-IsSaved}

module _ (host : Host) {S : Type 0} (respond : Respond Call S) where
  -- what the changes do to the nodes that are held
  Sends : List SavedNode → Held S → Held S → Held S → Type 0
  Sends nodes start h h' =
      (made : List (SavedNode × String)) × (who made ≡ new_nodes nodes)
      × (h'.nodes
          ≡ without_nodes (deleted_nodes start.nodes nodes)
              (change_nodes (updated_nodes host start.nodes nodes) (h.nodes ++ created_nodes made)))
      × (h'.temp_nodes ≡ created_ids made h.temp_nodes)

  send_changes-Moves :
      (nodes : List SavedNode) (edges : List Edge) (start : Held S)
      → Moves host respond (Sends nodes start) (send_changes host respond nodes edges start)
  unfolding send_changes Sends
  send_changes-Moves nodes edges start =
      Moves-bind host respond {R' = Updated} _
        (λ h h' h'' (made, all, p, q) (r, t).
          (made, all, r ∙ ap (λ ns. without_nodes gone (change_nodes changed ns)) p, t ∙ q))
        (create_nodes-Moves host respond (new_nodes nodes))
        (λ _.
          Moves-bind host respond {R' = DeletesAll host respond gone} Updated
            (λ h h' h'' (p, q) (r, t). (r ∙ ap (without_nodes gone) p, t ∙ q))
            (update_nodes-Moves host respond changed)
            (λ _.
              Moves-bind host respond {R' = DeletesAll host respond gone} _
                (λ h h' h'' (p, q) (r, t). (r ∙ ap (without_nodes gone) p, t ∙ q))
                (same_each host respond (delete_edge-Moves host respond) _)
                (λ _.
                  Moves-bind host respond {R' = SameNodes host respond} _
                    (λ h h' h'' (p, q) (r, t). (r ∙ p, t ∙ q))
                    (delete_nodes-Moves host respond gone)
                    (λ _.
                      Moves-bind host respond {R' = SameNodes host respond} _
                        (SameNodes-trans host respond) (Moves-read host respond)
                        (λ h.
                          Moves-bind host respond {R' = SameNodes host respond} _
                            (SameNodes-trans host respond)
                            (same_each host respond (create_edge-Moves host respond _) _)
                            (λ _.
                              same_each host respond (update_edge-Moves host respond nodes) _))))))
    where
      changed : List SavedNode
      changed = updated_nodes host start.nodes nodes

      gone : List ServerNode
      gone = deleted_nodes start.nodes nodes

      Updated : Held S → Held S → Type 0
      Updated h h' =
          (h'.nodes ≡ without_nodes gone (change_nodes changed h.nodes))
          × (h'.temp_nodes ≡ h.temp_nodes)

  -- what is held when the changes have been sent
  sent-IsSaved :
      (nodes : List SavedNode) (edges : List Edge) (start : Held S) (w : World Call (Held S))
      (u : Unit {0}) (w' : World Call (Held S))
      → w.behind ≡ start
      → start.temp_nodes ≡ []
      → send_changes host respond nodes edges start w ≡ (ok u, w')
      → IsEditable start.nodes nodes
      → AreNew start.nodes nodes w'.behind.temp_nodes
      → IsSaved host nodes w'.behind.nodes w'.behind.temp_nodes
  unfolding Sends
  sent-IsSaved nodes edges start w u w' same empty e editable new =
      let (made, all, held, given) = (send_changes-Moves nodes edges start).at w u w' e in
      let ids : w'.behind.temp_nodes ≡ created_ids made [] =
        given
        ∙ ap (λ (h : Held S). created_ids made h.temp_nodes) same
        ∙ ap (created_ids made) empty in
      let mirror : w'.behind.nodes
          ≡ without_nodes (deleted_nodes start.nodes nodes) (
              change_nodes (updated_nodes host start.nodes nodes)
                (start.nodes ++ created_nodes made)) =
        held
        ∙ ap
            (λ (h : Held S).
              without_nodes (deleted_nodes start.nodes nodes) (
                change_nodes (updated_nodes host start.nodes nodes)
                  (h.nodes ++ created_nodes made)))
            same in
      rw (mirror, ids)
        (after-IsSaved host start.nodes nodes made all editable
          (subst (AreNew start.nodes nodes) ids new))

  start_save-held :
      (w : World Call (Held S)) (start : Held S) (v : World Call (Held S))
      → start_save host respond w ≡ (ok start, v)
      → (start ≡ forget_ids host respond w.behind) × (v.behind ≡ start) × (v.made ≡ w.made)
  unfolding ◌>>=◌ change read
  start_save-held w start v e =
      let first : forget_ids host respond w.behind ≡ start = ground arith in
      let second : forget_ids host respond w.behind ≡ v.behind =
        ap (λ (o : Result (Held S) × World Call (Held S)). o.1.behind) e in
      (
        sym first,
        sym second ∙ first,
        ap (λ (o : Result (Held S) × World Call (Held S)). o.1.made) (sym e),
      )

  -- an outcome that reports success
  outcome-saved :
      (snapshot : String) (canvas later : Canvas) (r : Result (Unit {0}))
      → (outcome_of host snapshot canvas later r).saved ≡ true
      → (r ≡ ok tt)
        × (canvas.revision ≡ later.revision)
        × (snapshot ≡ workflow_save_snapshot host later.nodes later.edges)
  unfolding workflow_changed_during_save
  outcome-saved snapshot canvas later (throws e) h = absurd (ground arith)
  outcome-saved snapshot canvas later (ok u) h = (
    refl,
    ground (arith, eqb_iff canvas.revision later.revision),
    ground (arith, eq_iff snapshot (workflow_save_snapshot host later.nodes later.edges)),
  )

  -- A save that reports success has made a call for each difference between the canvas and what
  -- was held to be on the server: for a node that is new or differs, with its label, rounded
  -- position and configuration; for a connection that is new, with its condition, or that differs,
  -- with its condition and the logical ids of its ends; and for each of them that is gone, unless
  -- it is a connection under a temporary id. Afterwards every node of the canvas is held, under
  -- the id that the server gave it if it is new, with its logical id and type, and with its label,
  -- position and configuration or what compares equal to them; no other node is held; and the
  -- canvas has not been changed since. The canvas was made from what was held before, and the ids
  -- that the server gave were new.
  pub handle_save-IsSaved :
      (flags : Flags) (canvas later : Canvas) (w w' : World Call (Held S)) (o : Outcome)
      → handle_save host respond flags canvas later w ≡ (ok o, w')
      → o.saved ≡ true
      → IsEditable w.behind.nodes (nodes_snap host canvas.nodes)
      → AreNew w.behind.nodes (nodes_snap host canvas.nodes) w'.behind.temp_nodes
      → (cs : List Call) × (w'.made ≡ cs ++ w.made)
        × AreSent host w.behind.nodes w.behind.edges (nodes_snap host canvas.nodes) canvas.edges cs
        × IsSaved host (nodes_snap host canvas.nodes) w'.behind.nodes w'.behind.temp_nodes
        × (canvas.revision ≡ later.revision)
        × (workflow_save_snapshot host (nodes_snap host canvas.nodes) canvas.edges
            ≡ workflow_save_snapshot host later.nodes later.edges)
  unfolding handle_save pure
  handle_save-IsSaved flags canvas later w w' o e done editable new =
      elim (Bool-cases (is_refused flags)) [
        | inl refused ↦
            let same : (ok refusal, w) ≡ (ok o, w') = rw refused at e in
            absurd (ground (arith, same))
        | inr free ↦ by_parts (rw free at e)
      ]
    where
      nodes : List SavedNode
      nodes = nodes_snap host canvas.nodes

      snapshot : String
      snapshot = workflow_save_snapshot host nodes canvas.edges

      finish : Held S → Save host respond Outcome
      finish start = attempt (send_changes host respond nodes canvas.edges start) >>= λ result.
          pure (outcome_of host snapshot canvas later result)

      Claim : Type 0
      Claim =
          (cs : List Call) × (w'.made ≡ cs ++ w.made)
          × AreSent host w.behind.nodes w.behind.edges nodes canvas.edges cs
          × IsSaved host nodes w'.behind.nodes w'.behind.temp_nodes
          × (canvas.revision ≡ later.revision)
          × (snapshot ≡ workflow_save_snapshot host later.nodes later.edges)

      by_parts : (start_save host respond >>= finish) w ≡ (ok o, w') → Claim
      by_parts p =
          let (start, v, first, rest) = >>=-eq-ok (start_save host respond) finish w p in
          let (is_start, at_start, none_made) = start_save-held w start v first in
          let (result, u, sending, ending) =
            >>=-eq-ok (attempt (send_changes host respond nodes canvas.edges start))
              (λ r. pure (outcome_of host snapshot canvas later r)) v rest in
          let same_world : u ≡ w' = ap (λ (q : Result Outcome × World Call (Held S)). q.1) ending in
          let same_outcome : outcome_of host snapshot canvas later result ≡ o = ground arith in
          let (is_ok, unedited, unchanged) =
            outcome-saved snapshot canvas later result
              (ap (λ (q : Outcome). q.saved) same_outcome ∙ done) in
          let sent =
            attempt-eq-ok (send_changes host respond nodes canvas.edges start) v result sending in
          let whole : send_changes host respond nodes canvas.edges start v ≡ (ok tt, w') =
            rw (← same_world, ← is_ok) sent in
          let (cs, made, covers) =
            (send_changes-AreSent host respond nodes canvas.edges start).at v tt w' whole in
          (
            cs,
            made ∙ ap (λ l. cs ++ l) none_made,
            subst (λ (h : Held S). AreSent host h.nodes h.edges nodes canvas.edges cs) is_start
                (covers cs (λ c m. m)),
            sent-IsSaved nodes canvas.edges start v tt w' at_start
                (ap (λ (h : Held S). h.temp_nodes) is_start) whole (rw is_start editable)
                (rw is_start new),
            unedited,
            unchanged,
          )
