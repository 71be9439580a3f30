-- ===== src/Schedule/Reconcile/Confirmed.antt =====
-- What an activation that returns has confirmed, by the answers that it got.
use relay_workflow_automatio.Prelude.{
  true, false, not, ◌||◌, String, Option, [], ◌∷◌, ◌++◌, if◌then◌else◌, ◌≡◌, ◌⊎◌, inl, inr, refl,
  subst, arith, eq_iff, append-nil,
}
use relay_workflow_automatio.Js.{Value, null, str, arr, Items, prop, truthy, is_text}
use relay_workflow_automatio.Js.Laws.{is_text-eq}
use relay_workflow_automatio.Js.Host.{Host}
use relay_workflow_automatio.Js.Convert.{to_string}
use relay_workflow_automatio.Js.Effect.{ok, World, pure, Respond}
use relay_workflow_automatio.Js.Effect.Log.{
  Log, Gave, Run, Logs, Logs-pure, Logs-if, Logs-weaken, Logs-then, Logs-then_lift, Logs-then_call,
  Logs-returns,
}
use relay_workflow_automatio.Schedule.Draft.{PayloadDraft}
use relay_workflow_automatio.Schedule.Status.{is_planned, same_version}
use relay_workflow_automatio.Schedule.Reconcile.{
  Call, get_workflow, get_workflow_versions, get_workflow_nodes, get_schedule, Reconciled,
  schedule_rows, find_row, same_text, published_version, version_number, confirm, synchronize,
  activate, reconcile_published_schedule,
}
use relay_workflow_automatio.Schedule.Reconcile.Answers.{
  InItems, IsRow, find_row-found, find_row-missed, IsTriggerNode, is_trigger,
  is_trigger-IsTriggerNode, not_trigger-IsTriggerNode, is_trigger-truthy, IsVersion, AreNodes,
  AreNodes-before, IsOwn, IsOwn-append, IsOwn-before,
}
use relay_workflow_automatio.Schedule.Reconcile.Owned.{
  Logs-then_if, ensure-IsOwn, send_changes-Logs,
}

module _ (host : Host) (id : String) where
  -- The published version of the workflow has a scheduled trigger, the workflow is active, and its
  -- schedule was read back with the last call: it is that of this version, and disabled or planned
  -- for a date.
  pub record IsConfirmed (es : Log Call) (r : Reconciled) : Type 0 where
    pub nodes : Value
    pub node : Value
    pub existing : Value
    pub earlier : Log Call
    pub given : AreNodes host id es r.workflow nodes
    pub row : IsRow node (schedule_rows nodes "nodes")
    pub trigger : IsTriggerNode node
    pub active : prop r.workflow "status" ≡ str "active"
    pub own : IsOwn host id earlier existing
    pub read : es ≡ (get_schedule (prop existing "id"), ok r.schedule) ∷ earlier
    pub version :
        to_string host (prop r.schedule "workflow_version_id")
        ≡ to_string host (prop r.workflow "published_version_id")
    pub planned : (truthy (prop r.schedule "enabled") ≡ false) ⊎ (is_planned host r.schedule ≡ true)

  -- No node of the published version of the workflow is a scheduled trigger.
  pub record IsUnscheduled (es : Log Call) (r : Reconciled) : Type 0 where
    pub nodes : Value
    pub rows : Items
    pub given : AreNodes host id es r.workflow nodes
    pub all : schedule_rows nodes "nodes" ≡ arr rows
    pub none_is : (node : Value) → InItems node rows → ¬ IsTriggerNode node
    pub unscheduled : r.scheduled ≡ false
    pub missing : r.schedule ≡ null

  abbrev pub IsKnown : Log Call → Reconciled → Type 0
  IsKnown es r = ((r.scheduled ≡ true) × IsConfirmed es r) ⊎ IsUnscheduled es r

  module _ {S : Type 0} (respond : Respond Call S) where
    module _ (workflow nodes node : Value) (row : IsRow node (schedule_rows nodes "nodes"))
        (trigger : IsTriggerNode node) where
      synchronize-IsConfirmed :
          (config : Value) (draft : Option PayloadDraft) (parsed existing : Value)
          (before : Log Call)
          → AreNodes host id before workflow nodes
          → IsOwn host id before existing
          → prop workflow "status" ≡ str "active"
          → Logs respond
              (λ ds r. (r.scheduled ≡ true) × IsConfirmed (ds ++ before) r)
              (synchronize host respond workflow config draft parsed existing)
      unfolding synchronize confirm same_version
      synchronize-IsConfirmed config draft parsed existing before given own active =
          let P : Log Call → Reconciled → Type 0 =
            λ es r. (r.scheduled ≡ true) × IsConfirmed es r in
          Logs-then_if host id respond P _ _ _ before (λ _.
            Logs-then_lift respond P before (λ desired _.
              Logs-then respond P before (send_changes-Logs host id respond existing _) (λ es _ _.
                Logs-then_call respond P (get_schedule (prop existing "id")) (es ++ before)
                  (λ schedule. Logs-then_if host id respond P _ _ _ _ (λ version.
                    Logs-then_if host id respond P _ _ _ _ (λ planned. Logs-pure respond _ (
                      refl,
                      record {
                        nodes = nodes;
                        node = node;
                        existing = existing;
                        earlier = es ++ before;
                        given = AreNodes-before host id (_ ∷ es) before workflow nodes given;
                        row = row;
                        trigger = trigger;
                        active = active;
                        own = IsOwn-before host id es before existing own;
                        read = refl;
                        version = ground (
                          arith,
                          eq_iff (to_string host (prop schedule "workflow_version_id"))
                              (to_string host (prop workflow "published_version_id")),
                        );
                        planned = ground arith;
                      },
                    )))))))

      activate-IsConfirmed :
          (draft : Option PayloadDraft) (intended : Value) (before : Log Call)
          → AreNodes host id before workflow nodes
          → Logs respond
              (λ ds r. (r.scheduled ≡ true) × IsConfirmed (ds ++ before) r)
              (activate host respond id workflow node draft intended)
      unfolding activate
      activate-IsConfirmed draft intended before given =
          let P : Log Call → Reconciled → Type 0 =
            λ es r. (r.scheduled ≡ true) × IsConfirmed es r in
          Logs-then_if host id respond P _ _ _ before (λ active.
            Logs-then_lift respond P before (λ parsed _.
              Logs-then respond P before (ensure-IsOwn host id respond _ parsed) (λ es existing own.
                synchronize-IsConfirmed _ draft parsed existing (es ++ before)
                  (AreNodes-before host id es before workflow nodes given)
                  (IsOwn-append host id es before existing own)
                  (is_text-eq (prop workflow "status") "active" (ground arith)))))

    version-IsVersion :
        (workflow versions version : Value) (es : Log Call)
        → Gave es (get_workflow_versions id) versions
        → published_version host respond workflow versions ≡ ok version
        → (not (truthy version) || not (is_text (prop version "status") "published")) ≡ false
        → IsVersion host id es workflow (version_number host respond version)
    unfolding published_version same_text version_number
    version-IsVersion workflow versions version es given found checked =
        let (row, same) = find_row-found _ _ version found (ground arith) in
        record {
          versions = versions;
          version = version;
          listed = given;
          row = row;
          same =
              (eq_iff (to_string host (prop version "id"))
                  (to_string host (prop workflow "published_version_id"))).0
                same;
          published = is_text-eq (prop version "status") "published" (ground arith);
          numbered = refl;
        }

    pub reconcile-IsKnown :
        (draft : Option PayloadDraft) (intended : Value)
        → Logs respond IsKnown (reconcile_published_schedule host respond id draft intended)
    unfolding reconcile_published_schedule
    reconcile-IsKnown draft intended =
        Logs-weaken respond (λ es r h. subst (λ l. IsKnown l r) (append-nil es) h)
          (Logs-then_call respond IsKnown (get_workflow id) [] (λ workflow.
            Logs-then_if host id respond IsKnown _ _ _ _ (λ p.
              Logs-then_call respond IsKnown (get_workflow_versions id) _ (λ versions.
                Logs-then_lift respond IsKnown _ (λ version found.
                  Logs-then_if host id respond IsKnown _ _ _ _ (λ checked.
                    Logs-then_call respond IsKnown
                      (get_workflow_nodes id (version_number host respond version)) _
                      (λ nodes. Logs-then_lift respond IsKnown _ (λ node is_found.
                        last workflow versions version nodes node p found checked is_found))))))))
      where
        last :
            (workflow versions version nodes node : Value)
            → not (truthy (prop workflow "published_version_id")) ≡ false
            → published_version host respond workflow versions ≡ ok version
            → (not (truthy version) || not (is_text (prop version "status") "published")) ≡ false
            → find_row (is_trigger host) (schedule_rows nodes "nodes") ≡ ok node
            → let before : Log Call =
                (get_workflow_nodes id (version_number host respond version), ok nodes)
                ∷ (get_workflow_versions id, ok versions)
                ∷ (get_workflow id, ok workflow)
                ∷ [] in
              Logs respond
                (λ ds r. IsKnown (ds ++ before) r)
                (if truthy node
                  then activate host respond id workflow node draft intended
                  else pure (record { workflow = workflow; schedule = null; scheduled = false }))
        last workflow versions version nodes node p found checked is_found =
            let given : AreNodes host id _ workflow nodes = record {
              number = version_number host respond version;
              asked = inr (inr (inl refl));
              published = ground arith;
              version =
                  version-IsVersion workflow versions version _ (inr (inl refl)) found checked;
              given = inl refl;
            } in
            Logs-if respond (truthy node)
              (λ filled.
                let (row, is_one) = find_row-found (is_trigger host) _ node is_found filled in
                Logs-weaken respond (λ es r h. inl h)
                  (activate-IsConfirmed workflow nodes node row
                    (is_trigger-IsTriggerNode host node is_one) draft intended _ given))
              (λ falsy.
                let (rows, all, others) =
                  find_row-missed (is_trigger host) _ node (is_trigger-truthy host) is_found
                    falsy in
                Logs-pure respond _ (
                  inr (record {
                    nodes = nodes;
                    rows = rows;
                    given = given;
                    all = all;
                    none_is = λ u m. not_trigger-IsTriggerNode host u (others u m);
                    unscheduled = refl;
                    missing = refl;
                  })))

-- An activation that returns read the workflow and, by the server's list of versions, the nodes of
-- its published version. Either no such node is a scheduled trigger, and nothing is scheduled; or
-- one is, the workflow is active, and the last call read back the workflow's schedule, which is of
-- this version and is disabled or has a next run planned.
pub reconcile_confirms :
    (host : Host) {S : Type 0} (respond : Respond Call S) (id : String)
    (draft : Option PayloadDraft) (intended : Value) (w w' : World Call S) (r : Reconciled)
    → reconcile_published_schedule host respond id draft intended w ≡ (ok r, w')
    → (es : Log Call) × Run respond w w' es
      × (((r.scheduled ≡ true) × IsConfirmed host id es r) ⊎ IsUnscheduled host id es r)
reconcile_confirms host respond id draft intended w w' r e =
    Logs-returns respond (reconcile-IsKnown host id respond draft intended) w w' r e
