-- ===== src/Schedule/Publish/Outcome.antt =====
-- How publishing with a schedule and the retry end.
use relay_workflow_automatio.Prelude.{
  ◌≤◌, true, false, [], ◌∷◌, ◌++◌, String, Option, ◌≡◌, ◌⊎◌, refl, arith,
}
use relay_workflow_automatio.Js.{Value, undefined, str, prop}
use relay_workflow_automatio.Js.Host.{Host}
use relay_workflow_automatio.Js.Convert.{to_string}
use relay_workflow_automatio.Js.Effect.{
  Error, Result, ok, throws, World, pure, raise, attempt, ◌>>=◌, Respond, call,
}
use relay_workflow_automatio.Js.Effect.Rules.{
  total, Costs-attempt, Costs-weaken, Costs-call, Quiet, Quiet-bind,
}
use relay_workflow_automatio.Js.Effect.Log.{Log}
use relay_workflow_automatio.Schedule.Draft.{PayloadDraft}
use relay_workflow_automatio.Schedule.Reconcile.{
  Call, get_workflow, publish_workflow, on_published, Reconciled, reconcile_published_schedule,
}
use relay_workflow_automatio.Schedule.Reconcile.Calls.{throw_if_free}
use relay_workflow_automatio.Schedule.Reconcile.Confirmed.{IsConfirmed, IsUnscheduled}
use relay_workflow_automatio.Schedule.Publish.{
  Published, reconciled, scheduling_failed, after_publication, publish_with_schedule, is_mismatch,
  after_attempt, retry_schedule_activation,
}
use relay_workflow_automatio.Schedule.Publish.Laws.{
  notifications, notification-Prices, confirmed_free,
}

module _ (host : Host) (id : String) (draft : Option PayloadDraft) where
  -- What is returned for the workflow, where its activation has made the calls `later`.
  abbrev pub Ends : Value → Log Call → Published → Type 0
  Ends workflow later (reconciled r d warning) =
      (((r.scheduled ≡ true) × IsConfirmed host id later r) ⊎ IsUnscheduled host id later r)
      × (d ≡ draft)
  Ends workflow later (scheduling_failed w message) = w ≡ workflow

  -- The calls: to publish, whatever its answer; to read the workflow, which is then published at
  -- the version and active; to report it; and those of the activation.
  pub record IsSettled (number version_id : Value) (es : Log Call) (o : Published) : Type 0 where
    pub workflow : Value
    pub reported : Value
    pub publication : Result Value
    pub later : Log Call
    pub order :
        es
        ≡ later
          ++ (on_published workflow, ok reported)
            ∷ (get_workflow id, ok workflow)
            ∷ (publish_workflow id number, publication)
            ∷ []
    pub published :
        to_string host (prop workflow "published_version_id") ≡ to_string host version_id
    pub active : prop workflow "status" ≡ str "active"
    pub ends : Ends workflow later o

module _ (host : Host) {S : Type 0} (respond : Respond Call S) (id : String)
    (draft : Option PayloadDraft) where
  -- After the report nothing throws.
  after_total :
      (p : Result Value) (workflow : Value) (w : World Call S) (e : Error) (w' : World Call S)
      → after_publication host respond id draft p workflow w ≡ (throws e, w')
      → ⊥
  unfolding after_publication ◌>>=◌ attempt pure
  after_total p workflow w e w' h = ground arith

  module _
      (reports : (v : Value) (s : S) → (a : Value) × ((respond (on_published v) s).0 ≡ ok a)) where
    report_total :
        (p : Result Value) (workflow : Value)
        → Quiet notifications (
            call respond (on_published workflow) >>= λ _.
            after_publication host respond id draft p workflow)
    unfolding ◌>>=◌ call
    report_total p workflow = record {
      at = λ w e w' h.
          let (a, returned) = reports workflow w.behind in
          absurd (
            after_total p workflow (call respond (on_published workflow) w).1 e w'
              (ground (arith, returned)));
    }

    publish-Quiet :
        (number version_id : Value)
        → Quiet notifications (publish_with_schedule host respond id number version_id draft)
    unfolding publish_with_schedule
    publish-Quiet number version_id =
        Quiet-bind (Costs-attempt (Costs-weaken 0 (omega arith) (Costs-call respond _))) (λ p.
          Quiet-bind (Costs-attempt (Costs-weaken 0 (omega arith) (Costs-call respond _))) (λ a.
            Quiet-bind
              (confirmed_free host respond notification-Prices 0 1 (λ i v. omega arith)
                (λ v. omega arith) p a)
              (λ workflow.
                Quiet-bind (throw_if_free host respond notification-Prices _ _)
                  (λ _. report_total p workflow))))

module _ (host : Host) {S : Type 0} (respond : Respond Call S) (id : String)
    (draft : Option PayloadDraft) where
  -- If the caller's callback does not throw, publishing that throws has reported no publication.
  pub publish_throws_quietly :
      ((v : Value) (s : S) → (a : Value) × ((respond (on_published v) s).0 ≡ ok a))
      → (number version_id : Value) (w w' : World Call S) (e : Error)
      → publish_with_schedule host respond id number version_id draft w ≡ (throws e, w')
      → total notifications w'.made ≤ total notifications w.made
  publish_throws_quietly reports number version_id w w' e h =
      (publish-Quiet host respond id draft reports number version_id).at w e w' h

  -- Unless the activation fails with the mismatch of versions, the retry is that activation.
  pub retry-eq-reconcile :
      (w : World Call S)
      → ((e : Error)
          → (reconcile_published_schedule host respond id draft undefined w).0 ≡ throws e
          → is_mismatch host respond e ≡ false)
      → retry_schedule_activation host respond id draft w
        ≡ reconcile_published_schedule host respond id draft undefined w
  unfolding retry_schedule_activation after_attempt ◌>>=◌ attempt pure raise
  retry-eq-reconcile w other =
      go (reconcile_published_schedule host respond id draft undefined w) other
    where
      go :
          (o : Result Reconciled × World Call S)
          → ((e : Error) → o.0 ≡ throws e → is_mismatch host respond e ≡ false)
          → after_attempt host respond id draft o.0 o.1 ≡ o
      go (ok r, v) h = refl
      go (throws e, v) h = rw (h e refl)
