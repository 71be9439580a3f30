-- ===== src/Schedule/Publish/Laws.antt =====
-- What publishing with a schedule and the retry do, whatever the server answers.
use relay_workflow_automatio.Prelude.{ℕ, ◌+◌, ◌≤◌, String, Option, refl, arith}
use relay_workflow_automatio.Js.{Value, undefined}
use relay_workflow_automatio.Js.Host.{Host}
use relay_workflow_automatio.Js.Effect.{Error, Result, ok, throws, World, Respond, call}
use relay_workflow_automatio.Js.Effect.Rules.{
  total, Costs, Costs-pure, Costs-raise, Costs-lift, Costs-attempt, Costs-if, Costs-weaken,
  Costs-call, Costs-bind, Costs-free, Costs-then,
}
use relay_workflow_automatio.Schedule.Draft.{PayloadDraft}
use relay_workflow_automatio.Schedule.Reconcile.{Call, publish_workflow, on_published, Reconciled}
use relay_workflow_automatio.Schedule.Reconcile.Calls.{
  Prices, reconcile-Costs, throw_if_free, creations, updates, creation-Prices, update-Prices,
}
use relay_workflow_automatio.Schedule.Publish.{
  confirmed_workflow, after_publication, publish_with_schedule, republish, after_attempt,
  retry_schedule_activation,
}

-- How often the workflow is published, and how often its publication is reported.
abbrev pub publishings : Call → ℕ
publishings (publish_workflow id v) = 1
publishings _ = 0

abbrev pub notifications : Call → ℕ
notifications (on_published w) = 1
notifications _ = 0

publishing-Prices : Prices publishings 0 0
publishing-Prices = record {
  workflow = λ id. refl;
  versions = λ id. refl;
  nodes = λ id v. refl;
  schedules = refl;
  schedule = λ id. refl;
  creation = λ fs. omega arith;
  changing = λ id fs. omega arith;
}

pub notification-Prices : Prices notifications 0 0
notification-Prices = record {
  workflow = λ id. refl;
  versions = λ id. refl;
  nodes = λ id v. refl;
  schedules = refl;
  schedule = λ id. refl;
  creation = λ fs. omega arith;
  changing = λ id fs. omega arith;
}

module _ (host : Host) {S : Type 0} (respond : Respond Call S) {price : Call → ℕ}
    {create update : ℕ} (prices : Prices price create update) where
  module _ (publish notify : ℕ)
      (publishing : (id : String) (v : Value) → price (publish_workflow id v) ≤ publish)
      (notifying : (v : Value) → price (on_published v) ≤ notify) where
    call-Costs : (k : ℕ) (c : Call) → price c ≤ k → Costs price k (call respond c)
    call-Costs k c le = Costs-weaken k le (Costs-call respond c)

    pub confirmed_free : (p r : Result Value) → Costs price 0 (confirmed_workflow host respond p r)
    unfolding confirmed_workflow
    confirmed_free p (ok v) = Costs-pure 0 v
    confirmed_free p (throws e) = Costs-raise 0 _

    after-Costs :
        (id : String) (draft : Option PayloadDraft) (p : Result Value) (workflow : Value)
        → Costs price (create + update) (after_publication host respond id draft p workflow)
    unfolding after_publication
    after-Costs id draft p workflow =
        Costs-then (Costs-attempt (reconcile-Costs host respond prices id draft undefined))
          (λ r. Costs-pure 0 _)

    publish-Costs :
        (id : String) (number version_id : Value) (draft : Option PayloadDraft)
        → Costs price
            (publish + (notify + (create + update)))
            (publish_with_schedule host respond id number version_id draft)
    unfolding publish_with_schedule
    publish-Costs id number version_id draft =
        Costs-bind publish (notify + (create + update))
          (Costs-attempt (call-Costs publish _ (publishing id number)))
          (λ p.
            Costs-free (Costs-attempt (call-Costs 0 _ (omega (arith, prices.workflow id)))) (λ a.
              Costs-free (confirmed_free p a) (λ workflow.
                Costs-free (throw_if_free host respond prices _ _) (λ _.
                  Costs-bind notify (create + update) (call-Costs notify _ (notifying workflow))
                    (λ _. after-Costs id draft p workflow)))))

    republish-Costs :
        (id : String) (draft : Option PayloadDraft) (e : Error)
        → Costs price (publish + (create + update)) (republish host respond id draft e)
    unfolding republish
    republish-Costs id draft e =
        Costs-free (call-Costs 0 _ (omega (arith, prices.workflow id))) (λ workflow.
          Costs-free (call-Costs 0 _ (omega (arith, prices.versions id))) (λ versions.
            Costs-free (Costs-lift 0 _) (λ version.
              Costs-free (throw_if_free host respond prices _ _) (λ _.
                Costs-bind publish (create + update) (call-Costs publish _ (publishing id _))
                  (λ _. reconcile-Costs host respond prices id draft undefined)))))

    after_attempt-Costs :
        (id : String) (draft : Option PayloadDraft) (r : Result Reconciled)
        → Costs price (publish + (create + update)) (after_attempt host respond id draft r)
    unfolding after_attempt
    after_attempt-Costs id draft (ok r) = Costs-pure _ r
    after_attempt-Costs id draft (throws e) =
        Costs-if _ (republish-Costs id draft e) (Costs-raise _ e)

    retry-Costs :
        (id : String) (draft : Option PayloadDraft)
        → Costs price
            ((create + update) + (publish + (create + update)))
            (retry_schedule_activation host respond id draft)
    unfolding retry_schedule_activation
    retry-Costs id draft =
        Costs-bind (create + update) (publish + (create + update))
          (Costs-attempt (reconcile-Costs host respond prices id draft undefined))
          (after_attempt-Costs id draft)

module _ (host : Host) {S : Type 0} (respond : Respond Call S) (id : String)
    (draft : Option PayloadDraft) where
  -- Publishing with a schedule adds, whatever the server answers, at most one call that publishes,
  -- one report of the publication, one creation and one update of a schedule.
  pub publish_writes_once :
      (number version_id : Value) (w : World Call S)
      → (total publishings (publish_with_schedule host respond id number version_id draft w).1.made
          ≤ total publishings w.made + 1)
        × (total notifications
              (publish_with_schedule host respond id number version_id draft w).1.made
            ≤ total notifications w.made + 1)
        × (total creations (publish_with_schedule host respond id number version_id draft w).1.made
            ≤ total creations w.made + 1)
        × (total updates (publish_with_schedule host respond id number version_id draft w).1.made
            ≤ total updates w.made + 1)
  publish_writes_once number version_id w = (
    omega (
      arith,
      (publish-Costs host respond publishing-Prices 1 0 (λ i v. omega arith) (λ v. omega arith) id
            number version_id draft).bound
          w,
    ),
    omega (
      arith,
      (publish-Costs host respond notification-Prices 0 1 (λ i v. omega arith) (λ v. omega arith) id
            number version_id draft).bound
          w,
    ),
    omega (
      arith,
      (publish-Costs host respond creation-Prices 0 0 (λ i v. omega arith) (λ v. omega arith) id
            number version_id draft).bound
          w,
    ),
    omega (
      arith,
      (publish-Costs host respond update-Prices 0 0 (λ i v. omega arith) (λ v. omega arith) id
            number version_id draft).bound
          w,
    ),
  )

  -- The retry adds, whatever the server answers, at most one call that publishes, no report of a
  -- publication, and at most two creations of a schedule.
  pub retry_writes :
      (w : World Call S)
      → (total publishings (retry_schedule_activation host respond id draft w).1.made
          ≤ total publishings w.made + 1)
        × (total notifications (retry_schedule_activation host respond id draft w).1.made
            ≤ total notifications w.made)
        × (total creations (retry_schedule_activation host respond id draft w).1.made
            ≤ total creations w.made + 2)
  retry_writes w = (
    omega (
      arith,
      (retry-Costs host respond publishing-Prices 1 0 (λ i v. omega arith) (λ v. omega arith) id
            draft).bound
          w,
    ),
    omega (
      arith,
      (retry-Costs host respond notification-Prices 0 1 (λ i v. omega arith) (λ v. omega arith) id
            draft).bound
          w,
    ),
    omega (
      arith,
      (retry-Costs host respond creation-Prices 0 0 (λ i v. omega arith) (λ v. omega arith) id
            draft).bound
          w,
    ),
  )
