-- ===== src/Schedule/Reconcile/Calls.antt =====
-- The calls that an activation makes, whatever the server answers.
use relay_workflow_automatio.Prelude.{ℕ, ◌+◌, ◌≤◌, Bool, String, Option, ◌≡◌, refl, arith}
use relay_workflow_automatio.Js.{Value, Fields, end, field}
use relay_workflow_automatio.Js.Host.{Host}
use relay_workflow_automatio.Js.Effect.{Error, Result, ok, throws, World, Respond, call}
use relay_workflow_automatio.Js.Effect.Rules.{
  Costs, total, Costs-pure, Costs-raise, Costs-lift, Costs-attempt, Costs-if, Costs-weaken,
  Costs-call, Costs-bind, Costs-free, Costs-then,
}
use relay_workflow_automatio.Schedule.Draft.{PayloadDraft}
use relay_workflow_automatio.Schedule.Reconcile.{
  Call, get_workflow, get_workflow_versions, get_workflow_nodes, list_schedules, create_schedule,
  update_schedule, get_schedule, publish_workflow, on_published, throw_if, find_existing, recover,
  create_missing, ensure_existing, send_changes, confirm, synchronize, activate,
  reconcile_published_schedule,
}

-- A price at which reading is free.
pub record Prices (price : Call → ℕ) (create update : ℕ) : Type 0 where
  pub workflow : (id : String) → price (get_workflow id) ≡ 0
  pub versions : (id : String) → price (get_workflow_versions id) ≡ 0
  pub nodes : (id : String) (v : Value) → price (get_workflow_nodes id v) ≡ 0
  pub schedules : price list_schedules ≡ 0
  pub schedule : (id : Value) → price (get_schedule id) ≡ 0
  pub creation : (fs : Fields) → price (create_schedule fs) ≤ create
  pub changing : (id : Value) (fs : Fields) → price (update_schedule id fs) ≤ update

module _ (host : Host) {S : Type 0} (respond : Respond Call S) {price : Call → ℕ}
    {create update : ℕ} (prices : Prices price create update) where
  Costs-call_le : (k : ℕ) (c : Call) → price c ≤ k → Costs price k (call respond c)
  Costs-call_le k c le = Costs-weaken k le (Costs-call respond c)

  pub throw_if_free : (b : Bool) (e : Error) → Costs {S = S} price 0 (throw_if b e)
  unfolding throw_if
  throw_if_free b e = Costs-if b (Costs-raise 0 e) (Costs-pure 0 tt)

  find_existing_free : (id : String) → Costs price 0 (find_existing host respond id)
  unfolding find_existing
  find_existing_free id =
      Costs-free (Costs-call_le 0 list_schedules (omega (arith, prices.schedules)))
        (λ v. Costs-lift 0 _)

  recover_free : (id : String) (r : Result Value) → Costs price 0 (recover host respond id r)
  unfolding recover
  recover_free id (ok v) = Costs-pure 0 v
  recover_free id (throws e) =
      Costs-if _ (Costs-raise 0 e)
        (Costs-free (find_existing_free id) (λ v. Costs-if _ (Costs-pure 0 v) (Costs-raise 0 e)))

  create_missing-Costs :
      (id : String) (config parsed : Value)
      → Costs price create (create_missing host respond id config parsed)
  unfolding create_missing
  create_missing-Costs id config parsed = Costs-free (Costs-lift 0 _) (λ d.
      Costs-then (Costs-attempt (Costs-call_le create _ (prices.creation _))) (recover_free id))

  ensure_existing-Costs :
      (id : String) (config parsed : Value)
      → Costs price create (ensure_existing host respond id config parsed)
  unfolding ensure_existing
  ensure_existing-Costs id config parsed =
      Costs-free (find_existing_free id)
        (λ v. Costs-if _ (Costs-pure create v) (create_missing-Costs id config parsed))

  send_changes-Costs :
      (existing : Value) (changes : Fields)
      → Costs price update (send_changes host respond existing changes)
  unfolding send_changes
  send_changes-Costs existing end = Costs-pure update _
  send_changes-Costs existing (field k v fs) = Costs-call_le update _ (prices.changing _ _)

  confirm_free :
      (workflow schedule : Value) → Costs price 0 (confirm host respond workflow schedule)
  unfolding confirm
  confirm_free workflow schedule =
      Costs-free (throw_if_free _ _) (λ _. Costs-free (throw_if_free _ _) (λ _. Costs-pure 0 _))

  synchronize-Costs :
      (workflow config : Value) (draft : Option PayloadDraft) (parsed existing : Value)
      → Costs price update (synchronize host respond workflow config draft parsed existing)
  unfolding synchronize
  synchronize-Costs workflow config draft parsed existing = Costs-free (throw_if_free _ _) (λ _.
      Costs-free (Costs-lift 0 _) (λ d. Costs-then (send_changes-Costs existing _) (λ _.
        Costs-free (Costs-call_le 0 _ (omega (arith, prices.schedule _)))
          (λ s. confirm_free workflow s))))

  activate-Costs :
      (id : String) (workflow trigger : Value) (draft : Option PayloadDraft) (intended : Value)
      → Costs price (create + update) (activate host respond id workflow trigger draft intended)
  unfolding activate
  activate-Costs id workflow trigger draft intended = Costs-free (throw_if_free _ _) (λ _.
      Costs-free (Costs-lift 0 _) (λ p.
        Costs-bind create update (ensure_existing-Costs id _ p)
          (λ e. synchronize-Costs workflow _ draft p e)))

  pub reconcile-Costs :
      (id : String) (draft : Option PayloadDraft) (intended : Value)
      → Costs price (create + update) (reconcile_published_schedule host respond id draft intended)
  unfolding reconcile_published_schedule
  reconcile-Costs id draft intended =
      Costs-free (Costs-call_le 0 _ (omega (arith, prices.workflow id))) (λ workflow.
        Costs-free (throw_if_free _ _) (λ _.
          Costs-free (Costs-call_le 0 _ (omega (arith, prices.versions id))) (λ versions.
            Costs-free (Costs-lift 0 _) (λ version. Costs-free (throw_if_free _ _) (λ _.
              Costs-free (Costs-call_le 0 _ (omega (arith, prices.nodes id _))) (λ nodes.
                Costs-free (Costs-lift 0 _) (λ trigger.
                  Costs-if _ (activate-Costs id workflow trigger draft intended)
                    (Costs-pure _ _))))))))

abbrev pub creations : Call → ℕ
creations (create_schedule fs) = 1
creations _ = 0

abbrev pub updates : Call → ℕ
updates (update_schedule id fs) = 1
updates _ = 0

abbrev pub publications : Call → ℕ
publications (publish_workflow id v) = 1
publications (on_published w) = 1
publications _ = 0

pub creation-Prices : Prices creations 1 0
creation-Prices = record {
  workflow = λ id. refl;
  versions = λ id. refl;
  nodes = λ id v. refl;
  schedules = refl;
  schedule = λ id. refl;
  creation = λ fs. omega arith;
  changing = λ id fs. omega arith;
}

pub update-Prices : Prices updates 0 1
update-Prices = record {
  workflow = λ id. refl;
  versions = λ id. refl;
  nodes = λ id v. refl;
  schedules = refl;
  schedule = λ id. refl;
  creation = λ fs. omega arith;
  changing = λ id fs. omega arith;
}

pub publication-Prices : Prices publications 0 0
publication-Prices = record {
  workflow = λ id. refl;
  versions = λ id. refl;
  nodes = λ id v. refl;
  schedules = refl;
  schedule = λ id. refl;
  creation = λ fs. omega arith;
  changing = λ id fs. omega arith;
}

-- Whatever the server answers and however the activation ends, it adds at most one call that
-- creates a schedule and at most one that updates one, and it neither publishes nor reports a
-- publication.
pub reconcile_writes_once :
    (host : Host) {S : Type 0} (respond : Respond Call S) (id : String)
    (draft : Option PayloadDraft) (intended : Value) (w : World Call S)
    → (total creations (reconcile_published_schedule host respond id draft intended w).1.made
        ≤ total creations w.made + 1)
      × (total updates (reconcile_published_schedule host respond id draft intended w).1.made
          ≤ total updates w.made + 1)
      × (total publications (reconcile_published_schedule host respond id draft intended w).1.made
          ≤ total publications w.made)
reconcile_writes_once host respond id draft intended w = (
  omega (arith, (reconcile-Costs host respond creation-Prices id draft intended).bound w),
  omega (arith, (reconcile-Costs host respond update-Prices id draft intended).bound w),
  omega (arith, (reconcile-Costs host respond publication-Prices id draft intended).bound w),
)
