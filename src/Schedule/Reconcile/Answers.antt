-- ===== src/Schedule/Reconcile/Answers.antt =====
-- What the answers of the server say to an activation: their rows, and which of them is asked for.
use relay_workflow_automatio.Prelude.{
  Bool, true, false, String, ◌++◌, ◌≡◌, ◌⊎◌, ⊎_elim, inl, inr, refl, arith, subst, Bool-cases,
}
use relay_workflow_automatio.Js.{
  Value, undefined, null, bool, num, str, arr, obj, Items, nil, cons, Fields, get, prop, truthy,
  is_text, or_nullish, find_in,
}
use relay_workflow_automatio.Js.Laws.{is_text-eq}
use relay_workflow_automatio.Js.Host.{Host}
use relay_workflow_automatio.Js.Convert.{to_string}
use relay_workflow_automatio.Js.Effect.{ok}
use relay_workflow_automatio.Js.Effect.Log.{Log, Gave, Gave-append, Gave-before}
use relay_workflow_automatio.Schedule.Reconcile.{
  Call, get_workflow, get_workflow_versions, get_workflow_nodes, list_schedules, create_schedule,
  schedule_rows, find_row, node_type,
}

abbrev pub InItems : Value → Items → Type 0
InItems v nil = ⊥
InItems v (cons u us) = (u ≡ v) ⊎ InItems v us

-- The value is one of the rows of an answer.
abbrev pub IsRow : Value → Value → Type 0
IsRow v rows = (xs : Items) × (rows ≡ arr xs) × InItems v xs

-- What `find` returns is a row that passes the test, unless it is falsy.
pub find_row-found :
    (p : Value → Bool) (rows v : Value)
    → find_row p rows ≡ ok v
    → truthy v ≡ true
    → IsRow v rows × (p v ≡ true)
unfolding find_row find_in truthy
find_row-found p (arr xs) v e t = let (m, h) = go xs (ground (arith, e)) in ((xs, refl, m), h)
  where
    go : (xs : Items) → find_row p (arr xs) ≡ ok v → InItems v xs × (p v ≡ true)
    go nil q = absurd (ground (arith, q, t))
    go (cons u us) q = elim (Bool-cases (p u)) [
      | inl holds ↦
          let same : u ≡ v = ground (arith, q, holds) in
          (inl same, subst (λ k. p k ≡ true) same holds)
      | inr fails ↦ let (m, h) = go us (ground (arith, q, fails)) in (inr m, h)
    ]
find_row-found p undefined v e t = absurd (ground (arith, e))
find_row-found p null v e t = absurd (ground (arith, e))
find_row-found p (bool b) v e t = absurd (ground (arith, e))
find_row-found p (num n) v e t = absurd (ground (arith, e))
find_row-found p (str s) v e t = absurd (ground (arith, e))
find_row-found p (obj fs) v e t = absurd (ground (arith, e))

-- Where it is falsy, no row passes the test, if the rows that pass are truthy.
pub find_row-missed :
    (p : Value → Bool) (rows v : Value)
    → ((u : Value) → p u ≡ true → truthy u ≡ true)
    → find_row p rows ≡ ok v
    → truthy v ≡ false
    → (xs : Items) × (rows ≡ arr xs) × ((u : Value) → InItems u xs → p u ≡ false)
unfolding find_row find_in truthy
find_row-missed p (arr xs) v only e t = (xs, refl, go xs e)
  where
    go : (xs : Items) → find_row p (arr xs) ≡ ok v → (u : Value) → InItems u xs → p u ≡ false
    go nil q u m = absurd m
    go (cons w ws) q u m = elim (Bool-cases (p w)) [
      | inl holds ↦
          let same : w ≡ v = ground (arith, q, holds) in
          let filled : truthy v ≡ true = subst (λ k. truthy k ≡ true) same (only w holds) in
          absurd (ground arith)
      | inr fails ↦
          ⊎_elim (λ here. subst (λ k. p k ≡ false) here fails)
            (λ later. go ws (ground (arith, q, fails)) u later) m
    ]
find_row-missed p undefined v only e t = absurd (ground (arith, e))
find_row-missed p null v only e t = absurd (ground (arith, e))
find_row-missed p (bool b) v only e t = absurd (ground (arith, e))
find_row-missed p (num n) v only e t = absurd (ground (arith, e))
find_row-missed p (str s) v only e t = absurd (ground (arith, e))
find_row-missed p (obj fs) v only e t = absurd (ground (arith, e))

-- The type of the node is that of a scheduled trigger: its `node_type`, where this is falsy its
-- `type`, where this is falsy too the `typeId` of its `data`.
abbrev pub IsTriggerNode : Value → Type 0
IsTriggerNode node =
    (prop node "node_type" ≡ str "trigger.schedule")
    ⊎ ((truthy (prop node "node_type") ≡ false)
        × ((prop node "type" ≡ str "trigger.schedule")
            ⊎ ((truthy (prop node "type") ≡ false)
                × (prop (prop node "data") "typeId" ≡ str "trigger.schedule"))))

module _ (host : Host) where
  abbrev pub is_trigger : Value → Bool
  is_trigger node = is_text (node_type host node) "trigger.schedule"

  pub is_trigger-IsTriggerNode : (node : Value) → is_trigger node ≡ true → IsTriggerNode node
  unfolding node_type
  is_trigger-IsTriggerNode node h = elim (Bool-cases (truthy (prop node "node_type"))) [
    | inl own ↦ inl (is_text-eq (prop node "node_type") _ (rw own at h))
    | inr no_own ↦ elim (Bool-cases (truthy (prop node "type"))) [
      | inl kind ↦ inr (no_own, inl (is_text-eq (prop node "type") _ (rw (no_own, kind) at h)))
      | inr no_kind ↦ inr (no_own, inr (no_kind, is_text-eq _ _ (rw (no_own, no_kind) at h)))
    ]
  ]

  pub not_trigger-IsTriggerNode : (node : Value) → is_trigger node ≡ false → ¬ IsTriggerNode node
  unfolding node_type is_text truthy
  not_trigger-IsTriggerNode node h (inl e) = ground (arith, rw e at h)
  not_trigger-IsTriggerNode node h (inr (no_own, inl e)) = ground (arith, rw (no_own, e) at h)
  not_trigger-IsTriggerNode node h (inr (no_own, inr (no_kind, e))) =
      ground (arith, rw (no_own, no_kind, e) at h)

  pub is_trigger-truthy : (node : Value) → is_trigger node ≡ true → truthy node ≡ true
  unfolding node_type is_text truthy prop
  is_trigger-truthy (arr xs) h = refl
  is_trigger-truthy (obj fs) h = refl
  is_trigger-truthy undefined h = absurd (ground (arith, h))
  is_trigger-truthy null h = absurd (ground (arith, h))
  is_trigger-truthy (bool b) h = absurd (ground (arith, h))
  is_trigger-truthy (num n) h = absurd (ground (arith, h))
  is_trigger-truthy (str s) h = absurd (ground (arith, h))

  -- The number is that of the workflow's published version, which is published, as the server lists
  -- its versions.
  pub record IsVersion (id : String) (es : Log Call) (workflow number : Value) : Type 0 where
    pub versions : Value
    pub version : Value
    pub listed : Gave es (get_workflow_versions id) versions
    pub row : IsRow version (schedule_rows versions "versions")
    pub same :
        to_string host (prop version "id") ≡ to_string host (prop workflow "published_version_id")
    pub published : prop version "status" ≡ str "published"
    pub numbered : number ≡ or_nullish (prop version "version_number") (prop version "version")

  -- The server gave the workflow, which has a published version, and the nodes of that version.
  pub record AreNodes (id : String) (es : Log Call) (workflow nodes : Value) : Type 0 where
    pub number : Value
    pub asked : Gave es (get_workflow id) workflow
    pub published : truthy (prop workflow "published_version_id") ≡ true
    pub version : IsVersion id es workflow number
    pub given : Gave es (get_workflow_nodes id number) nodes

  pub AreNodes-before :
      (id : String) (ds es : Log Call) (workflow nodes : Value)
      → AreNodes id es workflow nodes
      → AreNodes id (ds ++ es) workflow nodes
  AreNodes-before id ds es workflow nodes h = record {
    number = h.number;
    asked = Gave-before ds es _ _ h.asked;
    published = h.published;
    version = record {
      versions = h.version.versions;
      version = h.version.version;
      listed = Gave-before ds es _ _ h.version.listed;
      row = h.version.row;
      same = h.version.same;
      published = h.version.published;
      numbered = h.version.numbered;
    };
    given = Gave-before ds es _ _ h.given;
  }

  -- The schedule is the workflow's: the server lists it as such, or has created it for the workflow.
  abbrev pub IsOwn : String → Log Call → Value → Type 0
  IsOwn id es existing =
      ((schedules : Value) × Gave es list_schedules schedules
        × IsRow existing (schedule_rows schedules "schedules")
        × (to_string host (prop existing "workflow_id") ≡ id))
      ⊎ ((fs : Fields) × Gave es (create_schedule fs) existing × (get fs "workflow_id" ≡ str id))

  pub IsOwn-append :
      (id : String) (ds es : Log Call) (v : Value) → IsOwn id ds v → IsOwn id (ds ++ es) v
  IsOwn-append id ds es v (inl (schedules, given, row, e)) =
      inl (schedules, Gave-append ds es _ _ given, row, e)
  IsOwn-append id ds es v (inr (fs, given, e)) = inr (fs, Gave-append ds es _ _ given, e)

  pub IsOwn-before :
      (id : String) (ds es : Log Call) (v : Value) → IsOwn id es v → IsOwn id (ds ++ es) v
  IsOwn-before id ds es v (inl (schedules, given, row, e)) =
      inl (schedules, Gave-before ds es _ _ given, row, e)
  IsOwn-before id ds es v (inr (fs, given, e)) = inr (fs, Gave-before ds es _ _ given, e)
