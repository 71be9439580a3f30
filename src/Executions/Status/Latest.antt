-- ===== src/Executions/Status/Latest.antt =====
-- Which run the canvas shows.
use relay_workflow_automatio.Prelude.{
  Bool, true, false, none, some, List, [], ◌∷◌, filter, In, In-filter, ◌≡◌, ◌⊎◌, ◌↔◌, inl, inr,
  arith, subst, Bool-cases, Option-cases, if◌then◌else◌,
}
use relay_workflow_automatio.Js.{Value, prop, strict_eq}
use relay_workflow_automatio.Js.Host.{Host}
use relay_workflow_automatio.Proxy.Body.{num_less}
use relay_workflow_automatio.Executions.Status.{
  run_date, insert_run, newest, first_run, is_active_run, latest_canvas_run,
}

module _ (host : Host) where
  insert_run-In :
      (run x : Value) (rs : List Value) → In x (insert_run host run rs) → (x ≡ run) ⊎ In x rs
  unfolding insert_run
  insert_run-In run x [] (inl e) = inl e
  insert_run-In run x [] (inr n) = absurd n
  insert_run-In run x (r ∷ rs) m =
      elim (Bool-cases (num_less (run_date host run) (run_date host r))) [
        | inl later ↦
            let m' : In x (r ∷ insert_run host run rs) =
              subst (λ b. In x (if b then r ∷ insert_run host run rs else run ∷ r ∷ rs)) later m in
            elim m' [
              | inl e ↦ inr (inl e)
              | inr l ↦ elim (insert_run-In run x rs l) [ inl e ↦ inl e | inr k ↦ inr (inr k) ]
            ]
        | inr first ↦
            subst (λ b. In x (if b then r ∷ insert_run host run rs else run ∷ r ∷ rs)) first m
      ]

  newest-In : (x : Value) (rs : List Value) → In x (newest host rs) → In x rs
  unfolding newest
  newest-In x [] m = m
  newest-In x (r ∷ rs) m = elim (insert_run-In r x (newest host rs) m) [
    | inl e ↦ inl e
    | inr l ↦ inr (newest-In x rs l)
  ]

  insert_run-In_there :
      (run x : Value) (rs : List Value) → (x ≡ run) ⊎ In x rs → In x (insert_run host run rs)
  unfolding insert_run
  insert_run-In_there run x [] c = c
  insert_run-In_there run x (r ∷ rs) c =
      elim (Bool-cases (num_less (run_date host run) (run_date host r))) [
        | inr first ↦ rw first c
        | inl later ↦ rw later (elim c [
          | inl e ↦ inr (insert_run-In_there run x rs (inl e))
          | inr l ↦ elim l [ inl e ↦ inl e | inr k ↦ inr (insert_run-In_there run x rs (inr k)) ]
        ])
      ]

  newest-In_there : (x : Value) (rs : List Value) → In x rs → In x (newest host rs)
  unfolding newest
  newest-In_there x [] m = m
  newest-In_there x (r ∷ rs) (inl e) = insert_run-In_there r x (newest host rs) (inl e)
  newest-In_there x (r ∷ rs) (inr l) =
      insert_run-In_there r x (newest host rs) (inr (newest-In_there x rs l))

  -- The first of the newest is one of them, and there is one unless there is none at all.
  first-In : (rs : List Value) (r : Value) → first_run (newest host rs) ≡ some r → In r rs
  first-In rs r e = newest-In r rs (head-In (newest host rs) e)
    where
      head-In : (rs : List Value) → first_run rs ≡ some r → In r rs
      head-In [] e = ground arith
      head-In (x ∷ rs) e = inl (ground arith)

  first-none : (rs : List Value) → first_run (newest host rs) ≡ none → (x : Value) → ¬ In x rs
  first-none rs e x m = no_head (newest host rs) e (newest-In_there x rs m)
    where
      no_head : (rs : List Value) → first_run rs ≡ none → ¬ In x rs
      no_head [] e m = m
      no_head (y ∷ rs) e m = ground arith

  module _ (runs : List Value) (workflow version : Value) where
    abbrev of_workflow : Value → Bool
    of_workflow run = strict_eq (prop run "workflow_id") workflow

    abbrev of_version : Value → Bool
    of_version run = strict_eq (prop run "workflow_version_id") version

    -- The run is a run of the workflow; it is of the canvas version if any run of the workflow is,
    -- and then it is still going on if any of those is.
    abbrev pub IsPreferred : Value → Type 0
    IsPreferred r =
        In r runs
        × (of_workflow r ≡ true)
        × ((x : Value)
            → In x runs
            → of_workflow x ≡ true
            → of_version x ≡ true
            → of_version r ≡ true)
        × ((x : Value)
            → In x runs
            → of_workflow x ≡ true
            → of_version x ≡ true
            → is_active_run host x ≡ true
            → (of_version r ≡ true) × (is_active_run host r ≡ true))

    abbrev matching : List Value
    matching = filter of_workflow runs

    abbrev compatible : List Value
    compatible = filter of_version matching

    matches : (r : Value) → In r matching ↔ (In r runs × (of_workflow r ≡ true))
    matches r = In-filter of_workflow r runs

    fits : (r : Value) → In r compatible ↔ (In r matching × (of_version r ≡ true))
    fits r = In-filter of_version r matching

    goes_on :
        (r : Value)
        → In r (filter (is_active_run host) compatible)
          ↔ (In r compatible × (is_active_run host r ≡ true))
    goes_on r = In-filter (is_active_run host) r compatible

    here : (x : Value) → In x runs → of_workflow x ≡ true → of_version x ≡ true → In x compatible
    here x i k u = (fits x).1 ((matches x).1 (i, k), u)

    -- The run that the canvas shows is a run of the workflow, of the canvas version if there is one, and
    -- then one that is still going on if there is one; none is shown only if the workflow has none.
    pub latest_canvas_run-IsPreferred :
        ((r : Value) → latest_canvas_run host runs workflow version ≡ some r → IsPreferred r)
        × (latest_canvas_run host runs workflow version ≡ none
            → (x : Value) → In x runs
            → of_workflow x ≡ false)
    unfolding latest_canvas_run
    latest_canvas_run-IsPreferred =
        elim (Option-cases (first_run (newest host (filter (is_active_run host) compatible)))) [
          | inr (a, e) ↦
              let (in_version, going_on) = (goes_on a).0 (first-In _ a e) in
              let (in_workflow, v) = (fits a).0 in_version in
              let (known, w) = (matches a).0 in_workflow in
              (
                λ r same.
                    let is : a ≡ r = ground arith in
                    subst IsPreferred is (known, w, λ x i k u. v, λ x i k u l. (v, going_on)),
                λ h. ground arith,
              )
          | inl idle ↦ elim (Option-cases (first_run (newest host compatible))) [
            | inr (c, e) ↦
                let (in_workflow, v) = (fits c).0 (first-In _ c e) in
                let (known, w) = (matches c).0 in_workflow in
                (
                  λ r same.
                      let is : c ≡ r = ground arith in
                      subst IsPreferred is (
                        known,
                        w,
                        λ x i k u. v,
                        λ x i k u l. absurd (first-none _ idle x ((goes_on x).1 (here x i k u, l))),
                      ),
                  λ h. ground arith,
                )
            | inl other ↦ elim (Option-cases (first_run (newest host matching))) [
              | inr (b, e) ↦
                  let (known, w) = (matches b).0 (first-In _ b e) in
                  (
                    λ r same.
                        let is : b ≡ r = ground arith in
                        subst IsPreferred is (
                          known,
                          w,
                          λ x i k u. absurd (first-none _ other x (here x i k u)),
                          λ x i k u l. absurd (first-none _ other x (here x i k u)),
                        ),
                    λ h. ground arith,
                  )
              | inl nothing ↦ (
                λ r same. ground arith,
                λ h x i. elim (Bool-cases (of_workflow x)) [
                  | inr w ↦ w
                  | inl w ↦ absurd (first-none _ nothing x ((matches x).1 (i, w)))
                ],
              )
            ]
          ]
        ]
