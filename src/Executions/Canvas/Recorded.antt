-- ===== src/Executions/Canvas/Recorded.antt =====
-- The step that a node shows.
use relay_workflow_automatio.Prelude.{
  true, false, not, String, none, some, List, [], ◌∷◌, In, In-filter, In-filter_map, has,
  has_iff_In, ◌≡◌, ◌≢◌, ◌⊎◌, ◌↔◌, inl, inr, refl, arith, eq_iff, sym, ap, subst, ◌∙◌, ◌==◌,
  Bool-cases, Option-cases,
}
use relay_workflow_automatio.Graph.{Node}
use relay_workflow_automatio.Config.Options.{logical_id}
use relay_workflow_automatio.Executions.Canvas.{
  Step, ByNode, replaces, place, place_all, by_node, matched_ids, unmatched_steps, id_of,
}

replaces_total : (s t : Step) → replaces s t ≡ false → replaces t s ≡ true
replaces_total s t h = ground arith

replaces_trans : (s t u : Step) → replaces s t ≡ true → replaces t u ≡ true → replaces s u ≡ true
replaces_trans s t u h k = ground arith

replaces_refl : (s : Step) → replaces s s ≡ true
replaces_refl s = ground arith

-- The step is the newest of its node among the steps with the property.
abbrev pub IsNewest : (Step → Type 0) → String → Step → Type 0
IsNewest P id s = P s × (s.node_id ≡ id) × ((t : Step) → P t → t.node_id ≡ id → replaces s t ≡ true)

-- The map knows the newest step of each node among the steps with the property.
record Knows (m : ByNode) (P : Step → Type 0) : Type 1 where
  newest : (id : String) (s : Step) → m id ≡ some s → IsNewest P id s
  missing : (id : String) → m id ≡ none → (t : Step) → P t → t.node_id ≢ id

module _ (m : ByNode) (P : Step → Type 0) (step : Step) (known : Knows m P) where
  abbrev Q : Step → Type 0
  Q t = P t ⊎ (t ≡ step)

  newest_of :
      (id : String)
      → step.node_id ≡ id
      → ((t : Step) → P t → t.node_id ≡ id → replaces step t ≡ true)
      → IsNewest Q id step
  newest_of id at_id most = (
    inr refl,
    at_id,
    λ t q k. elim q [
      | inl p ↦ most t p k
      | inr r ↦ subst (λ x. replaces step x ≡ true) (sym r) (replaces_refl step)
    ],
  )

  placed_newest : (id : String) (s : Step) → place m step id ≡ some s → IsNewest Q id s
  unfolding place
  placed_newest id s e = elim (Bool-cases (step.node_id == id)) [
    | inr other ↦
        let (p, at, most) = known.newest id s (ground arith) in
        (
          inl p,
          at,
          λ t q k. elim q [
            | inl p' ↦ most t p' k
            | inr same ↦
                ground (arith, eq_iff step.node_id id, subst (λ (x : Step). x.node_id ≡ id) same k)
          ],
        )
    | inl here ↦
        let at_id : step.node_id ≡ id = (eq_iff step.node_id id).0 here in
        elim (Option-cases (m step.node_id)) [
          | inl nothing ↦
              let same : step ≡ s = ground arith in
              subst (IsNewest Q id) same (
                newest_of id at_id
                  λ t p k. absurd (known.missing step.node_id nothing t p (k ∙ sym at_id)))
          | inr (prev, before) ↦
              let (p, at, most) = known.newest step.node_id prev before in
              elim (Bool-cases (replaces step prev)) [
                | inl later ↦
                    let same : step ≡ s = ground arith in
                    subst (IsNewest Q id) same (
                      newest_of id at_id
                        λ t p' k. replaces_trans step prev t later (most t p' (k ∙ sym at_id)))
                | inr earlier ↦
                    let there : m id ≡ some prev = subst (λ i. m i ≡ some prev) at_id before in
                    let same : prev ≡ s = ground arith in
                    subst (IsNewest Q id) same (
                      inl p,
                      at ∙ at_id,
                      λ t q k. elim q [
                        | inl p' ↦ most t p' (k ∙ sym at_id)
                        | inr r ↦
                            subst (λ x. replaces prev x ≡ true) (sym r)
                              (replaces_total step prev earlier)
                      ],
                    )
              ]
        ]
  ]

  placed_missing : (id : String) → place m step id ≡ none → (t : Step) → Q t → t.node_id ≢ id
  unfolding place
  placed_missing id e t (inl p) k = known.missing id (ground arith) t p k
  placed_missing id e t (inr same) k =
      let at : step.node_id ≡ id = subst (λ (x : Step). x.node_id ≡ id) same k in
      elim (Option-cases (m step.node_id)) [
        | inl nothing ↦ ground (arith, eq_iff step.node_id id)
        | inr (prev, before) ↦
            let there : m id ≡ some prev = subst (λ i. m i ≡ some prev) at before in
            ground (arith, eq_iff step.node_id id)
      ]

  place-Knows : Knows (place m step) Q
  place-Knows = record { newest = placed_newest; missing = placed_missing }

module _ (m : ByNode) (P R : Step → Type 0) (same : (t : Step) → P t ↔ R t) where
  Knows_iff : Knows m P → Knows m R
  Knows_iff known = record {
    newest = λ id s e.
        let (p, at, most) = known.newest id s e in
        ((same s).0 p, at, λ t r k. most t ((same t).1 r) k);
    missing = λ id e t r k. known.missing id e t ((same t).1 r) k;
  }

place_all-Knows :
    (steps : List Step) (m : ByNode) (P : Step → Type 0)
    → Knows m P
    → Knows (place_all m steps) (λ t. P t ⊎ In t steps)
unfolding place_all
place_all-Knows [] m P known =
    Knows_iff m P (λ t. P t ⊎ In t []) (λ t. (inl, λ c. elim c [ inl p ↦ p | inr n ↦ absurd n ]))
      known
place_all-Knows (step ∷ steps) m P known =
    Knows_iff (place_all (place m step) steps) (λ t. (P t ⊎ (t ≡ step)) ⊎ In t steps)
      (λ t. P t ⊎ In t (step ∷ steps))
      (λ t. (
        λ c. elim c [
          | inl q ↦ elim q [ inl p ↦ inl p | inr e ↦ inr (inl e) ]
          | inr n ↦ inr (inr n)
        ],
        λ c. elim c [
          | inl p ↦ inl (inl p)
          | inr n ↦ elim n [ inl e ↦ inl (inr e) | inr l ↦ inr l ]
        ],
      ))
      (place_all-Knows steps (place m step) (λ t. P t ⊎ (t ≡ step)) (place-Knows m P step known))

by_node-Knows : (steps : List Step) → Knows (by_node steps) (λ t. In t steps)
unfolding by_node
by_node-Knows steps =
    Knows_iff (by_node steps) (λ t. ⊥ ⊎ In t steps) (λ t. In t steps)
      (λ t. (λ c. elim c [ inl n ↦ absurd n | inr m ↦ m ], inr))
      (place_all-Knows steps (λ id. none) (λ t. ⊥) nothing)
  where
    nothing : Knows (λ id. none) (λ t. ⊥)
    nothing = record { newest = λ id s e. ground arith; missing = λ id e t p k. p }

-- The step that is shown for a node id is a recorded step of that node which replaces, by sequence
-- and then by attempt, every recorded step of the node; none is shown only if none is recorded.
pub by_node-IsNewest :
    (steps : List Step) (id : String)
    → ((s : Step) → by_node steps id ≡ some s → IsNewest (λ t. In t steps) id s)
      × (by_node steps id ≡ none → (t : Step) → In t steps → t.node_id ≢ id)
by_node-IsNewest steps id = let known = by_node-Knows steps in (known.newest id, known.missing id)

-- The steps that are listed apart are exactly the recorded steps of no node on the canvas.
pub unmatched_steps_iff :
    (nodes : List Node) (steps : List Step) (s : Step)
    → In s (unmatched_steps nodes steps)
      ↔ (In s steps × ((n : Node) → In n nodes → logical_id n ≢ s.node_id))
unfolding unmatched_steps matched_ids
unmatched_steps_iff nodes steps s =
    let shown = λ (n : Node). id_of (by_node steps (logical_id n)) in
    let kept = In-filter (λ (s : Step). not (has s.node_id (matched_ids nodes steps))) s steps in
    let listed = has_iff_In s.node_id (matched_ids nodes steps) in
    let found = In-filter_map shown s.node_id nodes in
    let known = by_node-Knows steps in
    (
      λ m.
          let (recorded, apart) = kept.0 m in
          (
            recorded,
            λ n on_canvas at. elim (Option-cases (by_node steps (logical_id n))) [
              | inl nothing ↦ known.missing (logical_id n) nothing s recorded (sym at)
              | inr (u, e) ↦
                  let (_, at_u, _) = known.newest (logical_id n) u e in
                  let same : shown n ≡ some s.node_id = rw e (ap some (at_u ∙ at)) in
                  ground (arith, listed.1 (found.1 (n, on_canvas, same)))
            ],
          ),
      λ (recorded, off_canvas). kept.1 (
        recorded,
        elim (Bool-cases (has s.node_id (matched_ids nodes steps))) [
          | inr apart ↦ ground arith
          | inl there ↦
              let (n, on_canvas, e) = found.0 (listed.0 there) in
              absurd (off_canvas n on_canvas (stands n e))
        ],
      ),
    )
  where
    stands :
        (n : Node)
        → id_of (by_node steps (logical_id n)) ≡ some s.node_id
        → logical_id n ≡ s.node_id
    stands n e = elim (Option-cases (by_node steps (logical_id n))) [
      | inl nothing ↦ ground arith
      | inr (u, f) ↦
          let (_, at_u, _) = (by_node-Knows steps).newest (logical_id n) u f in
          let same : some u.node_id ≡ some s.node_id = ground arith in ground arith
    ]
