-- ===== src/Graph/Explore/Correct.antt =====
-- What the loop of `Explore` has marked when it ends: exactly the ids that a walk reaches.
use relay_workflow_automatio.Prelude.{
  ℕ, zero, suc, String, Bool, true, false, ◌||◌, List, [], ◌∷◌, ◌++◌, reverse, has, has-cons,
  has-append, has-reverse, ◌≡◌, ◌⊎◌, inl, inr, arith, Bool-cases, eq_iff, ◌↔◌, subst,
}
use relay_workflow_automatio.Graph.Explore.{
  explore, Outcome, exhausted, found, Reached, start, onward,
}

module _ (skip stop : String → Bool) (next : String → List String) (starts : List String) where
  -- Marked ids are reached, do not stop the search, and are closed under `next` up to the stack.
  record Inv (pending seen : List String) : Type 0 where
    waiting : (v : String) → has v pending ≡ true → skip v ≡ false → Reached skip stop next starts v
    sound : (v : String) → has v seen ≡ true → Reached skip stop next starts v
    passed : (v : String) → has v seen ≡ true → stop v ≡ false
    begun :
        (v : String)
        → has v starts ≡ true
        → skip v ≡ false
        → (has v pending ≡ true) ⊎ (has v seen ≡ true)
    closed :
        (u v : String)
        → has u seen ≡ true
        → has v (next u) ≡ true
        → skip v ≡ false
        → (has v pending ≡ true) ⊎ (has v seen ≡ true)

  Inv-start : Inv starts []
  unfolding has
  Inv-start = record {
    waiting = λ v h s. start h s;
    sound = λ v h. ground arith;
    passed = λ v h. ground arith;
    begun = λ v h s. inl h;
    closed = λ u v h n s. ground arith;
  }

  Inv-drop :
      (id : String) (pending seen : List String)
      → (skip id || has id seen) ≡ true
      → Inv (id ∷ pending) seen
      → Inv pending seen
  unfolding has
  Inv-drop id pending seen d h = record {
    waiting = λ v p s. h.waiting v (ground arith) s;
    sound = h.sound;
    passed = h.passed;
    begun = λ v p s. ground (arith, h.begun v p s, eq_iff v id);
    closed = λ u v p n s. ground (arith, h.closed u v p n s, eq_iff v id);
  }

  Inv-mark :
      (id : String) (pending seen : List String)
      → skip id ≡ false
      → stop id ≡ false
      → Inv (id ∷ pending) seen
      → Inv (reverse (next id) ++ pending) (id ∷ seen)
  unfolding has
  Inv-mark id pending seen s t h =
      let here : Reached skip stop next starts id = h.waiting id (ground (arith, eq_iff id id)) s in
      let pushed = λ (v : String). has-append v (reverse (next id)) pending in
      let same = λ (v : String). has-reverse v (next id) in
      record {
        waiting = λ v p k. elim (Bool-cases (has v (next id))) [
          | inl new ↦ onward here new k
          | inr old ↦ h.waiting v (ground (arith, pushed v, same v)) k
        ];
        sound =
            λ v p. elim ((has-cons v id seen).0 p) [ inl e ↦ rw e here | inr old ↦ h.sound v old ];
        passed = λ v p. ground (arith, h.passed v, eq_iff v id);
        begun = λ v p k. ground (arith, h.begun v p k, eq_iff v id, pushed v);
        closed =
            λ u v p n k. ground (arith, h.closed u v, eq_iff v id, eq_iff u id, pushed v, same v);
      }

  -- The two ways in which the search ends.
  record Ends (o : Outcome) : Type 0 where
    when_exhausted : (t : List String) → o ≡ exhausted t → Inv [] t
    when_found : o ≡ found → (v : String) × Reached skip stop next starts v × (stop v ≡ true)

  explore_rule :
      (fuel : ℕ) (pending seen : List String)
      → Inv pending seen
      → Ends (explore skip stop next fuel pending seen)
  unfolding explore
  explore_rule zero [] seen h = record {
    when_exhausted = λ t e. let same : seen ≡ t = cc in subst (Inv []) same h;
    when_found = λ e. ground arith;
  }
  explore_rule zero (id ∷ pending) seen h = record {
    when_exhausted = λ t e. ground arith;
    when_found = λ e. ground arith;
  }
  explore_rule (suc fuel) [] seen h = record {
    when_exhausted = λ t e. let same : seen ≡ t = cc in subst (Inv []) same h;
    when_found = λ e. ground arith;
  }
  explore_rule (suc fuel) (id ∷ pending) seen h = elim (Bool-cases (skip id || has id seen)) [
    | inl drop ↦
        rw (drop, explore) (explore_rule fuel pending seen (Inv-drop id pending seen drop h))
    | inr keep ↦ elim (Bool-cases (stop id)) [
      | inl hit ↦ record {
        when_exhausted = λ t e. ground arith;
        when_found = λ e. (
          id,
          h.waiting id (ground (arith, eq_iff id id, has-cons id id pending)) (ground arith),
          hit,
        );
      }
      | inr more ↦
          rw (keep, explore)
            (rw (more, explore)
              (explore_rule fuel (reverse (next id) ++ pending) (id ∷ seen)
                (Inv-mark id pending seen (ground arith) more h)))
    ]
  ]

  complete :
      (t : List String) → Inv [] t → {v : String} → Reached skip stop next starts v → has v t ≡ true
  unfolding has
  complete t h (start {id} p s) = ground (arith, h.begun id p s)
  complete t h (onward {u} {v} r n s) = ground (arith, h.closed u v (complete t h r) n s)

  -- When the search runs to its end it has marked exactly the ids that a walk reaches, and none
  -- of them stops the search.
  pub exhausted_iff :
      (fuel : ℕ) (t : List String)
      → explore skip stop next fuel starts [] ≡ exhausted t
      → (v : String)
      → ((has v t ≡ true) ↔ Reached skip stop next starts v) × (has v t ≡ true → stop v ≡ false)
  exhausted_iff fuel t e v =
      let inv : Inv [] t = (explore_rule fuel starts [] Inv-start).when_exhausted t e in
      ((inv.sound v, complete t inv), inv.passed v)

  -- When it stops early, a walk reaches an id that stops it.
  pub found_sound :
      (fuel : ℕ)
      → explore skip stop next fuel starts [] ≡ found
      → (v : String) × Reached skip stop next starts v × (stop v ≡ true)
  found_sound fuel e = (explore_rule fuel starts [] Inv-start).when_found e
