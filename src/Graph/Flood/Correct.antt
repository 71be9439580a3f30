-- ===== src/Graph/Flood/Correct.antt =====
-- The loop of `Flood` ends, and has then marked exactly what follows the start.
use relay_workflow_automatio.Prelude.{
  ℕ, zero, suc, ◌+◌, ◌≤◌, String, true, not, ◌&&◌, ◌||◌, some, List, [], ◌∷◌, map, has, has-cons,
  ◌≡◌, refl, ◌⊎◌, inl, inr, ◌↔◌, arith, length, eq_iff, Bool-cases, List-cases, ap, sym, subst,
  ⊎_elim, length-map,
}
use relay_workflow_automatio.Graph.{Edge, successors}
use relay_workflow_automatio.Graph.Explore.Fuel.{unmarked, unmarked-cons, count-pos, unmarked-le}
use relay_workflow_automatio.Graph.Flood.{Flooding, offer, scan, flood, Follows, one, more}

-- One pass over the edges marks the targets of `source`, and queues those that were not marked.
scan-marked :
    (source : String) (s : Flooding) (es : List Edge) (v : String)
    → has v (scan source s es).marked ≡ (has v s.marked || has v (successors es source))
unfolding scan offer successors has
scan-marked source s [] v = ground arith
scan-marked source s (e ∷ es) v =
    ground (arith, scan-marked source (offer source s e) es v, eq_iff v e.target)

scan-pending :
    (source : String) (s : Flooding) (es : List Edge) (v : String)
    → has v (scan source s es).pending
      ≡ (has v s.pending || (has v (successors es source) && not (has v s.marked)))
unfolding scan offer successors has
scan-pending source s [] v = ground arith
scan-pending source s (e ∷ es) v =
    ground (arith, scan-pending source (offer source s e) es v, eq_iff v e.target)

module _ (keys : List String) where
  abbrev work : Flooding → ℕ
  work s = length s.pending + unmarked s.marked keys

  scan-work :
      (source : String) (s : Flooding) (es : List Edge)
      → ((v : String) → has v (map (λ (e : Edge). e.target) es) ≡ true → has v keys ≡ true)
      → work (scan source s es) ≤ work s
  unfolding scan offer has
  scan-work source s [] h = omega arith
  scan-work source s (e ∷ es) h = ground (
    arith,
    scan-work source (offer source s e) es (λ v p. h v (ground arith)),
    h e.target,
    eq_iff e.target e.target,
    unmarked-cons e.target s.marked keys,
    count-pos e.target keys,
  )

abbrev targets : List Edge → List String
targets edges = map (λ (e : Edge). e.target) edges

-- A round pops one id, and queues only ids that it marks, so `work` falls by one.
flood_ends :
    (edges : List Edge) (fuel : ℕ) (s : Flooding)
    → work (targets edges) s ≤ fuel
    → (t : List String) × (flood edges fuel s ≡ some t)
unfolding flood
flood_ends edges zero s h = (s.marked, ground arith)
flood_ends edges (suc fuel) s h = elim (List-cases s.pending) [
  | inl empty ↦ (s.marked, ground arith)
  | inr (u, rest, e) ↦
      let s' : Flooding = record s { pending = rest } in
      let falls = scan-work (targets edges) u s' edges (λ v p. p) in
      let (t, ends) =
        flood_ends edges fuel (scan u s' edges) (omega (arith, ap (length {0} {A = String}) e)) in
      (t, ground arith)
]

module _ (edges : List Edge) (starts before : List String) where
  record Inv (s : Flooding) : Type 0 where
    waiting :
        (v : String) → has v s.pending ≡ true → (has v starts ≡ true) ⊎ (has v s.marked ≡ true)
    sound : (v : String) → has v s.marked ≡ true → Follows edges starts v ⊎ (has v before ≡ true)
    kept : (v : String) → has v before ≡ true → has v s.marked ≡ true
    closed :
        (u v : String)
        → (has u starts ≡ true) ⊎ (has u s.marked ≡ true)
        → has v (successors edges u) ≡ true
        → (has u s.pending ≡ true) ⊎ (has v s.marked ≡ true)

  module _ (within : (v : String) → has v before ≡ true → has v starts ≡ true) where
    follow :
        (s : Flooding)
        → Inv s
        → (u v : String) → (has u starts ≡ true) ⊎ (has u s.marked ≡ true)
        → has v (successors edges u) ≡ true
        → Follows edges starts v
    follow s h u v (inl a) n = one u a n
    follow s h u v (inr m) n = elim (h.sound u m) [
      | inl f ↦ more f n
      | inr b ↦ one u (within u b) n
    ]

    Inv-scan :
        (s : Flooding) (u : String) (rest : List String)
        → s.pending ≡ u ∷ rest
        → Inv s
        → Inv (scan u (record s { pending = rest }) edges)
    Inv-scan s u rest e h =
        let s' : Flooding = record s { pending = rest } in
        let marks = λ (v : String). scan-marked u s' edges v in
        let queue = λ (v : String). scan-pending u s' edges v in
        let split = λ (v : String). has-cons v u rest in
        let popped : (has u starts ≡ true) ⊎ (has u s.marked ≡ true) =
          h.waiting u (subst (λ p. has u p ≡ true) (sym e) ((has-cons u u rest).1 (inl refl))) in
        record {
          waiting = λ v p. ground (arith, marks v, queue v, split v, h.waiting v);
          sound = λ v p. elim (Bool-cases (has v s.marked)) [
            | inl old ↦ h.sound v old
            | inr new ↦ inl (follow s h u v popped (ground (arith, marks v)))
          ];
          kept = λ v b. ground (arith, marks v, h.kept v b);
          closed = λ x v p n. elim (Bool-cases (has x s.marked)) [
            | inl old ↦
                ground (arith, marks v, queue x, split x, h.closed x v (inr old) n, eq_iff x u)
            | inr new ↦
                ground
                  (arith, marks v, marks x, queue x, split x, h.closed x v, h.waiting x, eq_iff x u)
          ];
        }

    Inv-end :
        (fuel : ℕ) (s : Flooding) (t : List String)
        → Inv s
        → flood edges fuel s ≡ some t
        → Inv (record { pending = []; marked = t })
    unfolding flood
    Inv-end zero s t h e = elim (List-cases s.pending) [
      | inl empty ↦
          let same : s ≡ record { pending = []; marked = t } = ground arith in subst Inv same h
      | inr (u, rest, p) ↦ ground arith
    ]
    Inv-end (suc fuel) s t h e = elim (List-cases s.pending) [
      | inl empty ↦
          let same : s ≡ record { pending = []; marked = t } = ground arith in subst Inv same h
      | inr (u, rest, p) ↦
          Inv-end fuel (scan u (record s { pending = rest }) edges) t (Inv-scan s u rest p h)
            (ground arith)
    ]

    complete :
        (t : List String)
        → Inv (record { pending = []; marked = t })
        → {v : String} → Follows edges starts v
        → has v t ≡ true
    unfolding has
    complete t h (one u {v} a n) = ground (arith, h.closed u v (inl a) n)
    complete t h (more {u} {v} f n) = ground (arith, h.closed u v (inr (complete t h f)) n)

    -- From a stack of all the starting ids, with some of them marked, and fuel for every id to be
    -- pushed once, the loop ends with exactly the marked ones and those that follow the start.
    pub flood_decides :
        (fuel : ℕ)
        → length starts + length edges ≤ fuel
        → (t : List String) × (flood edges fuel (record { pending = starts; marked = before })
            ≡ some t)
          × ((v : String) → (has v t ≡ true) ↔ (Follows edges starts v ⊎ (has v before ≡ true)))
    unfolding has
    flood_decides fuel enough =
        let s : Flooding = record { pending = starts; marked = before } in
        let (t, e) = flood_ends edges fuel s (
          omega (
            arith,
            unmarked-le before (targets edges),
            length-map edges (λ (e : Edge). e.target),
          )) in
        let begin : Inv s = record {
          waiting = λ v p. inl p;
          sound = λ v m. inr m;
          kept = λ v b. b;
          closed = λ u v p n. elim p [ inl a ↦ inl a | inr m ↦ inl (within u m) ];
        } in
        let inv = Inv-end fuel s t begin e in
        (t, e, λ v. (inv.sound v, ⊎_elim (λ f. complete t inv f) (λ b. inv.kept v b)))
