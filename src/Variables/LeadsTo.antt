-- ===== src/Variables/LeadsTo.antt =====
-- Walks along the edges of the canvas, and how the backward search relates to them.
use relay_workflow_automatio.Prelude.{
  String, Bool, true, List, [], ◌∷◌, map, reverse, has, has-reverse, ◌==◌, ◌≡◌, ◌≢◌, ◌⊎◌, ◌↔◌, inl,
  inr, arith, eq_iff, eq_cases, length, refl, subst,
}
use relay_workflow_automatio.Graph.{Edge, successors, predecessors}
use relay_workflow_automatio.Graph.Explore.{Reached, start, onward}
use relay_workflow_automatio.Graph.Explore.Fuel.{count}
use relay_workflow_automatio.Graph.Flood.{Follows, one, more}
use relay_workflow_automatio.Variables.{never}

-- There is a walk of one or more edges from `u` to `v`.
abbrev pub LeadsTo : List Edge → String → String → Type 0
LeadsTo edges u v = Follows edges (u ∷ []) v

-- The two adjacency lists are transposes of one another.
pub predecessors-successors :
    (edges : List Edge) (u v : String) → has u (predecessors edges v) ≡ has v (successors edges u)
unfolding predecessors successors has
predecessors-successors [] u v = refl
predecessors-successors (e ∷ es) u v = ground (
  arith,
  predecessors-successors es u v,
  eq_iff u e.source,
  eq_iff e.source u,
  eq_iff v e.target,
  eq_iff e.target v,
)

pub length-predecessors :
    (edges : List Edge) (u : String)
    → length (predecessors edges u) ≡ count u (map (λ (e : Edge). e.target) edges)
unfolding predecessors count
length-predecessors [] u = refl
length-predecessors (e ∷ es) u = ground (arith, length-predecessors es u)

pub length-successors :
    (edges : List Edge) (u : String)
    → length (successors edges u) ≡ count u (map (λ (e : Edge). e.source) edges)
unfolding successors count
length-successors [] u = refl
length-successors (e ∷ es) u = ground (arith, length-successors es u)

module _ (edges : List Edge) where
  single : (v u : String) → has v (u ∷ []) ≡ true → v ≡ u
  unfolding has
  single v u h = ground (arith, eq_iff v u)

  LeadsTo-edge : {u v : String} → has v (successors edges u) ≡ true → LeadsTo edges u v
  unfolding has
  LeadsTo-edge {u} h = one u (ground (arith, eq_iff u u)) h

  LeadsTo-prepend :
      {u w c : String} → has w (successors edges u) ≡ true → LeadsTo edges w c → LeadsTo edges u c
  LeadsTo-prepend {u} {w} h (one x {v} a n) =
      let same : x ≡ w = single x w a in
      more (LeadsTo-edge h) (subst (λ y. has v (successors edges y) ≡ true) same n)
  LeadsTo-prepend h (more f n) = more (LeadsTo-prepend h f) n

  module _ (c : String) where
    abbrev is_current : String → Bool
    is_current id = id == c

    abbrev Upstream : String → Type 0
    Upstream v = Reached is_current never (predecessors edges) (reverse (predecessors edges c)) v

    Upstream-LeadsTo : {v : String} → Upstream v → LeadsTo edges v c × (v ≢ c)
    Upstream-LeadsTo (start {id = v} a s) = (
      LeadsTo-edge
          (ground (arith, has-reverse v (predecessors edges c), predecessors-successors edges v c)),
      ground (arith, eq_iff v c),
    )
    Upstream-LeadsTo (onward {u} {v} r n s) = (
      LeadsTo-prepend (ground (arith, predecessors-successors edges v u)) (Upstream-LeadsTo r).0,
      ground (arith, eq_iff v c),
    )

    -- an edge into the current node, or into a node that the search reaches
    Upstream-edge :
        (v w : String)
        → v ≢ c
        → has w (successors edges v) ≡ true
        → (w ≡ c) ⊎ Upstream w
        → Upstream v
    Upstream-edge v w ne n (inl e) =
        start
          (ground (arith, has-reverse v (predecessors edges c), predecessors-successors edges v c))
          (ground (arith, eq_iff v c))
    Upstream-edge v w ne n (inr r) =
        onward r (ground (arith, predecessors-successors edges v w)) (ground (arith, eq_iff v c))

    LeadsTo-Upstream :
        (v w : String) → v ≢ c → LeadsTo edges v w → (w ≡ c) ⊎ Upstream w → Upstream v
    LeadsTo-Upstream v w ne (one x a n) h =
        let same : x ≡ v = single x v a in
        Upstream-edge v w ne (subst (λ y. has w (successors edges y) ≡ true) same n) h
    LeadsTo-Upstream v w ne (more {u} f n) h = elim (eq_cases u c) [
      | inl e ↦ LeadsTo-Upstream v u ne f (inl e)
      | inr apart ↦ LeadsTo-Upstream v u ne f (inr (Upstream-edge u w apart n h))
    ]

    pub Upstream-iff : (v : String) → Upstream v ↔ (LeadsTo edges v c × (v ≢ c))
    Upstream-iff v = (Upstream-LeadsTo, λ (f, ne). LeadsTo-Upstream v c ne f (inl refl))
