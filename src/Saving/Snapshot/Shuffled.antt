-- ===== src/Saving/Snapshot/Shuffled.antt =====
-- The snapshot does not depend on the order of nodes and edges.
use mathlib.Core.List.{Permᴰ}
use relay_workflow_automatio.Prelude.{
  Bool, false, String, none, List, [], ◌∷◌, map, In, All, Distinct, Distinct-Perm, has, IsOrder,
  sort_by, sort_shuffle, ◌≡◌, refl, ap, ◌∙◌, inl, inr, arith, eq_iff,
}
use relay_workflow_automatio.Js.{Value}
use relay_workflow_automatio.Js.Host.{Host}
use relay_workflow_automatio.Graph.{Edge}
use relay_workflow_automatio.Saving.Snapshot.{
  SavedNode, logical_of, node_entry, edge_entry, node_le, edge_le, sorted_nodes, sorted_edges,
  snapshot_of, snapshot_value, workflow_save_snapshot,
}

abbrev pub ids : List SavedNode → List String
ids nodes = map (λ (n : SavedNode). n.id) nodes

map-Perm : {A B : Type 0} (f : A → B) {xs ys : List A} → Permᴰ xs ys → Permᴰ (map f xs) (map f ys)
map-Perm f Permᴰ.nil = Permᴰ.nil
map-Perm f (Permᴰ.cons e p) = Permᴰ.cons (ap f e) (map-Perm f p)
map-Perm f (Permᴰ.swap e g) = Permᴰ.swap (ap f e) (ap f g)
map-Perm f (Permᴰ.trans p r) = Permᴰ.trans (map-Perm f p) (map-Perm f r)

-- a node whose id is not there has no logical id
logical-fresh :
    (nodes : List SavedNode) (id : String) → has id (ids nodes) ≡ false → logical_of nodes id ≡ none
unfolding logical_of has
logical-fresh [] id h = refl
logical-fresh (n ∷ ns) id h = ground (arith, logical-fresh ns id, eq_iff n.id id, eq_iff id n.id)

logical_cons :
    (n : SavedNode) (xs ys : List SavedNode) (id : String)
    → logical_of xs id ≡ logical_of ys id
    → logical_of (n ∷ xs) id ≡ logical_of (n ∷ ys) id
unfolding logical_of
logical_cons n xs ys id h = ground (arith, h)

logical_swap :
    (a b : SavedNode) (ns : List SavedNode) (id : String)
    → Distinct (ids (a ∷ b ∷ ns))
    → logical_of (a ∷ b ∷ ns) id ≡ logical_of (b ∷ a ∷ ns) id
unfolding logical_of has
logical_swap a b ns id (fresh, (fresher, d)) =
    ground (arith, eq_iff a.id id, eq_iff b.id id, eq_iff a.id b.id)

logical-Perm :
    {xs ys : List SavedNode}
    → Permᴰ xs ys
    → Distinct (ids xs)
    → (id : String) → logical_of xs id ≡ logical_of ys id
logical-Perm Permᴰ.nil d id = refl
logical-Perm (Permᴰ.cons {l₁} {l₂} e p) (fresh, d) id =
    ap (λ n. logical_of (n ∷ l₁) id) e ∙ logical_cons _ l₁ l₂ id (logical-Perm p d id)
logical-Perm (Permᴰ.swap {a} {b} {a'} {l} e f) d id =
    logical_swap a b l id d
    ∙ ap (λ n. logical_of (n ∷ a ∷ l) id) f
    ∙ ap (λ n. logical_of (a' ∷ n ∷ l) id) e
logical-Perm (Permᴰ.trans p r) d id =
    logical-Perm p d id ∙ logical-Perm r (Distinct-Perm (map-Perm (λ (n : SavedNode). n.id) p) d) id

In-All : {A : Type 0} (Q : A → Type 0) (xs : List A) → ((x : A) → In x xs → Q x) → All Q xs
In-All Q [] h = tt
In-All Q (x ∷ xs) h = (h x (inl refl), In-All Q xs (λ y m. h y (inr m)))

-- The comparison orders the entries that are sorted: it is total and transitive, and entries that
-- compare as equal are equal.
abbrev pub Orders : (Value → Value → Bool) → List Value → Type 0
Orders le entries = IsOrder le (λ v. In v entries)

module _ (host : Host) {nodes nodes' : List SavedNode} {edges edges' : List Edge}
    (same_nodes : Permᴰ nodes nodes') (same_edges : Permᴰ edges edges')
    (distinct : Distinct (ids nodes)) where
  entries-same : map (edge_entry host nodes) edges' ≡ map (edge_entry host nodes') edges'
  unfolding edge_entry
  entries-same = go edges'
    where
      go : (es : List Edge) → map (edge_entry host nodes) es ≡ map (edge_entry host nodes') es
      go [] = refl
      go (e ∷ es) =
          let source = logical-Perm same_nodes distinct e.source in
          let target = logical-Perm same_nodes distinct e.target in rw (source, target, go es) refl

  -- The snapshot that decides whether a canvas has unsaved changes is the same for the same nodes
  -- and edges in another order. The ids of the nodes are distinct, and the comparisons of `sort`
  -- order the entries.
  pub workflow_save_snapshot_shuffle :
      Orders (node_le host) (map (node_entry host) nodes)
      → Orders (edge_le host) (map (edge_entry host nodes) edges)
      → workflow_save_snapshot host nodes edges ≡ workflow_save_snapshot host nodes' edges'
  unfolding workflow_save_snapshot snapshot_value sorted_nodes sorted_edges
  workflow_save_snapshot_shuffle by_id by_text =
      let one =
        sort_shuffle (node_le host) _ by_id (map-Perm (node_entry host) same_nodes)
          (In-All _ _ (λ v m. m)) in
      let two =
        sort_shuffle (edge_le host) _ by_text (map-Perm (edge_entry host nodes) same_edges)
          (In-All _ _ (λ v m. m)) in
      ap (λ ns. host.json_text (snapshot_of host ns (sorted_edges host nodes edges))) one
      ∙ ap (λ es. host.json_text (snapshot_of host (sorted_nodes host nodes') es))
          (two ∙ ap (sort_by (edge_le host)) entries-same)
