-- ===== src/Editing/History/Sound.antt =====
-- What holds of the nodes of a canvas that can be saved, and what keeps it.
use relay_workflow_automatio.Prelude.{
  Bool, true, false, ◌||◌, String, none, some, List, [], ◌∷◌, map, filter, has, Distinct, In, All,
  ◌==◌, eq_iff, ◌≡◌, refl, sym, subst, arith, Bool-cases, inl, inr,
}
use relay_workflow_automatio.Saving.Snapshot.{SavedNode}
use relay_workflow_automatio.Saving.Snapshot.Shuffled.{ids}
use relay_workflow_automatio.Saving.Diff.{ServerNode, is_temp_node, server_node_of}
use relay_workflow_automatio.Saving.Save.Created.{Distinct-filter}
use relay_workflow_automatio.Saving.Save.Saved.{IsEditable}
use relay_workflow_automatio.Editing.Changes.{appended}

module _ (mirror : List ServerNode) where
  -- a node with an id of the server is there under it, and one with a temporary id is not
  abbrev pub IsKept : SavedNode → Type 0
  IsKept n =
      (is_temp_node n ≡ false
        → (s : ServerNode) × (server_node_of mirror n.id ≡ some s)
          × (s.node_id ≡ n.node_id)
          × (s.node_type ≡ n.type_id))
      × (is_temp_node n ≡ true → server_node_of mirror n.id ≡ none)

  abbrev pub IsSound : List SavedNode → Type 0
  IsSound ns = Distinct (ids ns) × All IsKept ns

  each-In : (ns : List SavedNode) → ((n : SavedNode) → In n ns → IsKept n) → All IsKept ns
  each-In [] h = tt
  each-In (n ∷ ns) h = (h n (inl refl), each-In ns (λ m here. h m (inr here)))

  at-In : (ns : List SavedNode) → All IsKept ns → (n : SavedNode) → In n ns → IsKept n
  at-In [] h n here = absurd here
  at-In (m ∷ ns) (k, h) n here = elim here [
    | inl e ↦ subst IsKept (sym e) k
    | inr rest ↦ at-In ns h n rest
  ]

  pub IsEditable-IsSound : {ns : List SavedNode} → IsEditable mirror ns → IsSound ns
  IsEditable-IsSound {ns} h = (h.distinct, each-In ns (λ n here. (h.known n here, h.fresh n here)))

  pub IsSound-IsEditable : {ns : List SavedNode} → IsSound ns → IsEditable mirror ns
  IsSound-IsEditable {ns} (d, h) = record {
    distinct = d;
    known = λ n here. (at-In ns h n here).0;
    fresh = λ n here. (at-In ns h n here).1;
  }

  -- a change that keeps the ids and types of the nodes
  abbrev pub KeepsIds : (SavedNode → SavedNode) → Type 0
  KeepsIds f =
      (n : SavedNode)
      → ((f n).id ≡ n.id) × ((f n).node_id ≡ n.node_id) × ((f n).type_id ≡ n.type_id)

  ids-map :
      (f : SavedNode → SavedNode) → KeepsIds f → (ns : List SavedNode) → ids (map f ns) ≡ ids ns
  ids-map f keeps [] = refl
  ids-map f keeps (n ∷ ns) = rw (ids-map f keeps ns, (keeps n).0) refl

  IsKept-map : (f : SavedNode → SavedNode) → KeepsIds f → (n : SavedNode) → IsKept n → IsKept (f n)
  unfolding is_temp_node
  IsKept-map f keeps n h = let (id, node_id, type_id) = keeps n in rw (id, node_id, type_id) h

  each-map :
      (f : SavedNode → SavedNode)
      → KeepsIds f
      → (ns : List SavedNode) → All IsKept ns
      → All IsKept (map f ns)
  each-map f keeps [] h = tt
  each-map f keeps (n ∷ ns) (k, h) = (IsKept-map f keeps n k, each-map f keeps ns h)

  pub IsSound-map :
      (f : SavedNode → SavedNode)
      → KeepsIds f
      → (ns : List SavedNode) → IsSound ns
      → IsSound (map f ns)
  IsSound-map f keeps ns (d, h) =
      (subst Distinct (sym (ids-map f keeps ns)) d, each-map f keeps ns h)

  each-filter :
      (p : SavedNode → Bool) (ns : List SavedNode) → All IsKept ns → All IsKept (filter p ns)
  each-filter p [] h = tt
  each-filter p (n ∷ ns) (k, h) = elim (Bool-cases (p n)) [
    | inl holds ↦ rw holds (k, each-filter p ns h)
    | inr other ↦ rw other (each-filter p ns h)
  ]

  pub IsSound-filter :
      (p : SavedNode → Bool) (ns : List SavedNode) → IsSound ns → IsSound (filter p ns)
  IsSound-filter p ns (d, h) = (Distinct-filter p ns d, each-filter p ns h)

  has-appended :
      (x : String) (ns : List SavedNode) (n : SavedNode)
      → has x (ids (appended ns n)) ≡ (has x (ids ns) || x == n.id)
  unfolding appended has
  has-appended x [] n = ground arith
  has-appended x (m ∷ ms) n = ground (arith, has-appended x ms n)

  pub IsSound-appended :
      (ns : List SavedNode) (n : SavedNode)
      → has n.id (ids ns) ≡ false
      → IsKept n
      → IsSound ns
      → IsSound (appended ns n)
  unfolding appended has
  IsSound-appended [] n unused k (d, h) = ((refl, tt), (k, tt))
  IsSound-appended (m ∷ ms) n unused k ((fresh, d), (l, h)) =
      let (distinct, each) = IsSound-appended ms n (ground (arith, unused)) k (d, h) in
      (
        (
          ground (arith, has-appended m.id ms n, eq_iff m.id n.id, eq_iff n.id m.id, unused, fresh),
          distinct,
        ),
        (l, each),
      )
