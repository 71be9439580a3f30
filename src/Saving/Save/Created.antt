-- ===== src/Saving/Save/Created.antt =====
-- Which ids the created nodes get, and which nodes a list of ids stands for.
use relay_workflow_automatio.Prelude.{
  Bool, true, false, String, none, some, List, [], ◌∷◌, has, Distinct, In, filter, ◌==◌, ◌≡◌, ◌≢◌,
  inl, inr, refl, sym, ap, ◌∙◌, arith, eq_iff, Bool-cases,
}
use relay_workflow_automatio.Saving.Snapshot.{SavedNode}
use relay_workflow_automatio.Saving.Snapshot.Shuffled.{ids}
use relay_workflow_automatio.Saving.Diff.{ServerNode, server_node_of}
use relay_workflow_automatio.Saving.Save.{Ids, id_in, server_node}
use relay_workflow_automatio.Saving.Save.Moves.{created_nodes, created_ids, who}
use relay_workflow_automatio.Saving.Save.Mirror.{rf_ids, In-ids}

-- A node that an id of the list stands for.
pub ids-In :
    (x : String) (ns : List SavedNode)
    → has x (ids ns) ≡ true
    → (n : SavedNode) × In n ns × (n.id ≡ x)
unfolding has
ids-In x [] h = absurd (ground arith)
ids-In x (n ∷ ns) h = elim (Bool-cases (x == n.id)) [
  | inl same ↦ (n, inl refl, sym ((eq_iff x n.id).0 same))
  | inr other ↦ let (m, there, e) = ids-In x ns (ground arith) in (m, inr there, e)
]

pub In-unique :
    (ns : List SavedNode) (a b : SavedNode)
    → Distinct (ids ns)
    → In a ns
    → In b ns
    → a.id ≡ b.id
    → a ≡ b
In-unique [] a b d p q e = absurd p
In-unique (n ∷ ns) a b (fresh, d) (inl p) (inl q) e = p ∙ sym q
In-unique (n ∷ ns) a b (fresh, d) (inl p) (inr q) e =
    absurd (ground (arith, In-ids b ns q, ap (λ (k : SavedNode). k.id) p))
In-unique (n ∷ ns) a b (fresh, d) (inr p) (inl q) e =
    absurd (ground (arith, In-ids a ns p, ap (λ (k : SavedNode). k.id) q))
In-unique (n ∷ ns) a b (fresh, d) (inr p) (inr q) e = In-unique ns a b d p q e

pub has-filter :
    (p : SavedNode → Bool) (x : String) (ns : List SavedNode)
    → has x (ids ns) ≡ false
    → has x (ids (filter p ns)) ≡ false
unfolding has
has-filter p x [] h = h
has-filter p x (n ∷ ns) h = ground (arith, has-filter p x ns)

pub Distinct-filter :
    (p : SavedNode → Bool) (ns : List SavedNode) → Distinct (ids ns) → Distinct (ids (filter p ns))
Distinct-filter p [] d = d
Distinct-filter p (n ∷ ns) (fresh, d) = elim (Bool-cases (p n)) [
  | inl holds ↦ rw holds (has-filter p n.id ns fresh, Distinct-filter p ns d)
  | inr fails ↦ rw fails (Distinct-filter p ns d)
]

-- The same of the held nodes.
pub entry-In :
    (xs : List ServerNode) (id : String) (s : ServerNode)
    → server_node_of xs id ≡ some s
    → In s xs × (s.rf_id ≡ id)
unfolding server_node_of
entry-In [] id s h = absurd (ground arith)
entry-In (x ∷ xs) id s h = elim (Bool-cases (x.rf_id == id)) [
  | inl same ↦
      let e : x ≡ s = ground arith in
      (inl (sym e), sym (ap (λ (k : ServerNode). k.rf_id) e) ∙ (eq_iff x.rf_id id).0 same)
  | inr other ↦ let (there, e) = entry-In xs id s (ground arith) in (inr there, e)
]

pub rf_ids-In :
    (x : String) (ss : List ServerNode)
    → has x (rf_ids ss) ≡ true
    → (s : ServerNode) × In s ss × (s.rf_id ≡ x)
unfolding has
rf_ids-In x [] h = absurd (ground arith)
rf_ids-In x (s ∷ ss) h = elim (Bool-cases (x == s.rf_id)) [
  | inl same ↦ (s, inl refl, sym ((eq_iff x s.rf_id).0 same))
  | inr other ↦ let (t, there, e) = rf_ids-In x ss (ground arith) in (t, inr there, e)
]

pub In-rf_ids : (s : ServerNode) (ss : List ServerNode) → In s ss → has s.rf_id (rf_ids ss) ≡ true
unfolding has
In-rf_ids s [] m = absurd m
In-rf_ids s (u ∷ ss) (inl same) =
    ground (arith, ap (λ (k : ServerNode). k.rf_id) same, eq_iff s.rf_id u.rf_id)
In-rf_ids s (u ∷ ss) (inr later) = ground (arith, In-rf_ids s ss later)

pub no_entry :
    (xs : List ServerNode) (id : String) (s : ServerNode)
    → server_node_of xs id ≡ none
    → In s xs
    → s.rf_id ≢ id
unfolding server_node_of
no_entry [] id s h m e = absurd m
no_entry (x ∷ xs) id s h (inl same) e =
    absurd (ground (arith, ap (λ (k : ServerNode). k.rf_id) same, eq_iff x.rf_id id))
no_entry (x ∷ xs) id s h (inr later) e = no_entry xs id s (ground arith) later e

-- The ids that the created nodes got.
pub created_ids-other :
    (made : List (SavedNode × String)) (known : Ids) (id : String)
    → has id (ids (who made)) ≡ false
    → id_in (created_ids made known) id ≡ id_in known id
unfolding has id_in
created_ids-other [] known id h = refl
created_ids-other ((n, r) ∷ made) known id h =
    created_ids-other made ((n.id, r) ∷ known) id (ground arith)
    ∙ ground (arith, eq_iff id n.id, eq_iff n.id id)

pub created_ids-In :
    (made : List (SavedNode × String)) (known : Ids) (n : SavedNode) (r : String)
    → Distinct (ids (who made))
    → In (n, r) made
    → id_in (created_ids made known) n.id ≡ some r
unfolding has id_in
created_ids-In [] known n r d m = absurd m
created_ids-In ((u, q) ∷ made) known n r (fresh, d) (inl same) =
    let node : n ≡ u = ap (λ (k : SavedNode × String). k.0) same in
    let real : r ≡ q = ap (λ (k : SavedNode × String). k.1) same in
    rw (node, real)
      (created_ids-other made ((u.id, q) ∷ known) u.id fresh ∙ ground (arith, eq_iff u.id u.id))
created_ids-In ((u, q) ∷ made) known n r (fresh, d) (inr later) =
    created_ids-In made ((u.id, q) ∷ known) n r d later

pub who-In :
    (made : List (SavedNode × String)) (n : SavedNode)
    → In n (who made)
    → (r : String) × In (n, r) made
who-In [] n m = absurd m
who-In ((u, q) ∷ made) n (inl same) = (q, inl (ap (λ k. (k, q)) same))
who-In ((u, q) ∷ made) n (inr later) = let (r, m) = who-In made n later in (r, inr m)

pub In-who :
    (made : List (SavedNode × String)) (n : SavedNode) (r : String)
    → In (n, r) made
    → In n (who made)
In-who [] n r m = absurd m
In-who ((u, q) ∷ made) n r (inl same) = inl (ap (λ (k : SavedNode × String). k.0) same)
In-who ((u, q) ∷ made) n r (inr later) = inr (In-who made n r later)

-- The entry of an id that one created node got.
pub created-entry :
    (made : List (SavedNode × String)) (n : SavedNode) (r : String)
    → ((u : SavedNode) → In (u, r) made → u ≡ n)
    → In (n, r) made
    → server_node_of (created_nodes made) r ≡ some (server_node r n)
unfolding server_node_of server_node
created-entry [] n r only m = absurd m
created-entry ((u, q) ∷ made) n r only m = elim (Bool-cases (q == r)) [
  | inl same ↦
      let e : q ≡ r = (eq_iff q r).0 same in
      let node : u ≡ n = only u (inl (ap (λ k. (u, k)) (sym e))) in rw (same, e, node) refl
  | inr other ↦ rw other (
      created-entry made n r (λ v k. only v (inr k))
        (elim m [
          | inl here ↦
              absurd (ground (arith, ap (λ (k : SavedNode × String). k.1) here, eq_iff q r))
          | inr later ↦ later
        ]))
]

pub created-of_entry :
    (made : List (SavedNode × String)) (id : String) (s : ServerNode)
    → server_node_of (created_nodes made) id ≡ some s
    → (n : SavedNode) × In (n, id) made
unfolding server_node_of server_node
created-of_entry [] id s h = absurd (ground arith)
created-of_entry ((u, q) ∷ made) id s h = elim (Bool-cases (q == id)) [
  | inl same ↦ (u, inl (ap (λ k. (u, k)) (sym ((eq_iff q id).0 same))))
  | inr other ↦ let (n, m) = created-of_entry made id s (rw other at h) in (n, inr m)
]
