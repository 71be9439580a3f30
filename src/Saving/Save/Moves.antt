-- ===== src/Saving/Save/Moves.antt =====
-- What a part of a save that succeeds does to what the editor holds.
use relay_workflow_automatio.Prelude.{
  Bool, true, false, String, List, [], ◌∷◌, ◌++◌, ◌≡◌, refl, sym, ap, ◌∙◌, subst, arith,
  if◌then◌else◌, append_assoc, append-nil,
}
use relay_workflow_automatio.Js.{Value}
use relay_workflow_automatio.Js.Host.{Host}
use relay_workflow_automatio.Js.Effect.{Error, Result, ok, World, pure, raise, ◌>>=◌, Respond, call}
use relay_workflow_automatio.Js.Effect.Rules.{>>=-eq-ok}
use relay_workflow_automatio.Graph.{Edge}
use relay_workflow_automatio.Saving.Snapshot.{SavedNode}
use relay_workflow_automatio.Saving.Diff.{ServerNode, ServerEdge, is_temp_edge}
use relay_workflow_automatio.Saving.Save.{
  Call, Ids, Held, Save, change, read, for_each, ask, respond_held, create_node, keep_node,
  update_node, delete_edge, delete_node, create_edge, keep_edge, update_edge, change_node,
  without_node, server_node,
}

-- The loops over the nodes.
abbrev pub created_nodes : List (SavedNode × String) → List ServerNode
created_nodes [] = []
created_nodes ((n, real) ∷ made) = server_node real n ∷ created_nodes made

abbrev pub created_ids : List (SavedNode × String) → Ids → Ids
created_ids [] ids = ids
created_ids ((n, real) ∷ made) ids = created_ids made ((n.id, real) ∷ ids)

abbrev pub who : List (SavedNode × String) → List SavedNode
who [] = []
who ((n, real) ∷ made) = n ∷ who made

abbrev pub change_nodes : List SavedNode → List ServerNode → List ServerNode
change_nodes [] mirror = mirror
change_nodes (n ∷ ns) mirror = change_nodes ns (change_node n mirror)

abbrev pub without_nodes : List ServerNode → List ServerNode → List ServerNode
without_nodes [] mirror = mirror
without_nodes (s ∷ ss) mirror = without_nodes ss (without_node s.rf_id mirror)

module _ (host : Host) {S : Type 0} (respond : Respond Call S) where
  -- Where the action returns, it leads from what is held before to what is held after.
  pub record Moves {A : Type 0} (R : Held S → Held S → Type 0) (m : Save host respond A)
      : Type 0 where
    pub at :
        (w : World Call (Held S)) (a : A) (w' : World Call (Held S))
        → m w ≡ (ok a, w')
        → R w.behind w'.behind

  -- the nodes that are held, and their new ids, stay as they are
  abbrev pub SameNodes : Held S → Held S → Type 0
  SameNodes h h' = (h'.nodes ≡ h.nodes) × (h'.temp_nodes ≡ h.temp_nodes)

  pub Moves-bind :
      {A B : Type 0} {R R' : Held S → Held S → Type 0} (Q : Held S → Held S → Type 0)
      {m : Save host respond A} {f : A → Save host respond B}
      → ((h h' h'' : Held S) → R h h' → R' h' h'' → Q h h'')
      → Moves R m
      → ((a : A) → Moves R' (f a))
      → Moves Q (m >>= f)
  Moves-bind Q {m} {f} compose hm hf = record {
    at = λ w b w' e.
        let (a, v, first, second) = >>=-eq-ok m f w e in
        compose _ _ _ (hm.at w a v first) ((hf a).at v b w' second);
  }

  Moves-pure : {A : Type 0} (a : A) → Moves SameNodes (pure a)
  unfolding pure
  Moves-pure a = record {
    at = λ w b w' e. let same : w ≡ w' = ground arith in rw (← same) (refl, refl);
  }

  Moves-raise : {A : Type 0} {R : Held S → Held S → Type 0} (e : Error) → Moves {A = A} R (raise e)
  unfolding raise
  Moves-raise e = record { at = λ w b w' p. ground arith }

  Moves-if :
      {A : Type 0} {R : Held S → Held S → Type 0} (b : Bool) {m n : Save host respond A}
      → Moves R m
      → Moves R n
      → Moves R (if b then m else n)
  Moves-if true hm hn = hm
  Moves-if false hm hn = hn

  pub Moves-weaken :
      {A : Type 0} {R : Held S → Held S → Type 0} (Q : Held S → Held S → Type 0)
      {m : Save host respond A}
      → ((h h' : Held S) → R h h' → Q h h')
      → Moves R m
      → Moves Q m
  Moves-weaken Q weaker hm = record { at = λ w a w' e. weaker _ _ (hm.at w a w' e) }

  Moves-ask : (c : Call) → Moves SameNodes (ask host respond c)
  unfolding call respond_held
  Moves-ask c = record {
    at = λ w b w' e. (
      ap (λ (o : Result Value × World Call (Held S)). o.1.behind.nodes) (sym e),
      ap (λ (o : Result Value × World Call (Held S)). o.1.behind.temp_nodes) (sym e),
    );
  }

  pub Moves-change : (f : Held S → Held S) → Moves (λ h h'. h' ≡ f h) (change host respond f)
  unfolding change
  Moves-change f = record {
    at = λ w b w' e. ap (λ (o : Result (Unit {0}) × World Call (Held S)). o.1.behind) (sym e);
  }

  pub Moves-read : Moves SameNodes (read host respond)
  unfolding read
  Moves-read = record {
    at = λ w b w' e. (
      ap (λ (o : Result (Held S) × World Call (Held S)). o.1.behind.nodes) (sym e),
      ap (λ (o : Result (Held S) × World Call (Held S)). o.1.behind.temp_nodes) (sym e),
    );
  }

  -- after a call, a change
  Moves-after :
      {R : Held S → Held S → Type 0} (c : Call) {f : Value → Save host respond (Unit {0})}
      → ((h h' h'' : Held S) → SameNodes h h' → R h' h'' → R h h'')
      → ((a : Value) → Moves R (f a))
      → Moves R (ask host respond c >>= f)
  Moves-after {R} c compose hf = Moves-bind R compose (Moves-ask c) hf

  -- A loop, by what each round does.
  Moves-for_each :
      {A : Type 0} (R : A → Held S → Held S → Type 0) (Q : List A → Held S → Held S → Type 0)
      {f : A → Save host respond (Unit {0})}
      → ((h : Held S) → Q [] h h)
      → ((x : A) (xs : List A) (h h' h'' : Held S) → R x h h' → Q xs h' h'' → Q (x ∷ xs) h h'')
      → ((x : A) → Moves (R x) (f x))
      → (xs : List A) → Moves (Q xs) (for_each host respond f xs)
  unfolding for_each pure
  Moves-for_each R Q nothing more each [] = record {
    at = λ w b w' e.
        let same : w ≡ w' = ap (λ (o : Result (Unit {0}) × World Call (Held S)). o.1) e in
        subst (λ (v : World Call (Held S)). Q [] w.behind v.behind) same (nothing w.behind);
  }
  Moves-for_each R Q nothing more each (x ∷ xs) =
      Moves-bind (Q (x ∷ xs)) (more x xs) (each x) (λ _. Moves-for_each R Q nothing more each xs)

  -- a loop whose rounds leave the nodes alone
  pub same_each :
      {A : Type 0} {f : A → Save host respond (Unit {0})}
      → ((x : A) → Moves SameNodes (f x))
      → (xs : List A) → Moves SameNodes (for_each host respond f xs)
  same_each each =
      Moves-for_each (λ x. SameNodes) (λ xs. SameNodes) (λ h. (refl, refl))
        (λ x xs h h' h'' p q. (q.0 ∙ p.0, q.1 ∙ p.1)) each

  -- Creating a node adds it at the end, with the id that the server gave.
  abbrev pub Creates : SavedNode → Held S → Held S → Type 0
  Creates n h h' =
      (real : String) × (h'.nodes ≡ h.nodes ++ server_node real n ∷ [])
      × (h'.temp_nodes ≡ (n.id, real) ∷ h.temp_nodes)

  create_node-Moves : (n : SavedNode) → Moves (Creates n) (create_node host respond n)
  unfolding create_node keep_node
  create_node-Moves n =
      Moves-after _ (λ h h' h'' p (real, q, r). (real, rw (← p.0) q, rw (← p.1) r))
        (λ res. Moves-if _ (Moves-raise _) (
          Moves-weaken (Creates n)
            (λ h h' e. (_, ap (λ (k : Held S). k.nodes) e, ap (λ (k : Held S). k.temp_nodes) e))
            (Moves-change _)))

  abbrev pub Updates : SavedNode → Held S → Held S → Type 0
  Updates n h h' = (h'.nodes ≡ change_node n h.nodes) × (h'.temp_nodes ≡ h.temp_nodes)

  update_node-Moves : (n : SavedNode) → Moves (Updates n) (update_node host respond n)
  unfolding update_node
  update_node-Moves n =
      Moves-after _ (λ h h' h'' p q. (rw (← p.0) q.0, q.1 ∙ p.1))
        (λ res.
          Moves-weaken (Updates n)
            (λ h h' e. (ap (λ (k : Held S). k.nodes) e, ap (λ (k : Held S). k.temp_nodes) e))
            (Moves-change _))

  abbrev pub Deletes : ServerNode → Held S → Held S → Type 0
  Deletes sn h h' = (h'.nodes ≡ without_node sn.rf_id h.nodes) × (h'.temp_nodes ≡ h.temp_nodes)

  delete_node-Moves : (sn : ServerNode) → Moves (Deletes sn) (delete_node host respond sn)
  unfolding delete_node
  delete_node-Moves sn =
      Moves-after _ (λ h h' h'' p q. (rw (← p.0) q.0, q.1 ∙ p.1))
        (λ res.
          Moves-weaken (Deletes sn)
            (λ h h' e. (ap (λ (k : Held S). k.nodes) e, ap (λ (k : Held S). k.temp_nodes) e))
            (Moves-change _))

  pub SameNodes-trans : (h h' h'' : Held S) → SameNodes h h' → SameNodes h' h'' → SameNodes h h''
  SameNodes-trans h h' h'' p q = (q.0 ∙ p.0, q.1 ∙ p.1)

  -- a change of the edges only
  change_edges-Moves :
      (f : Held S → Held S)
      → ((h : Held S) → SameNodes h (f h))
      → Moves SameNodes (change host respond f)
  change_edges-Moves f same =
      Moves-weaken SameNodes (λ h h' e. subst (λ k. SameNodes h k) (sym e) (same h))
        (Moves-change f)

  pub delete_edge-Moves : (se : ServerEdge) → Moves SameNodes (delete_edge host respond se)
  unfolding delete_edge
  delete_edge-Moves se =
      Moves-bind _ SameNodes-trans (Moves-if (is_temp_edge se.rf_id) (Moves-pure _) (Moves-ask _))
        (λ _. change_edges-Moves _ (λ h. (refl, refl)))

  pub create_edge-Moves : (ids : Ids) (e : Edge) → Moves SameNodes (create_edge host respond ids e)
  unfolding create_edge keep_edge
  create_edge-Moves ids e = Moves-bind _ SameNodes-trans Moves-read (λ h.
      Moves-bind _ SameNodes-trans (Moves-ask _)
        (λ res. Moves-if _ (Moves-raise _) (change_edges-Moves _ (λ h. (refl, refl)))))

  pub update_edge-Moves :
      (nodes : List SavedNode) (e : Edge) → Moves SameNodes (update_edge host respond nodes e)
  unfolding update_edge
  update_edge-Moves nodes e =
      Moves-bind _ SameNodes-trans (Moves-ask _) (λ res. change_edges-Moves _ (λ h. (refl, refl)))

  abbrev pub CreatesAll : List SavedNode → Held S → Held S → Type 0
  CreatesAll ns h h' =
      (made : List (SavedNode × String)) × (who made ≡ ns)
      × (h'.nodes ≡ h.nodes ++ created_nodes made)
      × (h'.temp_nodes ≡ created_ids made h.temp_nodes)

  pub create_nodes-Moves :
      (ns : List SavedNode)
      → Moves (CreatesAll ns) (for_each host respond (create_node host respond) ns)
  create_nodes-Moves ns =
      Moves-for_each Creates CreatesAll (λ h. ([], refl, sym (append-nil h.nodes), refl))
        (λ n rest h h' h'' (real, p, q) (made, all, r, t). (
          (n, real) ∷ made,
          ap (λ us. n ∷ us) all,
          r
              ∙ ap (λ us. us ++ created_nodes made) p
              ∙ append_assoc h.nodes (server_node real n ∷ []) (created_nodes made),
          t ∙ ap (created_ids made) q,
        ))
        create_node-Moves ns

  abbrev pub UpdatesAll : List SavedNode → Held S → Held S → Type 0
  UpdatesAll ns h h' = (h'.nodes ≡ change_nodes ns h.nodes) × (h'.temp_nodes ≡ h.temp_nodes)

  pub update_nodes-Moves :
      (ns : List SavedNode)
      → Moves (UpdatesAll ns) (for_each host respond (update_node host respond) ns)
  update_nodes-Moves ns =
      Moves-for_each Updates UpdatesAll (λ h. (refl, refl))
        (λ n rest h h' h'' p q. (q.0 ∙ ap (change_nodes rest) p.0, q.1 ∙ p.1)) update_node-Moves ns

  abbrev pub DeletesAll : List ServerNode → Held S → Held S → Type 0
  DeletesAll ss h h' = (h'.nodes ≡ without_nodes ss h.nodes) × (h'.temp_nodes ≡ h.temp_nodes)

  pub delete_nodes-Moves :
      (ss : List ServerNode)
      → Moves (DeletesAll ss) (for_each host respond (delete_node host respond) ss)
  delete_nodes-Moves ss =
      Moves-for_each Deletes DeletesAll (λ h. (refl, refl))
        (λ n rest h h' h'' p q. (q.0 ∙ ap (without_nodes rest) p.0, q.1 ∙ p.1)) delete_node-Moves ss
