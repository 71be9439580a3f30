-- ===== src/Saving/Save/Saved.antt =====
-- A save that succeeds: what the editor then holds to be on the server is the canvas.
use relay_workflow_automatio.Prelude.{
  true, false, String, none, some, List, [], ◌∷◌, ◌++◌, has, Distinct, In, In-filter, any, ◌==◌,
  ◌≡◌, ◌⊎◌, inl, inr, refl, sym, ap, ◌∙◌, subst, arith, eq_iff, Bool-cases, Option-cases,
}
use relay_workflow_automatio.Js.{obj, str, end, or_nullish, strict_eq, num_eq}
use relay_workflow_automatio.Js.Host.{Host}
use relay_workflow_automatio.Saving.Snapshot.{SavedNode, round, config_of}
use relay_workflow_automatio.Saving.Snapshot.Shuffled.{ids}
use relay_workflow_automatio.Saving.Diff.{
  ServerNode, server_node_of, is_temp_node, node_changed, new_nodes, updated_nodes, deleted_nodes,
  is_some_and,
}
use relay_workflow_automatio.Saving.Save.{Ids, id_in, real_id, server_node}
use relay_workflow_automatio.Saving.Save.Moves.{
  created_nodes, created_ids, who, change_nodes, without_nodes,
}
use relay_workflow_automatio.Saving.Save.Mirror.{
  rf_ids, entry-append, entry-without_nodes, entry-unchanged, entry-changed, entry-there, sent_to,
}
use relay_workflow_automatio.Saving.Save.Created.{
  ids-In, In-unique, has-filter, Distinct-filter, entry-In, rf_ids-In, In-rf_ids, no_entry,
  created_ids-other, created_ids-In, who-In, In-who, created-entry, created-of_entry,
}

-- A canvas as the editor makes it from what it holds to be on the server: ids are distinct, a node
-- with an id of the server is there under it, and one with a temporary id is not.
pub record IsEditable (mirror : List ServerNode) (nodes : List SavedNode) : Type 0 where
  pub distinct : Distinct (ids nodes)
  pub known :
      (n : SavedNode)
      → In n nodes
      → is_temp_node n ≡ false
      → (s : ServerNode) × (server_node_of mirror n.id ≡ some s)
        × (s.node_id ≡ n.node_id)
        × (s.node_type ≡ n.type_id)
  pub fresh :
      (n : SavedNode) → In n nodes → is_temp_node n ≡ true → server_node_of mirror n.id ≡ none

-- The server gave each created node an id of its own that was not in use.
pub record AreNew (mirror : List ServerNode) (nodes : List SavedNode) (temp : Ids) : Type 0 where
  pub apart : (a b r : String) → id_in temp a ≡ some r → id_in temp b ≡ some r → a ≡ b
  pub unused :
      (a r : String)
      → id_in temp a ≡ some r
      → (server_node_of mirror r ≡ none) × (has r (ids nodes) ≡ false)

-- An entry is a node of the canvas: the same logical id and type; the label, the position and the
-- configuration are those of the node, or equal them as `handleSave` compares them: the label as the
-- empty text where there is none, the configuration by its JSON text.
abbrev pub Agrees : Host → SavedNode → ServerNode → Type 0
Agrees host n s =
    (s.node_id ≡ n.node_id)
    × (s.node_type ≡ n.type_id)
    × ((s.label ≡ n.label)
        ⊎ (strict_eq (or_nullish n.label (str "")) (or_nullish s.label (str "")) ≡ true))
    × ((s.position_x ≡ round n.x) ⊎ (num_eq (round n.x) s.position_x ≡ true))
    × ((s.position_y ≡ round n.y) ⊎ (num_eq (round n.y) s.position_y ≡ true))
    × ((s.configuration ≡ obj (config_of n.config))
        ⊎ (host.json_text (obj (config_of n.config))
            ≡ host.json_text (or_nullish s.configuration (obj end))))

unchanged-Agrees :
    (host : Host) (n : SavedNode) (s : ServerNode)
    → node_changed host s n ≡ false
    → s.node_id ≡ n.node_id
    → s.node_type ≡ n.type_id
    → Agrees host n s
unfolding node_changed
unchanged-Agrees host n s same same_id same_type = (
  same_id,
  same_type,
  inr (ground arith),
  inr (ground arith),
  inr (ground arith),
  inr (
      ground (
        arith,
        eq_iff (host.json_text (obj (config_of n.config)))
            (host.json_text (or_nullish s.configuration (obj end))),
      )),
)

-- Every node of the canvas has its entry, and every entry is that of a node.
pub record IsSaved (host : Host) (nodes : List SavedNode) (mirror : List ServerNode) (temp : Ids)
    : Type 0 where
  pub kept :
      (n : SavedNode)
      → In n nodes
      → (s : ServerNode) × (server_node_of mirror (real_id temp n.id) ≡ some s) × Agrees host n s
  pub only :
      (id : String) (s : ServerNode)
      → server_node_of mirror id ≡ some s
      → (n : SavedNode) × In n nodes × (real_id temp n.id ≡ id)

updates-Distinct :
    (host : Host) (mirror : List ServerNode) (nodes : List SavedNode)
    → Distinct (ids nodes)
    → Distinct (ids (updated_nodes host mirror nodes))
unfolding updated_nodes
updates-Distinct host mirror nodes d = Distinct-filter _ _ (Distinct-filter _ nodes d)

module _ (host : Host) (mirror : List ServerNode) (nodes : List SavedNode)
    (made : List (SavedNode × String)) (all : who made ≡ new_nodes nodes)
    (editable : IsEditable mirror nodes) (new : AreNew mirror nodes (created_ids made [])) where
  abbrev temp : Ids
  temp = created_ids made []

  abbrev after : List ServerNode
  after =
      without_nodes (deleted_nodes mirror nodes)
        (change_nodes (updated_nodes host mirror nodes) (mirror ++ created_nodes made))

  who-Distinct : Distinct (ids (who made))
  unfolding new_nodes
  who-Distinct = rw all (Distinct-filter is_temp_node nodes editable.distinct)

  who-temp : (n : SavedNode) → In n (who made) → In n nodes × (is_temp_node n ≡ true)
  unfolding new_nodes
  who-temp n m = (In-filter is_temp_node n nodes).0 (subst (In n) all m)

  -- the id of a created node
  made-real : (n : SavedNode) (r : String) → In (n, r) made → id_in temp n.id ≡ some r
  made-real n r m = created_ids-In made [] n r who-Distinct m

  made_unique : (n u : SavedNode) (r : String) → In (n, r) made → In (u, r) made → u ≡ n
  made_unique n u r p q =
      In-unique nodes u n editable.distinct (who-temp u (In-who made u r q)).0
        (who-temp n (In-who made n r p)).0
        (new.apart u.id n.id r (made-real u r q) (made-real n r p))

  deleted-unused :
      (r : String)
      → server_node_of mirror r ≡ none
      → has r (rf_ids (deleted_nodes mirror nodes)) ≡ false
  unfolding deleted_nodes
  deleted-unused r h = elim (Bool-cases (has r (rf_ids (deleted_nodes mirror nodes)))) [
    | inr fine ↦ fine
    | inl there ↦
        let (s, m, e) = rf_ids-In r (deleted_nodes mirror nodes) there in
        absurd (no_entry mirror r s h ((In-filter _ s mirror).0 m).0 e)
  ]

  kept-new :
      (n : SavedNode)
      → In n nodes
      → is_temp_node n ≡ true
      → (s : ServerNode) × (server_node_of after (real_id temp n.id) ≡ some s) × Agrees host n s
  unfolding new_nodes real_id updated_nodes server_node
  kept-new n m is_temp =
      let (r, there) =
        who-In made n (subst (In n) (sym all) ((In-filter is_temp_node n nodes).1 (m, is_temp))) in
      let real = made-real n r there in
      let (unused, outside) = new.unused n.id r real in
      let created = created-entry made n r (λ u k. made_unique n u r there k) there in
      let whole = entry-append mirror (created_nodes made) r in
      let changed =
        entry-unchanged (updated_nodes host mirror nodes) (mirror ++ created_nodes made) r
          (has-filter _ r _ (has-filter _ r nodes outside)) in
      let left =
        entry-without_nodes (deleted_nodes mirror nodes)
          (change_nodes (updated_nodes host mirror nodes) (mirror ++ created_nodes made)) r in
      (
        server_node r n,
        rw (real, left, deleted-unused r unused, changed, whole, unused, created) refl,
        (refl, refl, inl refl, inl refl, inl refl, inl refl),
      )

  -- a node of the canvas is not deleted
  not-deleted :
      (n : SavedNode) → In n nodes → has n.id (rf_ids (deleted_nodes mirror nodes)) ≡ false
  unfolding deleted_nodes
  not-deleted n m = elim (Bool-cases (has n.id (rf_ids (deleted_nodes mirror nodes)))) [
    | inr fine ↦ fine
    | inl there ↦
        let (s, gone, e) = rf_ids-In n.id (deleted_nodes mirror nodes) there in
        let nowhere = ((In-filter _ s mirror).0 gone).1 in
        absurd (ground (arith, any-In s nodes n m (sym e)))
  ]
    where
      any-In :
          (s : ServerNode) (ns : List SavedNode) (u : SavedNode)
          → In u ns
          → u.id ≡ s.rf_id
          → any (λ (k : SavedNode). k.id == s.rf_id) ns ≡ true
      any-In s [] u k e = absurd k
      any-In s (v ∷ ns) u (inl same) e =
          ground (arith, ap (λ (k : SavedNode). k.id) same, eq_iff v.id s.rf_id)
      any-In s (v ∷ ns) u (inr later) e = ground (arith, any-In s ns u later)

  -- a node with an id of the server keeps that id
  old-id : (n : SavedNode) → In n nodes → is_temp_node n ≡ false → id_in temp n.id ≡ none
  unfolding id_in
  old-id n m old = elim (Bool-cases (has n.id (ids (who made)))) [
    | inr other ↦ created_ids-other made [] n.id other
    | inl there ↦
        let (u, w, e) = ids-In n.id (who made) there in
        let (within, is_temp) = who-temp u w in
        let same : u ≡ n = In-unique nodes u n editable.distinct within m e in
        absurd (ground (arith, ap is_temp_node same))
  ]

  -- is a node that the server knows sent again? Exactly if it has changed.
  unchanged-node :
      (n : SavedNode) (s : ServerNode)
      → In n nodes
      → server_node_of mirror n.id ≡ some s
      → node_changed host s n ≡ false
      → has n.id (ids (updated_nodes host mirror nodes)) ≡ false
  unfolding updated_nodes
  unchanged-node n s m there same =
      elim (Bool-cases (has n.id (ids (updated_nodes host mirror nodes)))) [
        | inr fine ↦ fine
        | inl sent ↦
            let (u, k, e) = ids-In n.id (updated_nodes host mirror nodes) sent in
            let (old, changed) = (In-filter _ u _).0 k in
            let node : u ≡ n =
              In-unique nodes u n editable.distinct ((In-filter _ u nodes).0 old).0 m e in
            absurd (clash u node changed)
      ]
    where
      clash :
          (u : SavedNode)
          → u ≡ n
          → is_some_and (λ sn. node_changed host sn u) (server_node_of mirror u.id) ≡ true
          → ⊥
      clash u node changed =
          let here : is_some_and (λ sn. node_changed host sn n) (server_node_of mirror n.id)
              ≡ true =
            subst
              (λ (k : SavedNode).
                is_some_and (λ sn. node_changed host sn k) (server_node_of mirror k.id) ≡ true)
              node changed in
          let now : node_changed host s n ≡ true = rw there at here in ground arith

  changed-node :
      (n : SavedNode) (s : ServerNode)
      → In n nodes
      → is_temp_node n ≡ false
      → server_node_of mirror n.id ≡ some s
      → node_changed host s n ≡ true
      → In n (updated_nodes host mirror nodes)
  unfolding updated_nodes
  changed-node n s m old there changed =
      (In-filter _ n _).1 ((In-filter _ n nodes).1 (m, rw old refl), rw there changed)

  whole-entry :
      (id : String)
      → has id (rf_ids (deleted_nodes mirror nodes)) ≡ false
      → server_node_of after id
        ≡ server_node_of
            (change_nodes (updated_nodes host mirror nodes) (mirror ++ created_nodes made))
            id
  whole-entry id h =
      entry-without_nodes (deleted_nodes mirror nodes)
        (change_nodes (updated_nodes host mirror nodes) (mirror ++ created_nodes made)) id
      ∙ rw h refl

  kept-old :
      (n : SavedNode)
      → In n nodes
      → is_temp_node n ≡ false
      → (s : ServerNode) × (server_node_of after (real_id temp n.id) ≡ some s) × Agrees host n s
  unfolding real_id
  kept-old n m old =
      let (s, there, same_id, same_type) = editable.known n m old in
      let whole : server_node_of (mirror ++ created_nodes made) n.id ≡ some s =
        entry-append mirror (created_nodes made) n.id ∙ rw there refl in
      let left = whole-entry n.id (not-deleted n m) in
      elim (Bool-cases (node_changed host s n)) [
        | inl changed ↦
            let sent =
              entry-changed (updated_nodes host mirror nodes) (mirror ++ created_nodes made) n s
                (updates-Distinct host mirror nodes editable.distinct)
                (changed-node n s m old there changed) whole in
            (
              sent_to n s,
              rw (old-id n m old) (left ∙ sent),
              (same_id, same_type, inl refl, inl refl, inl refl, inl refl),
            )
        | inr same ↦
            let kept =
              entry-unchanged (updated_nodes host mirror nodes) (mirror ++ created_nodes made) n.id
                (unchanged-node n s m there same) in
            (
              s,
              rw (old-id n m old) (left ∙ kept ∙ whole),
              unchanged-Agrees host n s same same_id same_type,
            )
      ]

  -- an entry that is left belongs to a node
  only-nodes :
      (id : String) (s : ServerNode)
      → server_node_of after id ≡ some s
      → (n : SavedNode) × In n nodes × (real_id temp n.id ≡ id)
  unfolding real_id deleted_nodes new_nodes
  only-nodes id s h = elim (Bool-cases (has id (rf_ids (deleted_nodes mirror nodes)))) [
    | inl gone ↦ absurd (
        ground (
          arith,
          gone,
          entry-without_nodes (deleted_nodes mirror nodes)
              (change_nodes (updated_nodes host mirror nodes) (mirror ++ created_nodes made)) id,
        ))
    | inr left ↦ by_origin left (Option-cases (server_node_of mirror id))
  ]
    where
      any-node :
          (rf : String) (ns : List SavedNode)
          → any (λ (k : SavedNode). k.id == rf) ns ≡ true
          → (n : SavedNode) × In n ns × (n.id ≡ rf)
      any-node rf [] e = absurd (ground arith)
      any-node rf (n ∷ ns) e = elim (Bool-cases (n.id == rf)) [
        | inl same ↦ (n, inl refl, (eq_iff n.id rf).0 same)
        | inr other ↦ let (u, m, q) = any-node rf ns (ground arith) in (u, inr m, q)
      ]

      by_origin :
          has id (rf_ids (deleted_nodes mirror nodes)) ≡ false
          → ((server_node_of mirror id ≡ none)
              ⊎ ((t : ServerNode) × (server_node_of mirror id ≡ some t)))
          → (n : SavedNode) × In n nodes × (real_id temp n.id ≡ id)
      by_origin left (inr (t, there)) =
          let (m, e) = entry-In mirror id t there in
          elim (Bool-cases (any (λ (k : SavedNode). k.id == t.rf_id) nodes)) [
            | inl held ↦
                let (n, k, q) = any-node t.rf_id nodes held in
                elim (Bool-cases (is_temp_node n)) [
                  | inl is_temp ↦
                      let none_there =
                        subst (λ i. server_node_of mirror i ≡ none) (q ∙ e)
                          (editable.fresh n k is_temp) in
                      absurd (ground arith)
                  | inr old ↦ (n, k, rw (old-id n k old) (q ∙ e))
                ]
            | inr lost ↦
                let gone =
                  In-rf_ids t (deleted_nodes mirror nodes)
                    ((In-filter _ t mirror).1 (m, rw lost refl)) in
                let there_still =
                  subst (λ i. has i (rf_ids (deleted_nodes mirror nodes)) ≡ true) e gone in
                absurd (ground arith)
          ]
      by_origin left (inl nowhere) = elim (Option-cases (server_node_of (created_nodes made) id)) [
        | inl none_made ↦
            let whole : server_node_of (mirror ++ created_nodes made) id ≡ none =
              entry-append mirror (created_nodes made) id ∙ rw (nowhere, none_made) refl in
            let end = entry-there (updated_nodes host mirror nodes) _ id whole in
            let clash : some s ≡ none = sym h ∙ whole-entry id left ∙ end in absurd (ground arith)
        | inr (u, is_made) ↦
            let (n, m) = created-of_entry made id u is_made in
            (n, (who-temp n (In-who made n id m)).0, rw (made-real n id m) refl)
      ]

  pub after-IsSaved : IsSaved host nodes after temp
  after-IsSaved = record {
    kept = λ n m. elim (Bool-cases (is_temp_node n)) [
      | inl is_temp ↦ kept-new n m is_temp
      | inr old ↦ kept-old n m old
    ];
    only = only-nodes;
  }
