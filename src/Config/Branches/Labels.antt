-- ===== src/Config/Branches/Labels.antt =====
-- The labels of the edges that leave one node.
use relay_workflow_automatio.Prelude.{
  ◌≤◌, Bool, true, false, String, Option, none, some, List, [], ◌∷◌, ◌++◌, map, has, In, Distinct,
  ◌==◌, ◌≡◌, ◌↔◌, inl, inr, refl, arith, eq_iff, eq_refl, sym, subst, ◌∙◌, Bool-cases,
  if◌then◌else◌,
}
use relay_workflow_automatio.Js.{Value, undefined, null, bool, num, str, arr, obj}
use relay_workflow_automatio.Js.Text.{trim, js_length}
use relay_workflow_automatio.Graph.{Edge}
use relay_workflow_automatio.Config.Options.{BranchOption}
use relay_workflow_automatio.Config.Branches.{
  CanvasError, Subject, Progress, first_edge, form_message, repeated, check_label, check_edges,
  offers, is_reported, text_errors,
}

-- A label in its form: not blank, with no space around it, of at most 255 units, and offered.
abbrev pub IsLabel : Option (List BranchOption) → String → Type 0
IsLabel options s =
    (trim s == "" ≡ false) × (trim s ≡ s) × (js_length s ≤ 255) × (offers s options ≡ true)

form_message_iff :
    (subject : Subject) (options : Option (List BranchOption)) (s : String)
    → (form_message subject options s ≡ none) ↔ IsLabel options s
unfolding form_message
form_message_iff subject options s = (
  λ h. (ground arith, sym ((eq_iff s (trim s)).0 (ground arith)), ground arith, ground arith),
  λ (filled, trimmed, short, offered). ground (arith, eq_iff s (trim s)),
)

grown :
    (errors : List CanvasError) (e : CanvasError) (es : List CanvasError)
    → ¬ (errors ++ (e ∷ es) ≡ [])
grown [] e es h = ground (arith, h)
grown (x ∷ errors) e es h = ground (arith, h)

grown_if :
    (b : Bool) (errors : List CanvasError) (d e : CanvasError)
    → ¬ ((if b then errors ++ (e ∷ []) else errors ++ (d ∷ e ∷ [])) ≡ [])
grown_if true errors d e h = grown errors e [] h
grown_if false errors d e h = grown errors d (e ∷ []) h

module _ (subject : Subject) (options : Option (List BranchOption)) where
  -- The value is a label that no earlier edge has.
  abbrev IsNewLabel : List (String × String) → Value → Type 0
  IsNewLabel seen v = (s : String) × (v ≡ str s) × IsLabel options s × (first_edge s seen ≡ none)

  repeated-none :
      (value : String) (edge : Edge) (earlier : Option String) (errors : List CanvasError)
      → (repeated subject value edge earlier errors ≡ []) ↔ ((errors ≡ []) × (earlier ≡ none))
  unfolding repeated
  repeated-none value edge none errors = (λ h. (h, refl), λ (h, e). h)
  repeated-none value edge (some first) errors = (
    λ h. absurd (grown_if (is_reported first errors) errors _ _ h),
    λ (h, e). absurd (ground (arith, e)),
  )

  text_errors_iff :
      (value : String) (edge : Edge) (m earlier : Option String) (errors : List CanvasError)
      → (text_errors subject value edge m earlier errors ≡ [])
        ↔ ((errors ≡ []) × (m ≡ none) × (earlier ≡ none))
  text_errors_iff value edge (some m) earlier errors =
      (λ h. absurd (grown errors _ [] h), λ (h, e, f). absurd (ground (arith, e)))
  text_errors_iff value edge none earlier errors =
      let (to, from) = repeated-none value edge earlier errors in
      (λ h. let (e, f) = to h in (e, refl, f), λ (e, m, f). from (e, f))

  check_label_iff :
      (edge : Edge) (v : Value) (p : Progress)
      → ((check_label subject options edge v p).errors ≡ [])
        ↔ ((p.errors ≡ []) × IsNewLabel p.seen v)
  unfolding check_label
  check_label_iff edge (str s) p =
      let (to, from) =
        text_errors_iff s edge (form_message subject options s) (first_edge s p.seen) p.errors in
      let (formed, form) = form_message_iff subject options s in
      (
        λ h. let (e, m, f) = to h in (e, (s, refl, formed m, f)),
        λ (e, (t, same, label, fresh)).
            let text : t ≡ s = ground (arith, same) in
            from (
              e,
              form (subst (IsLabel options) text label),
              subst (λ x. first_edge x p.seen ≡ none) text fresh,
            ),
      )
  check_label_iff edge undefined p =
      (λ h. absurd (grown p.errors _ [] h), λ (h, (s, e, label, fresh)). absurd (ground (arith, e)))
  check_label_iff edge null p =
      (λ h. absurd (grown p.errors _ [] h), λ (h, (s, e, label, fresh)). absurd (ground (arith, e)))
  check_label_iff edge (bool b) p =
      (λ h. absurd (grown p.errors _ [] h), λ (h, (s, e, label, fresh)). absurd (ground (arith, e)))
  check_label_iff edge (num n) p =
      (λ h. absurd (grown p.errors _ [] h), λ (h, (s, e, label, fresh)). absurd (ground (arith, e)))
  check_label_iff edge (arr xs) p =
      (λ h. absurd (grown p.errors _ [] h), λ (h, (s, e, label, fresh)). absurd (ground (arith, e)))
  check_label_iff edge (obj fs) p =
      (λ h. absurd (grown p.errors _ [] h), λ (h, (s, e, label, fresh)). absurd (ground (arith, e)))

  -- Every edge has a label that no edge before it has.
  abbrev pub AreNew : List (String × String) → List Edge → Type 0
  AreNew seen [] = Unit {0}
  AreNew seen (edge ∷ edges) =
      (s : String) × (edge.condition ≡ str s)
      × IsLabel options s
      × (first_edge s seen ≡ none)
      × AreNew ((s, edge.id) ∷ seen) edges

  pub check_edges_iff :
      (edges : List Edge) (p : Progress)
      → ((check_edges subject options edges p).errors ≡ [])
        ↔ ((p.errors ≡ []) × AreNew p.seen edges)
  unfolding check_edges check_label
  check_edges_iff [] p = (λ h. (h, tt), λ (h, u). h)
  check_edges_iff (edge ∷ edges) p =
      let next = check_label subject options edge edge.condition p in
      let (to, from) = check_edges_iff edges next in
      let (one, all) = check_label_iff edge edge.condition p in
      (
        λ h.
            let (e, rest) = to h in
            let (before, (s, at, label, fresh)) = one e in
            (
              before,
              (
                s,
                at,
                label,
                fresh,
                subst (λ seen. AreNew seen edges) (seen_after edge s p at fresh) rest,
              ),
            ),
        λ (before, (s, at, label, fresh, rest)). from (
          all (before, (s, at, label, fresh)),
          subst (λ seen. AreNew seen edges) (sym (seen_after edge s p at fresh)) rest,
        ),
      )
    where
      seen_after :
          (edge : Edge) (s : String) (p : Progress)
          → edge.condition ≡ str s
          → first_edge s p.seen ≡ none
          → (check_label subject options edge edge.condition p).seen ≡ (s, edge.id) ∷ p.seen
      seen_after edge s p at fresh = rw at (rw fresh refl)

-- The text of an edge's label, and the labels of edges.
abbrev pub label_of : Value → String
label_of (str s) = s
label_of _ = ""

abbrev pub labels : List Edge → List String
labels edges = map (λ (e : Edge). label_of e.condition) edges

module _ (options : Option (List BranchOption)) where
  abbrev pub HasLabel : Edge → Type 0
  HasLabel edge = (s : String) × (edge.condition ≡ str s) × IsLabel options s

  module _ (subject : Subject) where
    free :
        (s : String) (edge : Edge) (seen : List (String × String)) (edges : List Edge)
        → ((t : String) → has t (labels edges) ≡ true → first_edge t ((s, edge.id) ∷ seen) ≡ none)
        → has s (labels edges) ≡ false
    unfolding first_edge
    free s edge seen edges unseen = elim (Bool-cases (has s (labels edges))) [
      | inr f ↦ f
      | inl h ↦ ground (arith, unseen s h, eq_refl s)
    ]

    -- No label of the new edges was seen, and they differ.
    pub new_labels :
        (seen : List (String × String)) (edges : List Edge)
        → AreNew subject options seen edges
        → ((e : Edge) → In e edges → HasLabel e)
          × Distinct (labels edges)
          × ((s : String) → has s (labels edges) ≡ true → first_edge s seen ≡ none)
    unfolding has first_edge
    new_labels seen [] u = (λ e m. absurd m, tt, λ s h. absurd (ground (arith, h)))
    new_labels seen (edge ∷ edges) (s, at, label, fresh, rest) =
        let (good, differ, unseen) = new_labels ((s, edge.id) ∷ seen) edges rest in
        let same : label_of edge.condition ≡ s = rw at refl in
        (
          λ e m. elim m [ inl q ↦ subst HasLabel (sym q) (s, at, label) | inr l ↦ good e l ],
          (rw same (free s edge seen edges unseen), differ),
          λ t h. elim (Bool-cases (t == label_of edge.condition)) [
            | inl e ↦
                let q : t ≡ s = (eq_iff t (label_of edge.condition)).0 e ∙ same in
                subst (λ x. first_edge x seen ≡ none) (sym q) fresh
            | inr n ↦ ground (arith, unseen t)
          ],
        )

    pub old_labels :
        (seen : List (String × String)) (edges : List Edge)
        → ((e : Edge) → In e edges → HasLabel e)
        → Distinct (labels edges)
        → ((s : String) → has s (labels edges) ≡ true → first_edge s seen ≡ none)
        → AreNew subject options seen edges
    unfolding has first_edge
    old_labels seen [] good differ unseen = tt
    old_labels seen (edge ∷ edges) good (fresh, differ) unseen =
        let (s, at, label) = good edge (inl refl) in
        let same : label_of edge.condition ≡ s = rw at refl in
        let there : has s (labels (edge ∷ edges)) ≡ true =
          ground (arith, eq_iff s (label_of edge.condition), same) in
        (
          s,
          at,
          label,
          unseen s there,
          old_labels ((s, edge.id) ∷ seen) edges (λ e m. good e (inr m)) differ
              (λ t h. elim (Bool-cases (s == t)) [
                | inl e ↦
                    let q : label_of edge.condition ≡ t = same ∙ (eq_iff s t).0 e in
                    let bad : has t (labels edges) ≡ false =
                      subst (λ x. has x (labels edges) ≡ false) q fresh in
                    ground arith
                | inr n ↦ rw n (unseen t (ground arith))
              ]),
        )
