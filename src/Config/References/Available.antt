-- ===== src/Config/References/Available.antt =====
-- What the check of references accepts.
use relay_workflow_automatio.Prelude.{
  Bool, true, false, not, ◌&&◌, String, List, [], ◌∷◌, ◌++◌, map, any, has, has_iff_In, In,
  In-append, ◌≡◌, ◌↔◌, ◌⊎◌, inl, inr, refl, arith, subst, sym, ap, ◌∙◌, Bool-cases,
}
use relay_workflow_automatio.Js.{
  Value, undefined, null, bool, num, str, arr, obj, Items, nil, cons, Fields, end, field, prop,
}
use relay_workflow_automatio.Graph.{Node, Edge, is_trigger}
use relay_workflow_automatio.Schedule.Validate.{FieldError, error_if}
use relay_workflow_automatio.Variables.{previous_nodes_for}
use relay_workflow_automatio.Variables.Previous.{IsPrevious, previous_nodes_for_iff}
use relay_workflow_automatio.Config.References.{
  references, mentions_trigger, missing_message, name_errors, text_errors, visit, visit_items,
  visit_fields, reference_id, validate_decision_references,
}

-- All texts inside a value.
mutual
  pub texts_of : Value → List String
  texts_of (str s) = s ∷ []
  texts_of (arr xs) = texts_in_items xs
  texts_of (obj fs) = texts_in_fields fs
  texts_of _ = []

  pub texts_in_items : Items → List String
  texts_in_items nil = []
  texts_in_items (cons v vs) = texts_of v ++ texts_in_items vs

  pub texts_in_fields : Fields → List String
  texts_in_fields end = []
  texts_in_fields (field k v fs) = texts_of v ++ texts_in_fields fs

append_nil_iff : (xs ys : List FieldError) → (xs ++ ys ≡ []) ↔ ((xs ≡ []) × (ys ≡ []))
append_nil_iff [] ys = (λ h. (refl, h), λ (e, h). h)
append_nil_iff (x ∷ xs) ys = (λ h. absurd (ground (arith, h)), λ (e, h). absurd (ground (arith, e)))

name_errors_iff :
    (ids : List String) (at : String) (names : List String)
    → (name_errors ids at names ≡ []) ↔ ((name : String) → In name names → has name ids ≡ true)
unfolding name_errors
name_errors_iff ids at [] = (λ h name m. absurd m, λ h. refl)
name_errors_iff ids at (name ∷ names) =
    let (to, from) = name_errors_iff ids at names in
    let (split, join) =
      append_nil_iff (error_if (not (has name ids)) at (missing_message name))
        (name_errors ids at names) in
    (
      λ h other m. elim m [
        | inl e ↦ let (first, rest) = split h in rw e (ground arith)
        | inr l ↦ to (split h).1 other l
      ],
      λ all. join (ground (arith, all name (inl refl)), from (λ other m. all other (inr m))),
    )

module _ (upstream : List Node) (ids : List String) where
  -- A text is resolved if it names known ids only, and the trigger only if there is one upstream.
  abbrev pub IsResolved : String → Type 0
  IsResolved text =
      ((name : String) → In name (references text) → has name ids ≡ true)
      × ((mentions_trigger text ≡ false) ⊎ (any is_trigger upstream ≡ true))

  module _ (at : String) where
    no_trigger :
        (text : String)
        → error_if
            (mentions_trigger text && not (any is_trigger upstream))
            at
            "Connect an upstream trigger before using trigger variables."
          ≡ []
        → (mentions_trigger text ≡ false) ⊎ (any is_trigger upstream ≡ true)
    no_trigger text h = ground arith

    text_errors_iff : (text : String) → (text_errors upstream ids at text ≡ []) ↔ IsResolved text
    unfolding text_errors
    text_errors_iff text =
        let trigger = mentions_trigger text && not (any is_trigger upstream) in
        let (split, join) =
          append_nil_iff (name_errors ids at (references text))
            (error_if trigger at "Connect an upstream trigger before using trigger variables.") in
        let (to, from) = name_errors_iff ids at (references text) in
        (
          λ h. let (names, last) = split h in (to names, no_trigger text last),
          λ (names, last). join (from names, ground arith),
        )

    abbrev AllResolved : List String → Type 0
    AllResolved texts = (text : String) → In text texts → IsResolved text

    -- Two parts report nothing exactly when all texts of both are resolved.
    parts_iff :
        (xs ys : List FieldError) (ss ts : List String)
        → (xs ≡ []) ↔ AllResolved ss
        → (ys ≡ []) ↔ AllResolved ts
        → (xs ++ ys ≡ []) ↔ AllResolved (ss ++ ts)
    parts_iff xs ys ss ts first second =
        let (split, join) = append_nil_iff xs ys in
        (
          λ h t m.
              let (e, f) = split h in
              elim ((In-append t ss ts).0 m) [ inl a ↦ first.0 e t a | inr b ↦ second.0 f t b ],
          λ all. join (
            first.1 (λ t a. all t ((In-append t ss ts).1 (inl a))),
            second.1 (λ t b. all t ((In-append t ss ts).1 (inr b))),
          ),
        )

    mutual
      unfolding visit texts_of

      visit_iff : (v : Value) → (visit upstream ids at v ≡ []) ↔ AllResolved (texts_of v)
      visit_iff (str s) =
          let (to, from) = text_errors_iff s in
          (
            λ h t m. elim m [ inl e ↦ subst IsResolved (sym e) (to h) | inr n ↦ absurd n ],
            λ all. from (all s (inl refl)),
          )
      visit_iff (arr xs) = visit_items_iff xs
      visit_iff (obj fs) = visit_fields_iff fs
      visit_iff undefined = (λ h t m. absurd m, λ h. refl)
      visit_iff null = (λ h t m. absurd m, λ h. refl)
      visit_iff (bool b) = (λ h t m. absurd m, λ h. refl)
      visit_iff (num n) = (λ h t m. absurd m, λ h. refl)

      visit_items_iff :
          (vs : Items) → (visit_items upstream ids at vs ≡ []) ↔ AllResolved (texts_in_items vs)
      visit_items_iff nil = (λ h t m. absurd m, λ h. refl)
      visit_items_iff (cons v vs) =
          parts_iff (visit upstream ids at v) (visit_items upstream ids at vs) (texts_of v)
            (texts_in_items vs) (visit_iff v) (visit_items_iff vs)

      visit_fields_iff :
          (fs : Fields) → (visit_fields upstream ids at fs ≡ []) ↔ AllResolved (texts_in_fields fs)
      visit_fields_iff end = (λ h t m. absurd m, λ h. refl)
      visit_fields_iff (field k v fs) =
          parts_iff (visit upstream ids at v) (visit_fields upstream ids at fs) (texts_of v)
            (texts_in_fields fs) (visit_iff v) (visit_fields_iff fs)

In-map :
    {A B : Type 0} (f : A → B) (y : B) (xs : List A)
    → In y (map f xs) ↔ ((x : A) × In x xs × (f x ≡ y))
In-map f y [] = (λ m. absurd m, λ (x, m, e). m)
In-map f y (x ∷ xs) =
    let (to, from) = In-map f y xs in
    (
      λ m. elim m [ inl e ↦ (x, inl refl, sym e) | inr l ↦ let (z, k, e) = to l in (z, inr k, e) ],
      λ (z, m, e). elim m [ inl s ↦ inl (sym e ∙ ap f s) | inr l ↦ inr (from (z, l, e)) ],
    )

any-In :
    {A : Type 0} (p : A → Bool) (xs : List A)
    → (any p xs ≡ true) ↔ ((x : A) × In x xs × (p x ≡ true))
any-In p [] = (λ h. absurd (ground (arith, h)), λ (x, m, e). absurd m)
any-In p (x ∷ xs) =
    let (to, from) = any-In p xs in
    (
      λ h. elim (Bool-cases (p x)) [
        | inl passes ↦ (x, inl refl, passes)
        | inr fails ↦ let (y, m, e) = to (ground arith) in (y, inr m, e)
      ],
      λ (y, m, e). elim m [
        | inl s ↦ let here : p x ≡ true = rw (sym s) e in ground arith
        | inr l ↦ ground (arith, from (y, l, e))
      ],
    )

-- The texts of a decision's fields that are checked.
abbrev pub checked_texts : Value → List String
checked_texts config =
    texts_of (prop config "instructions")
    ++ (texts_of (prop config "input_mappings") ++ texts_of (prop config "rag_context"))

module _ (nodes : List Node) (edges : List Edge) (current : String) where
  -- Every node that the text names is a previous node of the current one, and if it names the
  -- trigger, then a trigger is one.
  abbrev pub IsAvailable : String → Type 0
  IsAvailable text =
      ((name : String)
        → In name (references text)
        → (n : Node) × IsPrevious nodes edges current true n × (reference_id n ≡ name))
      × ((mentions_trigger text ≡ false)
          ⊎ ((n : Node) × IsPrevious nodes edges current true n × (is_trigger n ≡ true)))

  abbrev upstream : List Node
  upstream = previous_nodes_for nodes edges current true

  IsAvailable-iff :
      (text : String) → IsResolved upstream (map reference_id upstream) text ↔ IsAvailable text
  IsAvailable-iff text = (
    λ (names, trigger). (
      λ name m.
          let (n, k, e) =
            (In-map reference_id name upstream).0
              ((has_iff_In name (map reference_id upstream)).0 (names name m)) in
          (n, (previous_nodes_for_iff nodes edges current true n).0 k, e),
      elim trigger [
        | inl absent ↦ inl absent
        | inr present ↦
            let (n, k, e) = (any-In is_trigger upstream).0 present in
            inr (n, (previous_nodes_for_iff nodes edges current true n).0 k, e)
      ],
    ),
    λ (names, trigger). (
      λ name m.
          let (n, k, e) = names name m in
          (has_iff_In name (map reference_id upstream)).1 (
            (In-map reference_id name upstream).1
              (n, (previous_nodes_for_iff nodes edges current true n).1 k, e)),
      elim trigger [
        | inl absent ↦ inl absent
        | inr (n, k, e) ↦ inr (
            (any-In is_trigger upstream).1
              (n, (previous_nodes_for_iff nodes edges current true n).1 k, e))
      ],
    ),
  )

  -- The check of references reports nothing exactly when every text in the instructions, the input
  -- mappings and the context names previous nodes of the current one only, and the trigger only
  -- if a trigger is among them.
  pub validate_decision_references-IsAvailable_iff :
      (config : Value)
      → (validate_decision_references config nodes edges current ≡ [])
        ↔ ((text : String) → In text (checked_texts config) → IsAvailable text)
  unfolding validate_decision_references
  validate_decision_references-IsAvailable_iff config =
      let ids = map reference_id upstream in
      let part = λ (name : String). visit_iff upstream ids name (prop config name) in
      let (to, from) = parts_iff upstream ids "instructions" _ _ _ _ (part "instructions") (
        parts_iff upstream ids "instructions" _ _ _ _ (part "input_mappings")
          (part "rag_context")) in
      (
        λ h text m. (IsAvailable-iff text).0 (to h text m),
        λ all. from (λ text m. (IsAvailable-iff text).1 (all text m)),
      )
