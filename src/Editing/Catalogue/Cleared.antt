-- ===== src/Editing/Catalogue/Cleared.antt =====
-- nodeDefinitions.js: what clearing the examples leaves of a configuration.
use relay_workflow_automatio.Prelude.{
  true, false, String, ◌==◌, eq_iff, eq_refl, ◌≡◌, refl, sym, subst, ◌&&◌, if◌then◌else◌, ap, ◌∙◌,
  arith, Bool-cases, inl, inr, ◌⊎◌,
}
use relay_workflow_automatio.Js.{
  Value, undefined, str, obj, Fields, field, end, get, put, has_own, is_text, or_nullish,
}
use relay_workflow_automatio.Js.Laws.{get-put, get-remove}
use relay_workflow_automatio.Js.Laws.{is_text-eq}
use relay_workflow_automatio.Editing.Catalogue.{
  examples_of, rename_charge, repaired, text_of, clear_examples, clear_example_node_config,
}
use relay_workflow_automatio.Editing.Catalogue.Again.{
  clear-other, IsTable, examples_of-IsTable, no_charge, clear_again,
}

-- The texts with which older versions filled the properties of a new node.
abbrev pub IsExample : String → String → String → Type 0
IsExample type_id key text =
    ((type_id ≡ "action.http_request")
      × (((key ≡ "headers") × (text ≡ "Content-Type: application/json"))
          ⊎ ((key ≡ "body") × (text ≡ "{}"))))
    ⊎ (((type_id ≡ "action.email")
          × (((key ≡ "to") × (text ≡ "user@example.com"))
              ⊎ (((key ≡ "subject") × (text ≡ "Workflow Alert"))
                  ⊎ ((key ≡ "body") × (text ≡ "Your workflow step completed.")))))
        ⊎ ((type_id ≡ "action.refund") × (key ≡ "payment_id") × (text ≡ "ch_12345")))

-- The value of a property: an older refund names its payment "charge_id".
abbrev pub value_of : String → Fields → String → Value
value_of type_id config key =
    if type_id == "action.refund" && has_own config "charge_id"
    then if key == "charge_id"
      then undefined
      else if key == "payment_id"
      then or_nullish (get config "payment_id") (get config "charge_id")
      else get config key
    else get config key

get-repaired :
    (type_id : String) (config : Fields) (key : String)
    → get (repaired type_id config) key ≡ value_of type_id config key
unfolding rename_charge
get-repaired type_id config key =
    elim (Bool-cases (type_id == "action.refund" && has_own config "charge_id")) [
      | inr fails ↦ rw fails refl
      | inl holds ↦ rw holds (
          get-remove (put config "payment_id" _) "charge_id" key
          ∙ rw
              (get-put config "payment_id" _ key, eqb_sym "charge_id" key, eqb_sym "payment_id" key)
              refl)
    ]
  where
    eqb_sym : (a b : String) → (a == b) ≡ (b == a)
    eqb_sym a b = ground (arith, eq_iff a b, eq_iff b a)

IsExample-get :
    (type_id key text : String)
    → IsExample type_id key text
    → get (examples_of type_id) key ≡ str text
unfolding get
IsExample-get type_id key text (inl (t, inl (k, x))) = rw (t, k, x) refl
IsExample-get type_id key text (inl (t, inr (k, x))) = rw (t, k, x) refl
IsExample-get type_id key text (inr (inl (t, inl (k, x)))) = rw (t, k, x) refl
IsExample-get type_id key text (inr (inl (t, inr (inl (k, x))))) = rw (t, k, x) refl
IsExample-get type_id key text (inr (inl (t, inr (inr (k, x))))) = rw (t, k, x) refl
IsExample-get type_id key text (inr (inr (t, k, x))) = rw (t, k, x) refl

has_own-IsExample :
    (type_id key : String)
    → has_own (examples_of type_id) key ≡ true
    → (text : String) × IsExample type_id key text
unfolding has_own
has_own-IsExample type_id key own = elim (Bool-cases (type_id == "action.http_request")) [
  | inl is_http ↦ elim (Bool-cases ("headers" == key)) [
    | inl k ↦ (_, inl ((eq_iff type_id _).0 is_http, inl (sym ((eq_iff _ key).0 k), refl)))
    | inr k ↦
        let last : ("body" == key) ≡ true = ground (arith, own, is_http, k) in
        (_, inl ((eq_iff type_id _).0 is_http, inr (sym ((eq_iff _ key).0 last), refl)))
  ]
  | inr no_http ↦ elim (Bool-cases (type_id == "action.email")) [
    | inl is_email ↦ elim (Bool-cases ("to" == key)) [
      | inl k ↦ (_, inr (inl ((eq_iff type_id _).0 is_email, inl (sym ((eq_iff _ key).0 k), refl))))
      | inr k ↦ elim (Bool-cases ("subject" == key)) [
        | inl k' ↦ (
          _,
          inr (inl ((eq_iff type_id _).0 is_email, inr (inl (sym ((eq_iff _ key).0 k'), refl)))),
        )
        | inr k' ↦
            let last : ("body" == key) ≡ true = ground (arith, own, no_http, is_email, k, k') in
            (
              _,
              inr (
                  inl
                    ((eq_iff type_id _).0 is_email, inr (inr (sym ((eq_iff _ key).0 last), refl)))),
            )
      ]
    ]
    | inr no_email ↦
        let is_refund : (type_id == "action.refund") ≡ true =
          ground (arith, own, no_http, no_email) in
        let last : ("payment_id" == key) ≡ true =
          ground (arith, own, no_http, no_email, is_refund) in
        (_, inr (inr ((eq_iff type_id _).0 is_refund, sym ((eq_iff _ key).0 last), refl)))
  ]
]

-- an example in the table is emptied
clear-emptied :
    (fs config : Fields) (key text : String)
    → IsTable fs
    → get fs key ≡ str text
    → get config key ≡ str text
    → get (clear_examples fs config) key ≡ str ""
unfolding clear_examples get is_text
clear-emptied end config key text t e held = absurd (ground (arith, e))
clear-emptied (field k example fs) config key text (own, filled, t) e held =
    elim (Bool-cases (k == key)) [
      | inl here ↦
          let same : k ≡ key = (eq_iff k key).0 here in
          let listed : example ≡ str text = ground (arith, e, here) in
          let holds : is_text (get config k) (text_of example) ≡ true =
            rw (same, held, listed) (eq_refl text) in
          rw holds (
            clear-other fs (put config k (str "")) key (subst (λ j. has_own fs j ≡ false) same own)
            ∙ get-put config k (str "") key
            ∙ rw here refl)
      | inr other ↦
          let later : get fs key ≡ str text = ground (arith, e, other) in
          elim (Bool-cases (is_text (get config k) (text_of example))) [
            | inl holds ↦ rw holds (
                clear-emptied fs (put config k (str "")) key text t later
                  (get-put config k (str "") key ∙ rw other held))
            | inr fails ↦ rw fails (clear-emptied fs config key text t later held)
          ]
    ]

-- a property that is not the example of the table stays
clear-kept :
    (fs config : Fields) (key text : String)
    → IsTable fs
    → get fs key ≡ str text
    → ¬ (get config key ≡ str text)
    → get (clear_examples fs config) key ≡ get config key
unfolding clear_examples get is_text
clear-kept end config key text t e differs = absurd (ground (arith, e))
clear-kept (field k example fs) config key text (own, filled, t) e differs =
    elim (Bool-cases (k == key)) [
      | inl here ↦
          let same : k ≡ key = (eq_iff k key).0 here in
          let listed : example ≡ str text = ground (arith, e, here) in
          elim (Bool-cases (is_text (get config k) (text_of example))) [
            | inl holds ↦
                let held = is_text-eq (get config k) (text_of example) holds in
                absurd (differs (subst (λ j. get config j ≡ str text) same (held ∙ rw listed refl)))
            | inr fails ↦
                rw fails (clear-other fs config key (subst (λ j. has_own fs j ≡ false) same own))
          ]
      | inr other ↦
          let later : get fs key ≡ str text = ground (arith, e, other) in
          elim (Bool-cases (is_text (get config k) (text_of example))) [
            | inl holds ↦
                let stays : get (put config k (str "")) key ≡ get config key =
                  get-put config k (str "") key ∙ rw other refl in
                rw holds (
                  clear-kept fs (put config k (str "")) key text t later
                    (λ h. differs (sym stays ∙ h))
                  ∙ stays)
            | inr fails ↦ rw fails (clear-kept fs config key text t later differs)
          ]
    ]

-- What clearing leaves of a configuration.
pub record IsClearedFrom (type_id : String) (config cleared : Fields) : Type 0 where
  pub emptied :
      (key text : String)
      → IsExample type_id key text
      → value_of type_id config key ≡ str text
      → get cleared key ≡ str ""
  pub kept :
      (key : String)
      → ((text : String) → IsExample type_id key text → ¬ (value_of type_id config key ≡ str text))
      → get cleared key ≡ value_of type_id config key
  pub renamed : type_id ≡ "action.refund" → has_own cleared "charge_id" ≡ false
  pub again : clear_example_node_config type_id (obj cleared) ≡ obj cleared

-- Clearing a configuration empties exactly the properties that still hold the example text of the
-- node's type, with an older refund's payment under its new name, keeps the value of every other,
-- leaves no refund a property of the older name, and finds nothing more to clear the next time.
pub clear_example_node_config-IsClearedFrom :
    (type_id : String) (config : Fields)
    → (cleared : Fields) × (clear_example_node_config type_id (obj config) ≡ obj cleared)
      × IsClearedFrom type_id config cleared
unfolding clear_example_node_config
clear_example_node_config-IsClearedFrom type_id config =
    let start = repaired type_id config in
    let table = examples_of type_id in
    (
      clear_examples table start,
      refl,
      record {
        emptied = λ key text is_one held.
            clear-emptied table start key text (examples_of-IsTable type_id)
              (IsExample-get type_id key text is_one) (get-repaired type_id config key ∙ held);
        kept = λ key differs. elim (Bool-cases (has_own table key)) [
          | inr out ↦ clear-other table start key out ∙ get-repaired type_id config key
          | inl own ↦
              let (text, is_one) = has_own-IsExample type_id key own in
              clear-kept table start key text (examples_of-IsTable type_id)
                (IsExample-get type_id key text is_one)
                (λ h. differs text is_one (sym (get-repaired type_id config key) ∙ h))
              ∙ get-repaired type_id config key
        ];
        renamed = no_charge type_id config;
        again = ap (λ fs. obj fs) (clear_again type_id config);
      },
    )
