-- ===== src/Editing/Catalogue/Again.antt =====
-- nodeDefinitions.js: clearing the examples twice is clearing them once.
use relay_workflow_automatio.Prelude.{
  false, String, ◌==◌, eq_iff, eq_refl, ◌≡◌, refl, ap, ◌∙◌, arith, Bool-cases, inl, inr,
}
use relay_workflow_automatio.Js.{str, Fields, field, end, get, put, has_own, is_text}
use relay_workflow_automatio.Js.Laws.{get-put, has_own-put, has_own-remove}
use relay_workflow_automatio.Editing.Catalogue.{
  examples_of, rename_charge, repaired, text_of, clear_examples,
}

-- no property is still the example
abbrev IsCleared : Fields → Fields → Type 0
IsCleared end config = Unit {0}
IsCleared (field key example fs) config =
    (is_text (get config key) (text_of example) ≡ false) × IsCleared fs config

-- clearing changes nothing where no property is an example
clear_cleared : (fs config : Fields) → IsCleared fs config → clear_examples fs config ≡ config
unfolding clear_examples
clear_cleared end config h = refl
clear_cleared (field key example fs) config (k, h) = rw k (clear_cleared fs config h)

-- the examples have different names and are not empty
abbrev pub IsTable : Fields → Type 0
IsTable end = Unit {0}
IsTable (field key example fs) =
    (has_own fs key ≡ false) × ((text_of example == "") ≡ false) × IsTable fs

pub clear-other :
    (fs config : Fields) (key : String)
    → has_own fs key ≡ false
    → get (clear_examples fs config) key ≡ get config key
unfolding clear_examples has_own
clear-other end config key h = refl
clear-other (field k example fs) config key h =
    elim (Bool-cases (is_text (get config k) (text_of example))) [
      | inl holds ↦ rw holds (
          clear-other fs (put config k (str "")) key (ground (arith, h))
          ∙ ground (arith, get-put config k (str "") key, h))
      | inr fails ↦ rw fails (clear-other fs config key (ground (arith, h)))
    ]

clear-has_own :
    (fs config : Fields) (key : String)
    → has_own fs key ≡ false
    → has_own (clear_examples fs config) key ≡ has_own config key
unfolding clear_examples has_own
clear-has_own end config key h = refl
clear-has_own (field k example fs) config key h =
    elim (Bool-cases (is_text (get config k) (text_of example))) [
      | inl holds ↦ rw holds (
          clear-has_own fs (put config k (str "")) key (ground (arith, h))
          ∙ ground (arith, has_own-put config k (str "") key, h))
      | inr fails ↦ rw fails (clear-has_own fs config key (ground (arith, h)))
    ]

clear-IsCleared : (fs config : Fields) → IsTable fs → IsCleared fs (clear_examples fs config)
unfolding clear_examples is_text
clear-IsCleared end config t = tt
clear-IsCleared (field key example fs) config (own, filled, t) =
    elim (Bool-cases (is_text (get config key) (text_of example))) [
      | inl holds ↦
          let emptied : get (put config key (str "")) key ≡ str "" =
            ground (arith, get-put config key (str "") key, eq_refl key) in
          rw holds (
            rw (clear-other fs (put config key (str "")) key own, emptied)
                (ground (arith, filled, eq_iff "" (text_of example), eq_iff (text_of example) "")),
            clear-IsCleared fs (put config key (str "")) t,
          )
      | inr fails ↦ rw fails (rw (clear-other fs config key own) fails, clear-IsCleared fs config t)
    ]

pub examples_of-IsTable : (type_id : String) → IsTable (examples_of type_id)
unfolding has_own
examples_of-IsTable type_id = elim (Bool-cases (type_id == "action.http_request")) [
  | inl holds ↦ rw holds (refl, refl, (refl, refl, tt))
  | inr apart ↦ elim (Bool-cases (type_id == "action.email")) [
    | inl holds ↦ rw (apart, holds) (refl, refl, (refl, refl, (refl, refl, tt)))
    | inr other ↦ elim (Bool-cases (type_id == "action.refund")) [
      | inl holds ↦ rw (apart, other, holds) (refl, refl, tt)
      | inr last ↦ rw (apart, other, last) tt
    ]
  ]
]

-- a refund has no property of the older name
pub no_charge :
    (type_id : String) (config : Fields)
    → type_id ≡ "action.refund"
    → has_own (clear_examples (examples_of type_id) (repaired type_id config)) "charge_id" ≡ false
unfolding rename_charge has_own
no_charge type_id config e = rw e (elim (Bool-cases (has_own config "charge_id")) [
  | inl there ↦ rw there (
      clear-has_own (examples_of "action.refund") (rename_charge config) "charge_id" refl
      ∙ has_own-remove (put config "payment_id" _) "charge_id" "charge_id")
  | inr missing ↦
      rw missing (clear-has_own (examples_of "action.refund") config "charge_id" refl ∙ missing)
])

-- a repaired configuration that is cleared needs no repair
repaired_again :
    (type_id : String) (config : Fields)
    → let cleared = clear_examples (examples_of type_id) (repaired type_id config) in
      repaired type_id cleared ≡ cleared
unfolding rename_charge has_own
repaired_again type_id config = elim (Bool-cases (type_id == "action.refund")) [
  | inr apart ↦ rw apart refl
  | inl holds ↦
      let e : type_id ≡ "action.refund" = (eq_iff type_id "action.refund").0 holds in
      rw e (rw (no_charge "action.refund" config refl) refl)
]

pub clear_again :
    (type_id : String) (config : Fields)
    → let cleared = clear_examples (examples_of type_id) (repaired type_id config) in
      clear_examples (examples_of type_id) (repaired type_id cleared) ≡ cleared
clear_again type_id config =
    ap (clear_examples (examples_of type_id)) (repaired_again type_id config)
    ∙ clear_cleared (examples_of type_id)
        (clear_examples (examples_of type_id) (repaired type_id config))
        (clear-IsCleared (examples_of type_id) (repaired type_id config)
          (examples_of-IsTable type_id))
