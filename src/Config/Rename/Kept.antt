-- ===== src/Config/Rename/Kept.antt =====
-- Renaming an input keeps every mapping.
use relay_workflow_automatio.Prelude.{
  inl, inr, true, false, String, some, ◌==◌, ◌≡◌, refl, arith, eq_iff, eq_refl, Bool-cases, subst,
}
use relay_workflow_automatio.Js.{Fields, end, field, keys, get}
use relay_workflow_automatio.Js.Text.{trim}
use relay_workflow_automatio.Config.Rename.{is_taken, rename_keys, rename_decision_input}

same_trim : (a b : String) → a ≡ b → (trim a == trim b) ≡ true
same_trim a b e = rw e (eq_refl (trim b))

get-rename_keys :
    (fs : Fields) (old_name new_name : String)
    → is_taken fs old_name new_name ≡ false
    → get (rename_keys fs old_name new_name) new_name ≡ get fs old_name
unfolding is_taken rename_keys get keys
get-rename_keys end old_name new_name free = refl
get-rename_keys (field k v fs) old_name new_name free = elim (Bool-cases (k == new_name)) [
  | inl e ↦ ground (
    arith,
    same_trim k new_name ((eq_iff k new_name).0 e),
    eq_refl new_name,
    get-rename_keys fs old_name new_name,
  )
  | inr n ↦ ground (arith, eq_refl new_name, get-rename_keys fs old_name new_name)
]

get-rename_keys_other :
    (fs : Fields) (old_name new_name other : String)
    → (other == old_name) ≡ false
    → (other == new_name) ≡ false
    → get (rename_keys fs old_name new_name) other ≡ get fs other
unfolding rename_keys get
get-rename_keys_other end old_name new_name other a b = refl
get-rename_keys_other (field k v fs) old_name new_name other a b = ground (
  arith,
  get-rename_keys_other fs old_name new_name other a b,
  eq_iff k old_name,
  eq_iff k other,
  eq_iff new_name other,
  eq_iff other old_name,
  eq_iff other new_name,
)

-- A renaming that is accepted gives the input its new name and changes no other input.
pub rename_decision_input_keeps :
    (mappings renamed : Fields) (old_name new_name other : String)
    → rename_decision_input mappings old_name new_name ≡ some renamed
    → (other == old_name) ≡ false
    → (other == new_name) ≡ false
    → (get renamed new_name ≡ get mappings old_name) × (get renamed other ≡ get mappings other)
unfolding rename_decision_input
rename_decision_input_keeps mappings renamed old_name new_name other accepted a b =
    let free : is_taken mappings old_name new_name ≡ false = ground arith in
    let same : rename_keys mappings old_name new_name ≡ renamed = ground arith in
    (
      subst (λ fs. get fs new_name ≡ get mappings old_name) same
          (get-rename_keys mappings old_name new_name free),
      subst (λ fs. get fs other ≡ get mappings other) same
          (get-rename_keys_other mappings old_name new_name other a b),
    )
