-- ===== src/Config/Rename.antt =====
-- configValidation.js: `renameDecisionInput`.
pub mod Kept
use relay_workflow_automatio.Prelude.{
  Bool, true, false, not, ◌&&◌, String, Option, none, some, any, ◌==◌, if◌then◌else◌,
}
use relay_workflow_automatio.Js.{Fields, end, field, keys}
use relay_workflow_automatio.Js.Text.{trim}

-- another input has the new name already, up to spaces around it
unfoldable pub is_taken : Fields → String → String → Bool
is_taken mappings old_name new_name =
    any (λ name. not (name == old_name) && trim name == trim new_name) (keys mappings)

unfoldable pub rename_keys : Fields → String → String → Fields
rename_keys end old_name new_name = end
rename_keys (field key value fs) old_name new_name =
    field (if key == old_name then new_name else key) value (rename_keys fs old_name new_name)

unfoldable pub rename_decision_input : Fields → String → String → Option Fields
rename_decision_input mappings old_name new_name =
    if is_taken mappings old_name new_name
    then none
    else some (rename_keys mappings old_name new_name)
