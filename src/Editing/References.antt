-- ===== src/Editing/References.antt =====
-- WorkflowBuilder.jsx, removeNodeOutputReferences: the references to a deleted node are taken out of
-- the configurations. The regular expression is read at a place as a function of the text from there:
-- `{{ nodes.<id> }}`, with a path after a point where there is one.
use relay_workflow_automatio.Prelude.{
  ℕ, zero, suc, ◌-◌, Bool, not, ◌||◌, String, Option, none, some, code, eqb, if◌then◌else◌,
}
use relay_workflow_automatio.Js.{
  Value, undefined, null, bool, num, str, arr, obj, Items, nil, cons, Fields, field, end,
}
use relay_workflow_automatio.Js.Text.{trim_start}

-- what follows a word that stands here
unfoldable pub after : String → String → Option String
after String.[] s = some s
after (String.◌∷◌ c w) String.[] = none
after (String.◌∷◌ c w) (String.◌∷◌ d s) =
    let rest = after w s in if eqb (code c) (code d) then rest else none

-- `[^{}]`
abbrev is_plain : ℕ → Bool
is_plain u = not (eqb u 0x7b || eqb u 0x7d)

unfoldable pub skip_plain : String → String
skip_plain String.[] = ""
skip_plain (String.◌∷◌ c s) =
    let rest = skip_plain s in if is_plain (code c) then rest else String.◌∷◌ c s

-- `\.[^{}]+`, which takes the spaces after it too
abbrev path_end : String → Option String
path_end String.[] = none
path_end (String.◌∷◌ c s) = if is_plain (code c) then after "}}" (skip_plain s) else none

-- `(?:\.[^{}]+)?\s*\}\}`
abbrev closing : String → Option String
closing s = elim (after "." s) [ some path ↦ path_end path | none ↦ after "}}" (trim_start s) ]

abbrev then_after : String → Option String → Option String
then_after word none = none
then_after word (some s) = after word s

abbrev then_closing : Option String → Option String
then_closing none = none
then_closing (some s) = closing s

abbrev trimmed : Option String → Option String
trimmed none = none
trimmed (some s) = some (trim_start s)

-- what follows a reference that stands here
unfoldable pub reference_end : String → String → Option String
reference_end id s = then_closing (then_after id (then_after "nodes." (trimmed (after "{{" s))))

unfoldable pub text_length : String → ℕ
text_length String.[] = 0
text_length (String.◌∷◌ c s) = suc (text_length s)

-- `value.replace(expression, "")`: `inside` characters of the last match are still to be passed.
unfoldable pub without_references : String → ℕ → String → String
without_references id inside String.[] = ""
without_references id (suc inside) (String.◌∷◌ c s) = without_references id inside s
without_references id zero (String.◌∷◌ c s) = elim (reference_end id (String.◌∷◌ c s)) [
  | none ↦ String.◌∷◌ c (without_references id 0 s)
  | some rest ↦ without_references id (text_length s - text_length rest) s
]

unfoldable mutual
  pub remove_node_output_references : String → Value → Value
  remove_node_output_references id undefined = undefined
  remove_node_output_references id null = null
  remove_node_output_references id (bool b) = bool b
  remove_node_output_references id (num n) = num n
  remove_node_output_references id (str s) = str (without_references id 0 s)
  remove_node_output_references id (arr xs) = arr (remove_from_items id xs)
  remove_node_output_references id (obj fs) = obj (remove_from_fields id fs)

  pub remove_from_items : String → Items → Items
  remove_from_items id nil = nil
  remove_from_items id (cons v vs) =
      cons (remove_node_output_references id v) (remove_from_items id vs)

  pub remove_from_fields : String → Fields → Fields
  remove_from_fields id end = end
  remove_from_fields id (field k v fs) =
      field k (remove_node_output_references id v) (remove_from_fields id fs)
