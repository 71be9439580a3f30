-- ===== src/Config/Patterns.antt =====
-- configValidation.js and branchOptions.js: their regular expressions, as functions on texts.
use relay_workflow_automatio.Prelude.{
  ℕ, code, String, Bool, false, not, ◌&&◌, ◌||◌, Option, none, some, List, [], ◌∷◌, ◌==◌, eqb,
  starts_with, if◌then◌else◌,
}
use relay_workflow_automatio.Js.Text.{
  between, is_space, is_digit, is_capital, is_empty, js_length, split_on, every_char, trim_start,
}

-- a character other than a brace
abbrev pub plain : ℕ → Bool
plain c = not (eqb c b'{' || eqb c b'}')

-- the longest prefix whose characters all have the property, and the rest
pub span : (ℕ → Bool) → String → String × String
span p String.[] = ("", "")
span p (String.◌∷◌ c s) =
    let (a, b) = span p s in if p (code c) then (String.◌∷◌ c a, b) else ("", String.◌∷◌ c s)

-- the rest after a prefix of the given text
pub after : String → String → Option String
after String.[] s = some s
after (String.◌∷◌ c p) String.[] = none
after (String.◌∷◌ c p) (String.◌∷◌ d s) =
    let rest = after p s in if eqb (code c) (code d) then rest else none

-- `[^{}]+\}\}` at the beginning
abbrev closes : String → Bool
closes s = let (inner, rest) = span plain s in not (is_empty inner) && starts_with rest "}}"

abbrev opens_expression : Option String → Bool
opens_expression none = false
opens_expression (some rest) = closes rest

-- `/\{\{[^{}]+\}\}/.test(s)`
pub has_expression : String → Bool
has_expression String.[] = false
has_expression (String.◌∷◌ c s) = opens_expression (after "{{" (String.◌∷◌ c s)) || has_expression s

-- `/^\{\{\s*[^{}]+\s*\}\}$/.test(s)`
abbrev closes_at_end : String → Bool
closes_at_end s = let (inner, rest) = span plain s in not (is_empty inner) && rest == "}}"

abbrev whole_expression : Option String → Bool
whole_expression none = false
whole_expression (some rest) = closes_at_end rest

pub is_expression : String → Bool
is_expression s = whole_expression (after "{{" s)

-- `[0-9a-f]`, in either case
abbrev is_hex : ℕ → Bool
is_hex c = is_digit c || (between b'a' b'f' c || between b'A' b'F' c)

abbrev hex_of : ℕ → String → Bool
hex_of n s = eqb (js_length s) n && every_char is_hex s

abbrev uuid_parts : List String → Bool
uuid_parts (a ∷ b ∷ c ∷ d ∷ e ∷ []) =
    hex_of 8 a && (hex_of 4 b && (hex_of 4 c && (hex_of 4 d && hex_of 12 e)))
uuid_parts _ = false

pub is_uuid : String → Bool
is_uuid s = uuid_parts (split_on b'-' s)

-- Is there a dot that is not the last character?
pub inner_dot : String → Bool
inner_dot String.[] = false
inner_dot (String.◌∷◌ c s) = eqb (code c) b'.' && not (is_empty s) || inner_dot s

abbrev after_first : String → String
after_first String.[] = ""
after_first (String.◌∷◌ c s) = s

abbrev no_space : ℕ → Bool
no_space c = not (is_space c)

-- the parts around the at signs
abbrev email_parts : List String → Bool
email_parts (local ∷ domain ∷ []) = not (is_empty local) && inner_dot (after_first domain)
email_parts _ = false

-- `/^[^\s@]+@[^\s@]+\.[^\s@]+$/.test(s)`: one at sign with something before it, no spaces, and a
-- dot after the at sign that is neither the first nor the last character there
pub is_email : String → Bool
is_email s = every_char no_space s && email_parts (split_on b'@' s)

abbrev decision_char : ℕ → Bool
decision_char c = is_capital c || (is_digit c || eqb c b'_')

-- `/^[A-Z][A-Z0-9_]*$/.test(s)`
pub is_decision_name : String → Bool
is_decision_name String.[] = false
is_decision_name (String.◌∷◌ c s) = is_capital (code c) && every_char decision_char s

-- `[^\s.{}]`
abbrev name_char : ℕ → Bool
name_char c = not (is_space c || eqb c b'.') && plain c

-- `([^\s.{}]+)` at the beginning
abbrev name_of : String × String → Option (String × String)
name_of (name, rest) = if is_empty name then none else some (name, rest)

pub take_name : String → Option (String × String)
take_name s = name_of (span name_char s)

abbrev bind : {A B : Type 0} → Option A → (A → Option B) → Option B
bind none f = none
bind (some a) f = f a

-- `/^\{\{\s*nodes\.([^\s.{}]+)\.([^\s.{}]+)\s*\}\}$/`: the two names
pub node_reference : String → Option (String × String)
node_reference s = bind (after "{{" s) λ inner. bind (after "nodes." (trim_start inner)) λ path.
    bind (take_name path) λ (node, rest). bind (after "." rest) λ more.
      bind (take_name more)
        λ (output, last). if trim_start last == "}}" then some (node, output) else none
