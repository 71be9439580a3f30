-- ===== src/Js/Convert.antt =====
-- `String(v)` and `Number(v)`.
use relay_workflow_automatio.Prelude.{true, false, String}
use Prim.Native.String.{◌++◌}
use relay_workflow_automatio.Js.{
  Num, nan, integer, Value, undefined, null, bool, num, str, arr, obj, Items, nil, cons, or_nullish,
}
use relay_workflow_automatio.Js.Host.{Host}

module _ (host : Host) where
  unfoldable mutual
    pub to_string : Value → String
    to_string undefined = "undefined"
    to_string null = "null"
    to_string (bool true) = "true"
    to_string (bool false) = "false"
    to_string (num n) = host.number_text n
    to_string (str s) = s
    to_string (arr xs) = join_items xs
    to_string (obj fs) = "[object Object]"

    -- `xs.join()`, where an element that is undefined or null is empty
    pub join_items : Items → String
    join_items nil = ""
    join_items (cons undefined vs) = join_rest vs
    join_items (cons null vs) = join_rest vs
    join_items (cons v vs) = to_string v ++ join_rest vs

    pub join_rest : Items → String
    join_rest nil = ""
    join_rest (cons undefined vs) = "," ++ join_rest vs
    join_rest (cons null vs) = "," ++ join_rest vs
    join_rest (cons v vs) = "," ++ (to_string v ++ join_rest vs)

  -- `Number(v)`; an array is read by its text
  unfoldable pub to_number : Value → Num
  to_number undefined = nan
  to_number null = integer 0
  to_number (bool true) = integer 1
  to_number (bool false) = integer 0
  to_number (num n) = n
  to_number (str s) = host.text_number s
  to_number (arr xs) = host.text_number (join_items xs)
  to_number (obj fs) = nan

  -- `String(v ?? "")`
  unfoldable pub text_or_empty : Value → String
  text_or_empty v = to_string (or_nullish v (str ""))
