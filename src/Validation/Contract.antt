-- ===== src/Validation/Contract.antt =====
-- workflowValidation.js: what the catalogue of the server says about a type of node. The entries of
-- the catalogue are no nulls.
use relay_workflow_automatio.Prelude.{
  Bool, not, ◌||◌, String, Option, some, List, [], ◌∷◌, any, if◌then◌else◌,
}
use relay_workflow_automatio.Js.{
  Value, undefined, Fields, field, end, prop, is_nullish, is_text, find_in, fields_of,
}

-- `none` where the code throws: the nodes are no array
unfoldable pub contract_for : Value → String → Option Value
contract_for catalog type =
    if is_nullish (prop catalog "nodes")
    then some undefined
    else find_in (λ node. is_text (prop node "node_type") type) (prop catalog "nodes")

abbrev scalars : List String
scalars = "string" ∷ "integer" ∷ "number" ∷ "boolean" ∷ []

abbrev is_scalar : Value → Bool
is_scalar schema = any (λ t. is_text (prop schema "type") t) scalars

-- the names of the entries, of the scalar ones only where that is asked for
unfoldable pub output_names : Bool → Fields → List String
output_names scalar_only end = []
output_names scalar_only (field name schema fs) =
    let rest = output_names scalar_only fs in
    if not scalar_only || is_scalar schema then name ∷ rest else rest

unfoldable pub contract_output_fields : Value → Bool → List String
unfolding output_names
contract_output_fields contract scalar_only =
    output_names scalar_only (fields_of (prop (prop contract "output_schema") "properties"))
