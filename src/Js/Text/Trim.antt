-- ===== src/Js/Text/Trim.antt =====
-- What trimming leaves.
use relay_workflow_automatio.Prelude.{◌≤◌, String, ◌≡◌, refl, arith, ap, ◌∙◌}
use relay_workflow_automatio.Js.Text.{trim_start, trim_end, trim, js_length}

trim_end_idem : (s : String) → trim_end (trim_end s) ≡ trim_end s
unfolding trim_end
trim_end_idem String.[] = refl
trim_end_idem (String.◌∷◌ c s) = ground (arith, trim_end_idem s)

-- A text that does not begin with a space keeps its first character.
trim_start-trim_end : (s : String) → trim_start (trim_end (trim_start s)) ≡ trim_end (trim_start s)
unfolding trim_end trim_start
trim_start-trim_end String.[] = refl
trim_start-trim_end (String.◌∷◌ c s) = ground (arith, trim_start-trim_end s)

pub trim_idem : (s : String) → trim (trim s) ≡ trim s
unfolding trim
trim_idem s = ap trim_end (trim_start-trim_end s) ∙ trim_end_idem (trim_start s)

length-trim_end : (s : String) → js_length (trim_end s) ≤ js_length s
unfolding trim_end js_length
length-trim_end String.[] = omega arith
length-trim_end (String.◌∷◌ c s) = ground (arith, length-trim_end s)

length-trim_start : (s : String) → js_length (trim_start s) ≤ js_length s
unfolding trim_start js_length
length-trim_start String.[] = omega arith
length-trim_start (String.◌∷◌ c s) = ground (arith, length-trim_start s)

pub length-trim : (s : String) → js_length (trim s) ≤ js_length s
unfolding trim
length-trim s = omega (arith, length-trim_end (trim_start s), length-trim_start s)
