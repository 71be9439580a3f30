-- ===== src/Examples/Runs.antt =====
-- Executions on the canvas, and a payload in sections.
use relay_workflow_automatio.Prelude.{
  ℕ, false, String, none, some, List, [], ◌∷◌, map, In, ◌≡◌, ◌≢◌, refl, arith,
}
use relay_workflow_automatio.Js.{Value, str, obj, end, field, prop, strict_eq}
use relay_workflow_automatio.Executions.Status.{latest_canvas_run}
use relay_workflow_automatio.Executions.Status.Latest.{IsPreferred, latest_canvas_run-IsPreferred}
use relay_workflow_automatio.Executions.Canvas.{Step, by_node}
use relay_workflow_automatio.Executions.Canvas.Recorded.{IsNewest, by_node-IsNewest}
use relay_workflow_automatio.Executions.Payload.{section_total, payload_section, slice, boundary}
use relay_workflow_automatio.Executions.Payload.Tiles.{joined, payload_sections_tile}
use relay_workflow_automatio.Js.Text.{is_space}
use relay_workflow_automatio.Executions.Tokens.{
  Token, punctuation, key, number, is_word, string_rest, match_length, matches, kind_of,
  tokens_from, payload_tokens,
}
use relay_workflow_automatio.Executions.Tokens.Tiles as Tokens
use relay_workflow_automatio.Executions.Tokens.Tiles.{payload_tokens_tile}
use relay_workflow_automatio.Examples.Samples.{host}

abbrev run : String → String → Value
run version status = obj (
    field "workflow_id" (str "w")
      (field "workflow_version_id" (str version) (field "status" (str status) end)))

abbrev runs : List Value
runs = run "v1" "completed" ∷ run "v2" "completed" ∷ run "v2" "running" ∷ []

latest_canvas_run-IsPreferred_example :
    ((r : Value)
      → latest_canvas_run host runs (str "w") (str "v2") ≡ some r
      → IsPreferred host runs (str "w") (str "v2") r)
    × (latest_canvas_run host runs (str "w") (str "v2") ≡ none
        → (x : Value) → In x runs
        → strict_eq (prop x "workflow_id") (str "w") ≡ false)
latest_canvas_run-IsPreferred_example = latest_canvas_run-IsPreferred host runs (str "w") (str "v2")

abbrev step : String → ℕ → ℕ → Step
step node_id sequence attempt = record {
  id = node_id;
  node_id = node_id;
  status = "completed";
  sequence = sequence;
  attempt = attempt;
}

abbrev steps : List Step
steps = step "a" 1 1 ∷ step "a" 1 2 ∷ step "gone" 2 1 ∷ []

by_node-IsNewest_example :
    ((s : Step) → by_node steps "a" ≡ some s → IsNewest (λ t. In t steps) "a" s)
    × (by_node steps "a" ≡ none → (t : Step) → In t steps → t.node_id ≢ "a")
by_node-IsNewest_example = by_node-IsNewest steps "a"

-- A section ends before a pair that it cannot hold.
abbrev text : List ℕ
text = 0x61 ∷ 0xd83d ∷ 0xde00 ∷ 0x62 ∷ []

first_section : (payload_section 2 text 0).text ≡ 0x61 ∷ []
unfolding payload_section section_total slice boundary
first_section = refl

payload_sections_tile_example : joined 2 text (section_total 2 text) ≡ text
payload_sections_tile_example = payload_sections_tile 2 text (omega arith)

-- `{"a": -1}` from the second unit on
abbrev json : List ℕ
json = 0x7b ∷ 0x22 ∷ 0x61 ∷ 0x22 ∷ 0x3a ∷ 0x20 ∷ 0x2d ∷ 0x31 ∷ 0x7d ∷ []

json_kinds :
    map (λ (t : Token). t.kind) (payload_tokens json 0 9)
    ≡ punctuation ∷ key ∷ punctuation ∷ number ∷ punctuation ∷ []
unfolding payload_tokens matches match_length string_rest is_word tokens_from kind_of slice is_space
json_kinds = refl

payload_tokens_tile_example : Tokens.joined (payload_tokens json 2 7) ≡ slice 2 7 json
payload_tokens_tile_example = payload_tokens_tile json 2 7 (omega arith)
