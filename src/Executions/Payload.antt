-- ===== src/Executions/Payload.antt =====
-- lib/executionPayload.js: a payload's text, shown in sections. A text is the list of its UTF-16
-- units.
pub mod Tiles
use Prim.Native.String.{◌++◌}
use relay_workflow_automatio.Prelude.{
  ℕ, zero, suc, ◌+◌, ◌-◌, ◌*◌, ◌/◌, ◌%◌, Bool, true, false, ◌&&◌, String, Option, none, some, List,
  [], ◌∷◌, length, ltb, leb, ◌==◌, has, if◌then◌else◌,
}
use relay_workflow_automatio.Js.{integer, Value, undefined, null, is_undefined}
use relay_workflow_automatio.Js.Host.{Host}
use relay_workflow_automatio.Js.Text.{between}

abbrev pub payload_section_size : ℕ
payload_section_size = 12000

-- `["failed", "dead_lettered"]` show the error first, a completed execution its output.
unfoldable pub default_payload_tab : Host → String → String
default_payload_tab host status =
    let normalized = host.to_lower status in
    if has normalized ("failed" ∷ "dead_lettered" ∷ [])
    then "error"
    else if normalized == "completed"
    then "output"
    else "input"

unfoldable pub serialize_payload : Host → Value → String
serialize_payload host value = host.json_pretty (if is_undefined value then null else value)

abbrev pub Units : Type 0
Units = List ℕ

abbrev pub unit_at : Units → ℕ → Option ℕ
unit_at [] i = none
unit_at (u ∷ us) zero = some u
unit_at (u ∷ us) (suc i) = unit_at us i

abbrev pub unit_in : ℕ → ℕ → Option ℕ → Bool
unit_in lo hi none = false
unit_in lo hi (some u) = between lo hi u

abbrev pub first_units : ℕ → Units → Units
first_units zero us = []
first_units (suc n) [] = []
first_units (suc n) (u ∷ us) = u ∷ first_units n us

abbrev pub skip_units : ℕ → Units → Units
skip_units zero us = us
skip_units (suc n) [] = []
skip_units (suc n) (u ∷ us) = skip_units n us

-- `text.slice(start, end)`
unfoldable pub slice : ℕ → ℕ → Units → Units
slice start end us = first_units (end - start) (skip_units start us)

abbrev pub smaller : ℕ → ℕ → ℕ
smaller a b = if leb a b then a else b

abbrev pub larger : ℕ → ℕ → ℕ
larger a b = if leb a b then b else a

-- A position between the halves of a pair moves before the pair.
unfoldable pub boundary : Units → ℕ → ℕ
boundary text position =
    if ltb 0 position
      && ltb position (length text)
      && unit_in 0xd800 0xdbff (unit_at text (position - 1))
      && unit_in 0xdc00 0xdfff (unit_at text position)
    then position - 1
    else position

-- `Math.max(1, Math.ceil(text.length / size))`
unfoldable pub section_total : ℕ → Units → ℕ
section_total size text = larger 1 ((length text + (size - 1)) / size)

pub record Section : Type 0 where
  pub page : ℕ
  pub total : ℕ
  pub start : ℕ
  pub end : ℕ
  pub text : Units

abbrev section_of : ℕ → Units → ℕ → ℕ → Section
section_of size text total page =
    let start = boundary text (page * size) in
    let end = boundary text (smaller ((page + 1) * size) (length text)) in
    record { page = page; total = total; start = start; end = end; text = slice start end text }

unfoldable pub payload_section : ℕ → Units → ℕ → Section
payload_section size text requested =
    section_of size text (section_total size text) (smaller requested (section_total size text - 1))

-- `(bytes / unit).toFixed(1)`, rounded half up, which is exact at powers of two
abbrev tenths_text : Host → ℕ → ℕ → String
tenths_text host unit bytes =
    let tenths = (bytes * 10 + unit / 2) / unit in
    host.number_text (integer (tenths / 10)) ++ ("." ++ host.number_text (integer (tenths % 10)))

unfoldable pub payload_size_label : Host → ℕ → String
payload_size_label host bytes =
    if ltb bytes 1024
    then host.number_text (integer bytes) ++ " B"
    else if ltb bytes (1024 * 1024)
    then tenths_text host 1024 bytes ++ " KB"
    else tenths_text host (1024 * 1024) bytes ++ " MB"
