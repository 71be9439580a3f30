-- ===== src/Schedule/Draft.antt =====
-- scheduleTrigger.js: trigger payloads, and the drafts that are kept until a schedule is saved.
pub mod Laws
use Prim.Native.String.{◌++◌}
use relay_workflow_automatio.Prelude.{
  Bool, true, false, String, Option, none, some, List, [], ◌∷◌, ◌==◌, if◌then◌else◌,
}
use relay_workflow_automatio.Js.{Value, obj, Fields, end, is_record, prop, or_nullish}
use relay_workflow_automatio.Js.Host.{Host}
use relay_workflow_automatio.Js.Text.{trim}

pub data ParsedPayload : Type 0 where
  input : Value → ParsedPayload
  rejected : String → ParsedPayload

-- A JSON object, or the reason why the text is none.
abbrev pub parsed_object : String → String → Option Value → ParsedPayload
parsed_object bad_syntax bad_type none = rejected bad_syntax
parsed_object bad_syntax bad_type (some v) = if is_record v then input v else rejected bad_type

unfoldable pub parse_trigger_payload : Host → String → ParsedPayload
parse_trigger_payload host text =
    let source = trim text in
    parsed_object "Invalid JSON format. Check your syntax." "Trigger payload must be a JSON object."
      (host.parse_json (if source == "" then "{}" else source))

-- A map from keys to texts: `get` and `getItem` apply it.
abbrev pub Texts : Type 0
Texts = String → Option String

-- `map.set(key, text)` and `setItem`
abbrev pub set_text : String → String → Texts → Texts
set_text key text m k = if key == k then some text else m k

-- `map.delete(key)` and `removeItem`
abbrev pub drop_text : String → Texts → Texts
drop_text key m k = if key == k then none else m k

-- The browser's storage: what it holds, and whether reading and writing it throw.
pub record Storage : Type 0 where
  pub stored : Texts
  pub readable : Bool
  pub writable : Bool

-- The module's `payloadDrafts` and the storage, if there is one.
pub record Drafts : Type 0 where
  pub memory : Texts
  pub storage : Option Storage

pub record PayloadDraft : Type 0 where
  pub text : String
  pub dirty : Bool

unfoldable pub payload_draft_key : String → String
payload_draft_key workflow_id = "relay:schedule-payload:" ++ workflow_id

-- `storage?.getItem(key) ?? undefined`, where an exception leaves the text undefined
abbrev stored_item : String → Option Storage → Option String
stored_item key none = none
stored_item key (some s) = if s.readable then s.stored key else none

abbrev draft_of : Option String → PayloadDraft
draft_of none = record { text = "{}"; dirty = false }
draft_of (some t) = record { text = t; dirty = true }

abbrev or_stored : Option String → Option String → Option String
or_stored (some t) stored = some t
or_stored none stored = stored

unfoldable pub read_payload_draft : String → Drafts → PayloadDraft
read_payload_draft workflow_id d =
    let key = payload_draft_key workflow_id in
    draft_of (or_stored (d.memory key) (stored_item key d.storage))

-- a write to the storage, whose exception is swallowed
abbrev on_storage : (Texts → Texts) → Option Storage → Option Storage
on_storage f none = none
on_storage f (some s) = if s.writable then some (record s { stored = f s.stored }) else some s

unfoldable pub write_payload_draft : String → String → Drafts → Drafts
write_payload_draft workflow_id text d =
    let key = payload_draft_key workflow_id in
    record {
      memory = set_text key text d.memory;
      storage = on_storage (set_text key text) d.storage;
    }

unfoldable pub clear_payload_draft : String → Drafts → Drafts
clear_payload_draft workflow_id d =
    let key = payload_draft_key workflow_id in
    record { memory = drop_text key d.memory; storage = on_storage (drop_text key) d.storage }

pub payload_draft_from_schedule : Host → PayloadDraft → Value → PayloadDraft
payload_draft_from_schedule host draft schedule = if draft.dirty then draft else record {
  text = host.json_pretty (or_nullish (prop schedule "input_data") (obj end));
  dirty = false;
}
