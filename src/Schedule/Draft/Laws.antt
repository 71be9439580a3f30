-- ===== src/Schedule/Draft/Laws.antt =====
-- Reading back what was written, whatever the storage does.
use text.Mathlib.TextLemmas.{append_cancel_left}
use relay_workflow_automatio.Prelude.{
  true, false, String, some, ◌==◌, ◌≡◌, ◌≢◌, ◌⊎◌, inl, inr, arith, eq_iff, eq_refl, Option-cases,
}
use relay_workflow_automatio.Schedule.Draft.{
  Storage, Drafts, payload_draft_key, read_payload_draft, write_payload_draft, clear_payload_draft,
}

key-ne : (a b : String) → a ≢ b → (payload_draft_key a == payload_draft_key b) ≡ false
unfolding payload_draft_key
key-ne a b h = ground (
  arith,
  eq_iff (payload_draft_key a) (payload_draft_key b),
  append_cancel_left "relay:schedule-payload:" a b,
)

-- A draft that was written is read back as a changed draft with its text, whether the storage
-- exists, can be read or can be written.
pub read-write :
    (id text : String) (d : Drafts)
    → read_payload_draft id (write_payload_draft id text d) ≡ record { text = text; dirty = true }
unfolding read_payload_draft write_payload_draft
read-write id text d = let key = payload_draft_key id in ground (arith, eq_refl key)

-- After a draft was cleared there is none for its workflow, provided that the storage is missing,
-- cannot be read, or could be written.
pub read-clear :
    (id : String) (d : Drafts)
    → ((s : Storage) → d.storage ≡ some s → (s.readable ≡ false) ⊎ (s.writable ≡ true))
    → read_payload_draft id (clear_payload_draft id d) ≡ record { text = "{}"; dirty = false }
unfolding read_payload_draft clear_payload_draft
read-clear id d h = elim (Option-cases d.storage) [
  | inl e ↦ ground (arith, eq_refl (payload_draft_key id))
  | inr (s, e) ↦ ground (arith, h s e, eq_refl (payload_draft_key id))
]

-- Writing or clearing the draft of one workflow changes no other workflow's draft.
pub read_other :
    (id other text : String) (d : Drafts)
    → id ≢ other
    → (read_payload_draft other (write_payload_draft id text d) ≡ read_payload_draft other d)
      × (read_payload_draft other (clear_payload_draft id d) ≡ read_payload_draft other d)
unfolding read_payload_draft write_payload_draft clear_payload_draft
read_other id other text d h = elim (Option-cases d.storage) [
  | inl e ↦ ground (arith, key-ne id other h)
  | inr (s, e) ↦ ground (arith, key-ne id other h)
]
