-- ===== src/Validation/Inline/Runs.antt =====
-- A timer that fires and an answer of the server keep what holds of the runs.
use relay_workflow_automatio.Prelude.{
  ℕ, suc, ◌<◌, Bool, true, false, String, Option, none, some, List, ◌∷◌, ◌≡◌, ◌≢◌, refl, sym, ap,
  subst, ◌∙◌, inl, inr, arith, Bool-cases,
}
use relay_workflow_automatio.Js.{Fields, Value}
use relay_workflow_automatio.Js.Host.{Host}
use relay_workflow_automatio.Js.Effect.{Result, ok, throws}
use relay_workflow_automatio.Saving.Snapshot.{SavedNode}
use relay_workflow_automatio.Validation.Definition.{workflow_definition}
use relay_workflow_automatio.Validation.Answer.{
  Checked, after_request, invalid_sample, if_current, or_unavailable, normalize_validation,
  validation_unavailable,
}
use relay_workflow_automatio.Validation.Inline.{
  key_of, timing, asking, over, Run, asked, answered, Hook, update, keep, finish_run,
  send_definition, fire, receive,
}
use relay_workflow_automatio.Validation.Inline.Cleaned.{update_elim}
use relay_workflow_automatio.Validation.Inline.Fresh.{HasOrigin, WasSent, IsFresh, log-IsFresh}

module _ (host : Host) where
  over-eq : (o p : Option Checked) → over o ≡ over p → o ≡ p
  over-eq o p e = ground arith

  -- A run is over.
  module _ {s : Hook} (i : ℕ) (lt : i < s.started)
      (running : (p : Option Checked) → (s.runs i).stage ≢ over p) (h : IsFresh host s) where
    abbrev runs_over : Option Checked → ℕ → Run
    runs_over o = update s.runs i (record (s.runs i) { stage = over o })

    kept-over :
        (o : Option Checked) (k : String) (c : Checked)
        → keep host (key_of host (s.runs i).on) o s.validation ≡ some (k, c)
        → (j : ℕ) × (j < s.started)
          × (key_of host (runs_over o j).on ≡ k)
          × ((runs_over o j).stage ≡ over (some c))
    kept-over none k c e =
        let (j, at, key, was) = h.kept k c e in
        (
          j,
          at,
          update_elim (λ r. key_of host r.on ≡ k) s.runs i _ j
              (λ here. absurd (running (some c) (ap (λ m. (s.runs m).stage) here ∙ was)))
              (λ _. key),
          update_elim (λ r. r.stage ≡ over (some c)) s.runs i _ j
              (λ here. absurd (running (some c) (ap (λ m. (s.runs m).stage) here ∙ was)))
              (λ _. was),
        )
    kept-over (some d) k c e = (
      i,
      lt,
      update_elim (λ r. key_of host r.on ≡ k) s.runs i _ i (λ here. ground arith)
          (λ other. absurd (other refl)),
      update_elim (λ r. r.stage ≡ over (some c)) s.runs i _ i (λ here. ground arith)
          (λ other. absurd (other refl)),
    )

    finish-IsFresh :
        (o : Option Checked)
        → ((s.runs i).current ≡ true → (c : Checked) × (o ≡ some c))
        → ((s.runs i).current ≡ false → o ≡ none)
        → ((c : Checked) → o ≡ some c → HasOrigin host s.log i (s.runs i).on c)
        → IsFresh host (finish_run host i o s)
    finish-IsFresh o if_on if_off origin = record {
      only_last = λ j below.
          update_elim (λ r. r.current ≡ true → suc j ≡ s.started) s.runs i _ j
            (λ here a. subst (λ m. suc m ≡ s.started) here (h.only_last i lt a))
            (λ _ a. h.only_last j below a);
      keyed = λ j e.
          update_elim (λ r. key_of host r.on ≡ s.key) s.runs i _ j (λ here. h.keyed i (omega arith))
            (λ _. h.keyed j e);
      sent = λ j d below.
          update_elim (λ r. r.stage ≡ asking d → WasSent host s.log j r.on d) s.runs i _ j
            (λ here a. absurd (ground arith)) (λ _ a. h.sent j d below a);
      ended = λ j c below.
          update_elim (λ r. r.stage ≡ over (some c) → HasOrigin host s.log j r.on c) s.runs i _ j
            (λ here a.
              subst (λ m. HasOrigin host s.log m (s.runs i).on c) here
                (origin c (over-eq o (some c) a)))
            (λ _ a. h.ended j c below a);
      kept = kept-over o;
      settled = λ j p e.
          update_elim
            (λ r.
              r.current ≡ true
              → r.stage ≡ over p
              → (c : Checked) × (p ≡ some c)
                × (keep host (key_of host (s.runs i).on) o s.validation ≡ some (s.key, c)))
            s.runs i _ j
            (λ here a b.
              let (c, is_some) = if_on a in
              (
                c,
                sym (over-eq o p b) ∙ is_some,
                ap (λ x. keep host (key_of host (s.runs i).on) x s.validation) is_some
                    ∙ ap (λ k. some (k, c)) (h.keyed i (omega arith)),
              ))
            (λ other a b.
              let (c, is_some, was) = h.settled j p e a b in
              let off : (s.runs i).current ≡ false = elim (Bool-cases (s.runs i).current) [
                | inl on ↦ absurd (other (omega (arith, h.only_last i lt on)))
                | inr off ↦ off
              ] in
              (
                c,
                is_some,
                ap (λ x. keep host (key_of host (s.runs i).on) x s.validation) (if_off off) ∙ was,
              ));
    }

  if_current-off : (b : Bool) (c : Checked) → b ≡ false → if_current b c ≡ none
  if_current-off b c e = rw e refl

  after_request-on :
      (b : Bool) (nodes : List SavedNode) (r : Result Value)
      → b ≡ true
      → (c : Checked) × (after_request b nodes r ≡ some c)
  unfolding after_request
  after_request-on b nodes (ok v) e = (or_unavailable (normalize_validation v nodes), rw e refl)
  after_request-on b nodes (throws x) e = (validation_unavailable, rw e refl)

  after_request-off :
      (b : Bool) (nodes : List SavedNode) (r : Result Value)
      → b ≡ false
      → after_request b nodes r ≡ none
  unfolding after_request
  after_request-off b nodes (ok v) e = rw e refl
  after_request-off b nodes (throws x) e = rw e refl

  pub receive-IsFresh :
      {s : Hook} (i : ℕ) (d : Fields) (r : Result Value)
      → i < s.started
      → (s.runs i).stage ≡ asking d
      → IsFresh host s
      → IsFresh host (receive host i r s)
  unfolding receive
  receive-IsFresh {s} i d r lt at h =
      let run = s.runs i in
      let (wd, was) = h.sent i d lt at in
      finish-IsFresh i lt (λ p e. absurd (ground arith)) (log-IsFresh host (answered i r) h)
        (after_request run.current run.on.nodes r) (after_request-on run.current run.on.nodes r)
        (after_request-off run.current run.on.nodes r)
        (λ c e. inr (d, r, wd, inr was, inl refl, only_on run.current c e))
    where
      only_on :
          (b : Bool) (c : Checked)
          → after_request b (s.runs i).on.nodes r ≡ some c
          → after_request true (s.runs i).on.nodes r ≡ some c
      only_on true c e = e
      only_on false c e =
          let gone = after_request-off false (s.runs i).on.nodes r refl in absurd (ground arith)

  -- A run asks the server about the definition of its canvas.
  asked-IsFresh :
      {s : Hook} (i : ℕ) (d : Fields)
      → workflow_definition host (s.runs i).on.nodes (s.runs i).on.edges (s.runs i).on.sample_text
        ≡ ok d
      → i < s.started
      → ((p : Option Checked) → (s.runs i).stage ≢ over p)
      → IsFresh host s
      → IsFresh host (send_definition host i (ok d) s)
  asked-IsFresh {s} i d wd lt running before =
      let h = log-IsFresh host (asked i d) before in
      record {
        only_last = λ j below.
            update_elim (λ r. r.current ≡ true → suc j ≡ s.started) s.runs i _ j
              (λ here a. subst (λ m. suc m ≡ s.started) here (h.only_last i lt a))
              (λ _ a. h.only_last j below a);
        keyed = λ j e.
            update_elim (λ r. key_of host r.on ≡ s.key) s.runs i _ j
              (λ here. h.keyed i (omega arith)) (λ _. h.keyed j e);
        sent = λ j c below.
            update_elim (λ r. r.stage ≡ asking c → WasSent host (asked i d ∷ s.log) j r.on c) s.runs
              i _ j
              (λ here a.
                let same : d ≡ c = ground arith in
                subst (λ m. WasSent host (asked i d ∷ s.log) m (s.runs i).on c) here
                  (wd ∙ ap (λ f. ok f) same, inl (ap (asked i) (sym same))))
              (λ _ a. h.sent j c below a);
        ended = λ j c below.
            update_elim (λ r. r.stage ≡ over (some c) → HasOrigin host (asked i d ∷ s.log) j r.on c)
              s.runs i _ j (λ here a. absurd (ground arith)) (λ _ a. h.ended j c below a);
        kept = λ k c e.
            let (j, at, key, was) = h.kept k c e in
            (
              j,
              at,
              update_elim (λ r. key_of host r.on ≡ k) s.runs i _ j
                  (λ here. absurd (running (some c) (ap (λ m. (s.runs m).stage) here ∙ was)))
                  (λ _. key),
              update_elim (λ r. r.stage ≡ over (some c)) s.runs i _ j
                  (λ here. absurd (running (some c) (ap (λ m. (s.runs m).stage) here ∙ was)))
                  (λ _. was),
            );
        settled = λ j o e.
            update_elim
              (λ r.
                r.current ≡ true
                → r.stage ≡ over o
                → (c : Checked) × (o ≡ some c) × (s.validation ≡ some (s.key, c)))
              s.runs i _ j (λ here a b. absurd (ground arith)) (λ _ a b. h.settled j o e a b);
      }

  pub fire-IsFresh :
      {s : Hook} (i : ℕ)
      → i < s.started
      → (s.runs i).stage ≡ timing
      → IsFresh host s
      → IsFresh host (fire host i s)
  unfolding fire
  fire-IsFresh {s} i lt at h =
      go
        (workflow_definition host (s.runs i).on.nodes (s.runs i).on.edges (s.runs i).on.sample_text)
        refl
    where
      shown_on : (b : Bool) (c d : Checked) → if_current b c ≡ some d → d ≡ c
      shown_on true c d e = ground arith
      shown_on false c d e = absurd (ground arith)

      go :
          (w : Result Fields)
          → workflow_definition host
              (s.runs i).on.nodes
              (s.runs i).on.edges
              (s.runs i).on.sample_text
            ≡ w
          → IsFresh host (send_definition host i w s)
      go (throws x) e =
          finish-IsFresh i lt (λ p over. absurd (ground arith)) h
            (if_current (s.runs i).current (invalid_sample x.message))
            (λ on. (invalid_sample x.message, rw on refl))
            (if_current-off (s.runs i).current (invalid_sample x.message))
            (λ c is_c. inl (x, e, shown_on (s.runs i).current (invalid_sample x.message) c is_c))
      go (ok d) e = asked-IsFresh i d e lt (λ p over. absurd (ground arith)) h
