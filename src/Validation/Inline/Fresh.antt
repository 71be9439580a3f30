-- ===== src/Validation/Inline/Fresh.antt =====
-- What holds of the runs of the effect, and that a rendering and a clean-up keep it.
use relay_workflow_automatio.Prelude.{
  ℕ, suc, ◌<◌, true, String, Option, some, List, ◌∷◌, ◌≡◌, ◌≢◌, refl, sym, ap, subst, ◌∙◌, ◌⊎◌, inl,
  inr, arith, ◌==◌, Bool-cases, In,
}
use relay_workflow_automatio.Js.{Fields, Value}
use relay_workflow_automatio.Js.Host.{Host}
use relay_workflow_automatio.Js.Effect.{Error, Result, ok, throws}
use relay_workflow_automatio.Validation.Definition.{workflow_definition}
use relay_workflow_automatio.Validation.Answer.{Checked, after_request, invalid_sample}
use relay_workflow_automatio.Validation.Inline.{
  Shown, key_of, asking, over, Run, Event, asked, answered, Hook, update, clean_last, new_run,
  mount, render,
}
use relay_workflow_automatio.Validation.Inline.Cleaned.{
  update_elim, IsCleaned, clean_last-IsCleaned,
}

module _ (host : Host) where
  -- What `validateCanvas` comes to for the canvas of a run, by what passed between it and the server.
  abbrev pub HasOrigin : List Event → ℕ → Shown → Checked → Type 0
  HasOrigin log i on c =
      ((e : Error) × (workflow_definition host on.nodes on.edges on.sample_text ≡ throws e)
        × (c ≡ invalid_sample e.message))
      ⊎ ((d : Fields) × (r : Result Value) × (workflow_definition host on.nodes on.edges
              on.sample_text
            ≡ ok d)
          × In (asked i d) log
          × In (answered i r) log
          × (after_request true on.nodes r ≡ some c))

  -- the run has asked about its own canvas
  abbrev pub WasSent : List Event → ℕ → Shown → Fields → Type 0
  WasSent log i on d =
      (workflow_definition host on.nodes on.edges on.sample_text ≡ ok d) × In (asked i d) log

  pub record IsFresh (s : Hook) : Type 0 where
    pub only_last : (i : ℕ) → i < s.started → (s.runs i).current ≡ true → suc i ≡ s.started
    pub keyed : (i : ℕ) → suc i ≡ s.started → key_of host (s.runs i).on ≡ s.key
    pub sent :
        (i : ℕ) (d : Fields)
        → i < s.started
        → (s.runs i).stage ≡ asking d
        → WasSent s.log i (s.runs i).on d
    pub ended :
        (i : ℕ) (c : Checked)
        → i < s.started
        → (s.runs i).stage ≡ over (some c)
        → HasOrigin s.log i (s.runs i).on c
    pub kept :
        (k : String) (c : Checked)
        → s.validation ≡ some (k, c)
        → (i : ℕ) × (i < s.started)
          × (key_of host (s.runs i).on ≡ k)
          × ((s.runs i).stage ≡ over (some c))
    pub settled :
        (i : ℕ) (o : Option Checked)
        → suc i ≡ s.started
        → (s.runs i).current ≡ true
        → (s.runs i).stage ≡ over o
        → (c : Checked) × (o ≡ some c) × (s.validation ≡ some (s.key, c))

  log-HasOrigin :
      (e : Event) (log : List Event) (i : ℕ) (on : Shown) (c : Checked)
      → HasOrigin log i on c
      → HasOrigin (e ∷ log) i on c
  log-HasOrigin e log i on c (inl h) = inl h
  log-HasOrigin e log i on c (inr (d, r, h, a, b, f)) = inr (d, r, h, inr a, inr b, f)

  pub log-IsFresh : {s : Hook} (e : Event) → IsFresh s → IsFresh (record s { log = e ∷ s.log })
  log-IsFresh {s} e h = record {
    only_last = h.only_last;
    keyed = h.keyed;
    sent = λ i d lt at. let (wd, a) = h.sent i d lt at in (wd, inr a);
    ended = λ i c lt at. log-HasOrigin e s.log i (s.runs i).on c (h.ended i c lt at);
    kept = h.kept;
    settled = h.settled;
  }

  pub mount-IsFresh : (shown : Shown) → IsFresh (mount host shown)
  unfolding mount
  mount-IsFresh shown = record {
    only_last = λ i lt e. omega arith;
    keyed = λ i e. refl;
    sent = λ i d lt e. absurd (ground arith);
    ended = λ i c lt e. absurd (ground arith);
    kept = λ k c e. absurd (ground arith);
    settled = λ i o e a b. absurd (ground arith);
  }

  pub clean-IsFresh :
      {s : Hook} (runs : ℕ → Run)
      → IsCleaned s.started s.runs runs
      → IsFresh s
      → IsFresh (record s { runs = runs })
  clean-IsFresh {s} runs k h = record {
    only_last = λ i lt e. h.only_last i lt (k.was_current i e);
    keyed = λ i e. ap (key_of host) (k.same i) ∙ h.keyed i e;
    sent = λ i d lt e.
        subst (λ on. WasSent s.log i on d) (sym (k.same i)) (h.sent i d lt (k.was_asking i d e));
    ended = λ i c lt e.
        subst (λ on. HasOrigin s.log i on c) (sym (k.same i))
          (h.ended i c lt (k.was_over i (some c) e));
    kept = λ key c e.
        let (i, lt, at, was) = h.kept key c e in
        (i, lt, ap (key_of host) (k.same i) ∙ at, k.stays i (some c) was);
    settled = λ i o e a b. h.settled i o e (k.was_current i a) (k.was_over i o b);
  }

  -- a new run, where none is current
  begin-IsFresh :
      {s : Hook} (shown : Shown)
      → ((i : ℕ) → i < s.started → (s.runs i).current ≢ true)
      → IsFresh s
      → IsFresh (record s {
        key = key_of host shown;
        runs = update s.runs s.started (new_run shown);
        started = suc s.started;
      })
  begin-IsFresh {s} shown free h = record {
    only_last = λ i lt.
        update_elim (λ r. r.current ≡ true → suc i ≡ suc s.started) s.runs s.started _ i
          (λ e a. omega arith) (λ other a. absurd (free i (omega arith) a));
    keyed = λ i e.
        update_elim (λ r. key_of host r.on ≡ key_of host shown) s.runs s.started _ i (λ here. refl)
          (λ other. absurd (other (omega arith)));
    sent = λ i d lt.
        update_elim (λ r. r.stage ≡ asking d → WasSent s.log i r.on d) s.runs s.started _ i
          (λ e a. absurd (ground arith)) (λ other a. h.sent i d (omega arith) a);
    ended = λ i c lt.
        update_elim (λ r. r.stage ≡ over (some c) → HasOrigin s.log i r.on c) s.runs s.started _ i
          (λ e a. absurd (ground arith)) (λ other a. h.ended i c (omega arith) a);
    kept = λ k c e.
        let (i, lt, at, was) = h.kept k c e in
        (
          i,
          omega arith,
          update_elim (λ r. key_of host r.on ≡ k) s.runs s.started _ i
              (λ here. absurd (omega arith)) (λ _. at),
          update_elim (λ r. r.stage ≡ over (some c)) s.runs s.started _ i
              (λ here. absurd (omega arith)) (λ _. was),
        );
    settled = λ i o e.
        update_elim
          (λ r.
            r.current ≡ true
            → r.stage ≡ over o
            → (c : Checked) × (o ≡ some c) × (s.validation ≡ some (key_of host shown, c)))
          s.runs s.started _ i (λ here a b. absurd (ground arith))
          (λ other. absurd (other (omega arith)));
  }

  pub render-IsFresh : {s : Hook} (shown : Shown) → IsFresh s → IsFresh (render host shown s)
  unfolding render
  render-IsFresh {s} shown h = elim (Bool-cases (key_of host shown == s.key)) [
    | inl same ↦ rw same h
    | inr other ↦
        let k = clean_last-IsCleaned s.started s.runs in
        rw other (
          begin-IsFresh shown (λ i lt e. k.stopped i e (h.only_last i lt (k.was_current i e)))
            (clean-IsFresh (clean_last s.started s.runs) k h))
  ]
