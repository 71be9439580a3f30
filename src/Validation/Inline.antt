-- ===== src/Validation/Inline.antt =====
-- useWorkflowValidation.js: the validation of the canvas while it is edited. The effect of the hook
-- runs anew for each definition: it waits on a timer, asks the server, and keeps the answer unless
-- the hook has been cleaned up for a later definition.
pub mod Cleaned
pub mod Fresh
pub mod Runs
pub mod Origin
use relay_workflow_automatio.Prelude.{
  ℕ, zero, suc, ◌<◌, Bool, true, false, not, String, Option, none, some, List, [], ◌∷◌, ◌≡◌, ◌==◌,
  eqb, if◌then◌else◌,
}
use relay_workflow_automatio.Js.{Value, str, arr, Fields, cons, nil}
use relay_workflow_automatio.Js.Host.{Host}
use relay_workflow_automatio.Js.Effect.{Error, Result, ok, throws}
use relay_workflow_automatio.Graph.{Edge}
use relay_workflow_automatio.Saving.Snapshot.{SavedNode, workflow_save_snapshot}
use relay_workflow_automatio.Validation.Definition.{workflow_definition}
use relay_workflow_automatio.Validation.Answer.{Checked, after_request, if_current, invalid_sample}

-- The arguments of the hook.
pub record Shown : Type 0 where
  pub nodes : List SavedNode
  pub edges : List Edge
  pub sample_text : String
  pub scope : Value

-- `key`
unfoldable pub key_of : Host → Shown → String
key_of host shown = host.json_text (
    arr (
      cons shown.scope (
        cons (str (workflow_save_snapshot host shown.nodes shown.edges))
          (cons (str shown.sample_text) nil))))

-- Where a run of the effect is: its timer runs or was cleared, the server is asked, or it is over
-- with what `validateCanvas` gave.
pub data Stage : Type 0 where
  timing cleared : Stage
  asking : Fields → Stage
  over : Option Checked → Stage

-- `on` is what the run closes over, `current` its flag.
pub record Run : Type 0 where
  pub on : Shown
  pub current : Bool
  pub stage : Stage

-- What passes between a run and the server.
pub data Event : Type 0 where
  asked : ℕ → Fields → Event
  answered : ℕ → Result Value → Event

-- The runs have the numbers below `started`; `log` has the last event first.
pub record Hook : Type 0 where
  pub key : String
  pub validation : Option (String × Checked)
  pub runs : ℕ → Run
  pub started : ℕ
  pub log : List Event

abbrev pub update : {A : Type 0} → (ℕ → A) → ℕ → A → ℕ → A
update f i a j = if eqb i j then a else f j

-- `current = false; window.clearTimeout(timer)`
abbrev pub cleared_stage : Stage → Stage
cleared_stage timing = cleared
cleared_stage stage = stage

unfoldable pub clean_up : Run → Run
clean_up r = record r { current = false; stage = cleared_stage r.stage }

abbrev pub new_run : Shown → Run
new_run shown = record { on = shown; current = true; stage = timing }

-- the clean-up of the last run, where there is one
abbrev pub clean_last : ℕ → (ℕ → Run) → ℕ → Run
clean_last zero runs = runs
clean_last (suc i) runs = update runs i (clean_up (runs i))

module _ (host : Host) where
  -- the first rendering
  unfoldable pub mount : Shown → Hook
  mount shown = record {
    key = key_of host shown;
    validation = none;
    runs = λ i. new_run shown;
    started = 1;
    log = [];
  }

  abbrev pub restart : Shown → Hook → Hook
  restart shown s = record s {
    key = key_of host shown;
    runs = update (clean_last s.started s.runs) s.started (new_run shown);
    started = suc s.started;
  }

  -- a rendering: the effect runs anew if the key has changed
  unfoldable pub render : Shown → Hook → Hook
  render shown s = if key_of host shown == s.key then s else restart shown s

  -- the hook goes away
  unfoldable pub unmount : Hook → Hook
  unmount s = record s { runs = clean_last s.started s.runs }

  -- `if (result) setValidation({ key, result })`
  abbrev pub keep : String → Option Checked → Option (String × Checked) → Option (String × Checked)
  keep key none old = old
  keep key (some c) old = some (key, c)

  abbrev pub finish_run : ℕ → Option Checked → Hook → Hook
  finish_run i o s = record s {
    validation = keep (key_of host (s.runs i).on) o s.validation;
    runs = update s.runs i (record (s.runs i) { stage = over o });
  }

  abbrev pub send_definition : ℕ → Result Fields → Hook → Hook
  send_definition i (throws e) s =
      finish_run i (if_current (s.runs i).current (invalid_sample e.message)) s
  send_definition i (ok d) s = record s {
    runs = update s.runs i (record (s.runs i) { stage = asking d });
    log = asked i d ∷ s.log;
  }

  -- the timer of a run fires: `validateCanvas` up to its wait
  unfoldable pub fire : ℕ → Hook → Hook
  fire i s =
      let on = (s.runs i).on in
      send_definition i (workflow_definition host on.nodes on.edges on.sample_text) s

  -- the server answers a run
  unfoldable pub receive : ℕ → Result Value → Hook → Hook
  receive i r s =
      finish_run i (after_request (s.runs i).current (s.runs i).on.nodes r)
        (record s { log = answered i r ∷ s.log })

  -- One step: a rendering, the end of the hook, a timer, or an answer.
  pub data Step : Hook → Hook → Type 0 where
    rendering : {s : Hook} (shown : Shown) → Step s (render shown s)
    unmounting : {s : Hook} → Step s (unmount s)
    firing : {s : Hook} (i : ℕ) → i < s.started → (s.runs i).stage ≡ timing → Step s (fire i s)
    answering :
        {s : Hook} (i : ℕ) (d : Fields) (r : Result Value)
        → i < s.started
        → (s.runs i).stage ≡ asking d
        → Step s (receive i r s)

  -- what the renderings and answers after the first rendering lead to
  pub data Reach : Hook → Type 0 where
    mounted : (shown : Shown) → Reach (mount shown)
    later : {s t : Hook} → Reach s → Step s t → Reach t

abbrev pub kept_for : String → Option (String × Checked) → Option Checked
kept_for key none = none
kept_for key (some (k, c)) = if k == key then some c else none

-- `result` and `pending` of the hook
unfoldable pub result_of : Hook → Option Checked
result_of s = kept_for s.key s.validation

unfoldable pub is_pending : Hook → Bool
is_pending s = elim s.validation [ none ↦ true | some v ↦ not (v.0 == s.key) ]
