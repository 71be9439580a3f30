-- ===== src/Validation/Answer/Judged.antt =====
-- What the validation of a canvas comes to, whatever the server answers.
use relay_workflow_automatio.Prelude.{Bool, false, Option, none, some, List, ◌∷◌, ◌≡◌, ◌↔◌, ◌⊎◌}
use relay_workflow_automatio.Js.{Value, Fields}
use relay_workflow_automatio.Js.Host.{Host}
use relay_workflow_automatio.Js.Effect.{Error, Result, ok, throws, World, Respond}
use relay_workflow_automatio.Saving.Snapshot.{SavedNode}
use relay_workflow_automatio.Validation.Answer.{Checked}
use relay_workflow_automatio.Validation.Answer.Placed.{IsShown}

-- What is shown as an answer to `response`.
abbrev pub IsJudgement : List SavedNode → Result Value → Checked → Type 0
IsJudgement nodes (throws e) c = c.is_valid ≡ false
IsJudgement nodes (ok v) c = IsShown nodes v c ⊎ (c.is_valid ≡ false)

module _ (host : Host) {S : Type 0} (respond : Respond Fields S) (is_current : S → Bool)
    (nodes : List SavedNode) (w : World Fields S) where
  -- The outcome of a validation of a definition: nothing is shown exactly if the canvas is not
  -- current at the end.
  pub record IsJudged (d : Result Fields) (o : Option Checked) (v : World Fields S) : Type 0 where
    pub dropped : (o ≡ none) ↔ (is_current v.behind ≡ false)
    pub unsent :
        (e : Error) → d ≡ throws e → (v ≡ w) × ((c : Checked) → o ≡ some c → c.is_valid ≡ false)
    pub sent :
        (f : Fields)
        → d ≡ ok f
        → (v.made ≡ f ∷ w.made)
          × (v.behind ≡ (respond f w.behind).1)
          × ((c : Checked) → o ≡ some c → IsJudgement nodes (respond f w.behind).0 c)
