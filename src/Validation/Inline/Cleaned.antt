-- ===== src/Validation/Inline/Cleaned.antt =====
-- What the clean-up of a run changes.
use relay_workflow_automatio.Prelude.{
  ℕ, zero, suc, true, Option, ◌≡◌, ◌≢◌, refl, sym, ap, ◌∙◌, inl, inr, arith, eqb, eqb_iff,
  Bool-cases,
}
use relay_workflow_automatio.Js.{Fields}
use relay_workflow_automatio.Validation.Answer.{Checked}
use relay_workflow_automatio.Validation.Inline.{
  Stage, timing, cleared, asking, over, Run, update, clean_up, cleared_stage, clean_last,
}

-- A value at a number after an update, by cases.
pub update_elim :
    {A : Type 0} (P : A → Type 0) (f : ℕ → A) (i : ℕ) (a : A) (j : ℕ)
    → (i ≡ j → P a)
    → (i ≢ j → P (f j))
    → P (update f i a j)
update_elim P f i a j here there = elim (Bool-cases (eqb i j)) [
  | inl same ↦ rw same (here ((eqb_iff i j).0 same))
  | inr other ↦ rw other (there (λ e. absurd (ground (arith, (eqb_iff i j).1 e))))
]

-- What a clean-up keeps, and that it ends the run before `n`.
pub record IsCleaned (n : ℕ) (runs runs' : ℕ → Run) : Type 0 where
  pub same : (i : ℕ) → (runs' i).on ≡ (runs i).on
  pub stays : (i : ℕ) (o : Option Checked) → (runs i).stage ≡ over o → (runs' i).stage ≡ over o
  pub was_over : (i : ℕ) (o : Option Checked) → (runs' i).stage ≡ over o → (runs i).stage ≡ over o
  pub was_asking : (i : ℕ) (d : Fields) → (runs' i).stage ≡ asking d → (runs i).stage ≡ asking d
  pub was_current : (i : ℕ) → (runs' i).current ≡ true → (runs i).current ≡ true
  pub stopped : (i : ℕ) → (runs' i).current ≡ true → suc i ≢ n

cleared-over : (t : Stage) (o : Option Checked) → cleared_stage t ≡ over o → t ≡ over o
cleared-over timing o e = absurd (ground arith)
cleared-over cleared o e = e
cleared-over (asking d) o e = e
cleared-over (over p) o e = e

cleared-asking : (t : Stage) (d : Fields) → cleared_stage t ≡ asking d → t ≡ asking d
cleared-asking timing d e = absurd (ground arith)
cleared-asking cleared d e = e
cleared-asking (asking c) d e = e
cleared-asking (over p) d e = e

pub clean_last-IsCleaned : (n : ℕ) (runs : ℕ → Run) → IsCleaned n runs (clean_last n runs)
unfolding clean_up
clean_last-IsCleaned zero runs = record {
  same = λ i. refl;
  stays = λ i o e. e;
  was_over = λ i o e. e;
  was_asking = λ i d e. e;
  was_current = λ i e. e;
  stopped = λ i e h. absurd (omega arith);
}
clean_last-IsCleaned (suc n) runs = record {
  same = λ i.
      update_elim (λ r. r.on ≡ (runs i).on) runs n _ i (λ e. ap (λ k. (runs k).on) e) (λ _. refl);
  stays = λ i o.
      update_elim (λ r. (runs i).stage ≡ over o → r.stage ≡ over o) runs n _ i
        (λ e h. ap cleared_stage (ap (λ k. (runs k).stage) e ∙ h)) (λ _ h. h);
  was_over = λ i o.
      update_elim (λ r. r.stage ≡ over o → (runs i).stage ≡ over o) runs n _ i
        (λ e h. ap (λ k. (runs k).stage) (sym e) ∙ cleared-over (runs n).stage o h) (λ _ h. h);
  was_asking = λ i d.
      update_elim (λ r. r.stage ≡ asking d → (runs i).stage ≡ asking d) runs n _ i
        (λ e h. ap (λ k. (runs k).stage) (sym e) ∙ cleared-asking (runs n).stage d h) (λ _ h. h);
  was_current = λ i.
      update_elim (λ r. r.current ≡ true → (runs i).current ≡ true) runs n _ i
        (λ e h. absurd (ground arith)) (λ _ h. h);
  stopped = λ i.
      update_elim (λ r. r.current ≡ true → suc i ≢ suc n) runs n _ i (λ e h. absurd (ground arith))
        (λ other h same. absurd (other (omega arith)));
}
