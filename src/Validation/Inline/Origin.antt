-- ===== src/Validation/Inline/Origin.antt =====
-- Where the validation that the editor shows comes from, on every way that the hook may take.
use relay_workflow_automatio.Prelude.{
  ℕ, suc, true, false, String, Option, none, some, ◌≡◌, refl, ◌∙◌, arith, eq_iff, eq_refl,
}
use relay_workflow_automatio.Js.Host.{Host}
use relay_workflow_automatio.Validation.Answer.{Checked}
use relay_workflow_automatio.Validation.Inline.{
  key_of, over, Hook, clean_last, unmount, Step, rendering, unmounting, firing, answering, Reach,
  mounted, kept_for, later, result_of, is_pending,
}
use relay_workflow_automatio.Validation.Inline.Cleaned.{clean_last-IsCleaned}
use relay_workflow_automatio.Validation.Inline.Fresh.{
  HasOrigin, IsFresh, mount-IsFresh, clean-IsFresh, render-IsFresh,
}
use relay_workflow_automatio.Validation.Inline.Runs.{receive-IsFresh, fire-IsFresh}

module _ (host : Host) where
  Step-IsFresh : {s t : Hook} → Step host s t → IsFresh host s → IsFresh host t
  unfolding unmount
  Step-IsFresh (rendering shown) h = render-IsFresh host shown h
  Step-IsFresh {s} unmounting h =
      clean-IsFresh host (clean_last s.started s.runs) (clean_last-IsCleaned s.started s.runs) h
  Step-IsFresh (firing i lt at) h = fire-IsFresh host i lt at h
  Step-IsFresh (answering i d r lt at) h = receive-IsFresh host i d r lt at h

  Reach-IsFresh : {s : Hook} → Reach host s → IsFresh host s
  Reach-IsFresh (mounted shown) = mount-IsFresh host shown
  Reach-IsFresh (later r st) = Step-IsFresh st (Reach-IsFresh r)

  -- the result that is shown was kept for the key of the canvas
  result_of-kept : (s : Hook) (c : Checked) → result_of s ≡ some c → s.validation ≡ some (s.key, c)
  unfolding result_of
  result_of-kept s c e = go s.validation refl e
    where
      go :
          (v : Option (String × Checked))
          → s.validation ≡ v
          → kept_for s.key v ≡ some c
          → s.validation ≡ some (s.key, c)
      go none h p = absurd (ground arith)
      go (some (k, d)) h p = h ∙ ground (arith, p, eq_iff k s.key)

  -- However the canvas is edited while its validation is under way, the result that is shown is that
  -- of a canvas with the key of the one on the screen: what `validateCanvas` makes of the server's
  -- answer to the definition of that canvas, or that there is no definition. Once the last run of the
  -- effect is over without a clean-up, its result is the one that is shown, and none is pending.
  pub Reach-HasOrigin :
      {s : Hook}
      → Reach host s
      → ((c : Checked)
          → result_of s ≡ some c
          → (i : ℕ) × (key_of host (s.runs i).on ≡ s.key) × HasOrigin host s.log i (s.runs i).on c)
        × ((i : ℕ) (o : Option Checked)
            → suc i ≡ s.started
            → (s.runs i).current ≡ true
            → (s.runs i).stage ≡ over o
            → (result_of s ≡ o) × (is_pending s ≡ false))
  unfolding result_of is_pending
  Reach-HasOrigin {s} r =
      let h = Reach-IsFresh r in
      (
        λ c e.
            let (i, lt, same, was) = h.kept s.key c (result_of-kept s c e) in
            (i, same, h.ended i c lt was),
        λ i o last on done.
            let (c, is_c, kept) = h.settled i o last on done in
            (
              rw (kept, is_c) (ground (arith, eq_refl s.key)),
              rw kept (ground (arith, eq_refl s.key)),
            ),
      )
