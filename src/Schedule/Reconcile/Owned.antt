-- ===== src/Schedule/Reconcile/Owned.antt =====
-- The schedule of the workflow that an activation finds or creates.
use relay_workflow_automatio.Prelude.{
  Bool, true, false, String, [], ◌∷◌, ◌++◌, ◌≡◌, inl, inr, refl, sym, subst, eq_iff, append_assoc,
}
use relay_workflow_automatio.Js.{Value, str, Fields, end, field, get, prop, truthy}
use relay_workflow_automatio.Js.Host.{Host}
use relay_workflow_automatio.Js.Convert.{to_string}
use relay_workflow_automatio.Js.Effect.{Error, Result, ok, throws, Async, ◌>>=◌, Respond}
use relay_workflow_automatio.Js.Effect.Log.{
  Log, Gave, Logs, Logs-pure, Logs-raise, Logs-lift, Logs-if, Logs-weaken, Logs-attempt, Logs-call,
  Logs-bind, Logs-then, Logs-then_lift,
}
use relay_workflow_automatio.Schedule.Config.{schedule_fields}
use relay_workflow_automatio.Schedule.Reconcile.{
  Call, list_schedules, create_schedule, throw_if, same_text, find_existing, recover,
  create_missing, ensure_existing, is_definite, send_changes,
}
use relay_workflow_automatio.Schedule.Reconcile.Answers.{find_row-found, IsOwn, IsOwn-append}

module _ (host : Host) (id : String) where
  module _ {S : Type 0} (respond : Respond Call S) where
    pub Logs-then_if :
        {B : Type 0} (P : Log Call → B → Type 0) (f : Unit {0} → Async Call S B) (b : Bool)
        (e : Error) (before : Log Call)
        → (b ≡ false → Logs respond (λ ds r. P (ds ++ before) r) (f tt))
        → Logs respond (λ ds r. P (ds ++ before) r) (throw_if b e >>= f)
    unfolding throw_if
    Logs-then_if P f b e before hf =
        Logs-then respond P before
          (Logs-if respond b (λ h. Logs-raise respond {P = λ ds u. (ds ≡ []) × (b ≡ false)} e)
            (λ h. Logs-pure respond tt (refl, h)))
          (λ ds u (none_made, h).
            subst (λ l. Logs respond (λ es r. P (es ++ (l ++ before)) r) (f tt)) (sym none_made)
              (hf h))

    find_existing-IsOwn :
        Logs respond (λ es v. truthy v ≡ true → IsOwn host id es v) (find_existing host respond id)
    unfolding find_existing same_text to_string
    find_existing-IsOwn = Logs-bind respond (Logs-call respond list_schedules) (λ es schedules e.
        Logs-lift respond _ (λ v found filled.
          let (row, same) = find_row-found _ _ v found filled in
          inl (
            schedules,
            subst (λ l. Gave l list_schedules schedules) (sym e) (inl refl),
            row,
            (eq_iff (to_string host (prop v "workflow_id")) id).0 same,
          )))

    recover-IsOwn :
        (fs : Fields) (created : Result Value) (before : Log Call)
        → get fs "workflow_id" ≡ str id
        → ((v : Value) → created ≡ ok v → before ≡ (create_schedule fs, ok v) ∷ [])
        → Logs respond (λ ds v. IsOwn host id (ds ++ before) v) (recover host respond id created)
    unfolding recover
    recover-IsOwn fs (ok v) before e g =
        Logs-pure respond v
          (inr (fs, subst (λ l. Gave l (create_schedule fs) v) (sym (g v refl)) (inl refl), e))
    recover-IsOwn fs (throws x) before e g =
        Logs-if respond (is_definite host x) (λ _. Logs-raise respond x)
          (λ _. Logs-then respond (IsOwn host id) before find_existing-IsOwn (λ es v own.
            Logs-if respond (truthy v)
              (λ filled. Logs-pure respond v (IsOwn-append host id es before v (own filled)))
              (λ _. Logs-raise respond x)))

    pub ensure-IsOwn :
        (config parsed : Value)
        → Logs respond (IsOwn host id) (ensure_existing host respond id config parsed)
    unfolding ensure_existing create_missing get
    ensure-IsOwn config parsed = Logs-bind respond find_existing-IsOwn (λ es v own.
        Logs-if respond (truthy v) (λ filled. Logs-pure respond v (own filled))
          (λ _. Logs-then_lift respond (IsOwn host id) es (λ desired _.
            Logs-then respond (IsOwn host id) es (Logs-attempt respond (Logs-call respond _))
              (λ made created g.
                Logs-weaken respond
                  (λ ds u o.
                    subst (λ l. IsOwn host id l u) (append_assoc ds made es)
                      (IsOwn-append host id (ds ++ made) es u o))
                  (recover-IsOwn (field "workflow_id" (str id) (schedule_fields desired)) created
                    made refl g)))))

    pub send_changes-Logs :
        (existing : Value) (changes : Fields)
        → Logs respond (λ _ _. Unit {0}) (send_changes host respond existing changes)
    unfolding send_changes
    send_changes-Logs existing end = Logs-pure respond _ tt
    send_changes-Logs existing (field k v fs) =
        Logs-weaken respond (λ _ _ _. tt) (Logs-call respond _)
