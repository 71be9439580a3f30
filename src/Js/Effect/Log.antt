-- ===== src/Js/Effect/Log.antt =====
-- What passed between an action and those whom it calls: every call with its answer, in the worlds
-- that the action really went through.
use relay_workflow_automatio.Prelude.{
  Bool, true, false, List, [], ◌∷◌, ◌++◌, ◌≡◌, refl, sym, ap, ◌∙◌, subst, arith, In, In-append, inl,
  inr, append_assoc, if◌then◌else◌,
}
use relay_workflow_automatio.Js.{Value}
use relay_workflow_automatio.Js.Effect.{
  Error, Result, ok, throws, World, Async, pure, raise, lift, attempt, settle, ◌>>=◌, continue,
  Respond, call,
}

-- The events of a log, the last one first.
abbrev pub Log : Type 0 → Type 0
Log Call = List (Call × Result Value)

-- The call was made and returned the value.
abbrev pub Gave : {Call : Type 0} → Log Call → Call → Value → Type 0
Gave es c v = In (c, ok v) es

pub Gave-append :
    {Call : Type 0} (ds es : Log Call) (c : Call) (v : Value) → Gave ds c v → Gave (ds ++ es) c v
Gave-append ds es c v m = (In-append (c, ok v) ds es).1 (inl m)

pub Gave-before :
    {Call : Type 0} (ds es : Log Call) (c : Call) (v : Value) → Gave es c v → Gave (ds ++ es) c v
Gave-before ds es c v m = (In-append (c, ok v) ds es).1 (inr m)

module _ {Call S : Type 0} (respond : Respond Call S) where
  -- The calls lead from one world to the other, with these answers.
  pub data Run (w : World Call S) : World Call S → Log Call → Type 0 where
    still : Run w w []
    called :
        {v : World Call S} {es : Log Call} (c : Call)
        → Run w v es
        → Run w (call respond c v).1 ((c, (call respond c v).0) ∷ es)

  Run-append :
      {w v : World Call S} {es : Log Call}
      → Run w v es
      → {u : World Call S} {ds : Log Call} → Run v u ds
      → Run w u (ds ++ es)
  Run-append first still = first
  Run-append first (called c later) = called c (Run-append first later)

  -- However the action ends, its calls lead to the world in which it ends; where it returns, the
  -- value and the log have the property.
  pub record Logs {A : Type 0} (P : Log Call → A → Type 0) (m : Async Call S A) : Type 0 where
    pub at :
        (w : World Call S)
        → (es : Log Call) × Run w (m w).1 es × ((a : A) → (m w).0 ≡ ok a → P es a)

  module _ {A : Type 0} where
    pub Logs-pure : {P : Log Call → A → Type 0} (a : A) → P [] a → Logs P (pure a)
    unfolding pure
    Logs-pure {P} a h = record {
      at = λ w. ([], still, λ b e. let same : a ≡ b = ground arith in subst (P []) same h);
    }

    pub Logs-raise : {P : Log Call → A → Type 0} (e : Error) → Logs P (raise e)
    unfolding raise
    Logs-raise e = record { at = λ w. ([], still, λ b p. absurd (ground arith)) }

    pub Logs-lift :
        {P : Log Call → A → Type 0} (r : Result A) → ((a : A) → r ≡ ok a → P [] a) → Logs P (lift r)
    unfolding lift
    Logs-lift r h = record { at = λ w. ([], still, h) }

    pub Logs-returns :
        {P : Log Call → A → Type 0} {m : Async Call S A}
        → Logs P m
        → (w w' : World Call S) (a : A) → m w ≡ (ok a, w')
        → (es : Log Call) × Run w w' es × P es a
    Logs-returns l w w' a e =
        let (es, r, p) = l.at w in (es, subst (λ o. Run w o.1 es) e r, p a (ap (λ o. o.0) e))

    pub Logs-if :
        {P : Log Call → A → Type 0} (b : Bool) {m n : Async Call S A}
        → (b ≡ true → Logs P m)
        → (b ≡ false → Logs P n)
        → Logs P (if b then m else n)
    Logs-if true hm hn = hm refl
    Logs-if false hm hn = hn refl

    pub Logs-weaken :
        {P Q : Log Call → A → Type 0} {m : Async Call S A}
        → ((es : Log Call) (a : A) → P es a → Q es a)
        → Logs P m
        → Logs Q m
    Logs-weaken h l = record { at = λ w. let (es, r, p) = l.at w in (es, r, λ a e. h es a (p a e)) }

    pub Logs-attempt :
        {P : Log Call → A → Type 0} {m : Async Call S A}
        → Logs P m
        → Logs (λ es r. (a : A) → r ≡ ok a → P es a) (attempt m)
    unfolding attempt settle
    Logs-attempt {P} {m} l = record {
      at = λ w.
          let (es, r, p) = l.at w in
          (es, r, λ o e a q. p a (let same : (m w).0 ≡ o = ground arith in same ∙ q));
    }

  pub Logs-call : (c : Call) → Logs (λ es v. es ≡ (c, ok v) ∷ []) (call respond c)
  Logs-call c = record {
    at = λ w. ((c, (call respond c w).0) ∷ [], called c still, λ v e. ap (λ r. (c, r) ∷ []) e);
  }

  pub Logs-attempt_call : (c : Call) → Logs (λ es r. es ≡ (c, r) ∷ []) (attempt (call respond c))
  unfolding attempt settle
  Logs-attempt_call c = record {
    at = λ w. (
      (c, (call respond c w).0) ∷ [],
      called c still,
      λ r e. ap (λ o. (c, o) ∷ []) (let same : (call respond c w).0 ≡ r = ground arith in same),
    );
  }

  module _ {A B : Type 0} where
    pub Logs-bind :
        {Q : Log Call → A → Type 0} {P : Log Call → B → Type 0} {m : Async Call S A}
        {f : A → Async Call S B}
        → Logs Q m
        → ((es : Log Call) (a : A) → Q es a → Logs (λ ds b. P (ds ++ es) b) (f a))
        → Logs P (m >>= f)
    unfolding ◌>>=◌ continue
    Logs-bind {Q} {P} {m} {f} hm hf = record { at = λ w. go w (m w) (hm.at w) }
      where
        go :
            (w : World Call S) (o : Result A × World Call S)
            → (es : Log Call) × Run w o.1 es × ((a : A) → o.0 ≡ ok a → Q es a)
            → (ds : Log Call) × Run w (continue o.0 f o.1).1 ds
              × ((b : B) → (continue o.0 f o.1).0 ≡ ok b → P ds b)
        go w (ok a, v) (es, r, q) =
            let (ds, later, p) = (hf es a (q a refl)).at v in (ds ++ es, Run-append r later, p)
        go w (throws x, v) (es, r, q) = (es, r, λ b e. absurd (ground arith))

    -- the same after the calls `before`
    pub Logs-then :
        {Q : Log Call → A → Type 0} (P : Log Call → B → Type 0) {m : Async Call S A}
        {f : A → Async Call S B} (before : Log Call)
        → Logs Q m
        → ((es : Log Call) (a : A) → Q es a → Logs (λ ds b. P (ds ++ (es ++ before)) b) (f a))
        → Logs (λ ds b. P (ds ++ before) b) (m >>= f)
    Logs-then P before hm hf = Logs-bind hm (λ es a q.
        Logs-weaken (λ ds b. subst (λ l. P l b) (sym (append_assoc ds es before))) (hf es a q))

    pub Logs-then_lift :
        (P : Log Call → B → Type 0) {r : Result A} {f : A → Async Call S B} (before : Log Call)
        → ((a : A) → r ≡ ok a → Logs (λ ds b. P (ds ++ before) b) (f a))
        → Logs (λ ds b. P (ds ++ before) b) (lift r >>= f)
    Logs-then_lift P {r} {f} before hf =
        Logs-then P before (Logs-lift {P = λ es a. (es ≡ []) × (r ≡ ok a)} r (λ a e. (refl, e)))
          (λ es a (none_made, e).
            subst (λ l. Logs (λ ds b. P (ds ++ (l ++ before)) b) (f a)) (sym none_made) (hf a e))

  pub Logs-then_call :
      {B : Type 0} (P : Log Call → B → Type 0) {f : Value → Async Call S B} (c : Call)
      (before : Log Call)
      → ((v : Value) → Logs (λ ds b. P (ds ++ ((c, ok v) ∷ before)) b) (f v))
      → Logs (λ ds b. P (ds ++ before) b) (call respond c >>= f)
  Logs-then_call P {f} c before hf =
      Logs-then P before (Logs-call c)
        (λ es v e. subst (λ l. Logs (λ ds b. P (ds ++ (l ++ before)) b) (f v)) (sym e) (hf v))
