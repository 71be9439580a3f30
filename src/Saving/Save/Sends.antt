-- ===== src/Saving/Save/Sends.antt =====
-- The calls that a part of a save that succeeds has made.
use relay_workflow_automatio.Prelude.{
  Bool, true, false, List, [], ◌∷◌, ◌++◌, ◌≡◌, refl, sym, ap, ◌∙◌, subst, arith, inl, inr, ⊎_elim,
  In, In-append, append_assoc, if◌then◌else◌,
}
use relay_workflow_automatio.Js.{Value}
use relay_workflow_automatio.Js.Host.{Host}
use relay_workflow_automatio.Js.Effect.{Error, Result, ok, World, pure, raise, ◌>>=◌, Respond, call}
use relay_workflow_automatio.Js.Effect.Rules.{>>=-eq-ok}
use relay_workflow_automatio.Saving.Save.{
  Call, Held, Save, change, read, for_each, ask, respond_held,
}

abbrev pub Within : List Call → List Call → Type 0
Within cs ds = (c : Call) → In c cs → In c ds

module _ (host : Host) {S : Type 0} (respond : Respond Call S) where
  -- Where the action returns, it has made calls, and every list that has these has the property.
  pub record Sends {A : Type 0} (P : List Call → Type 0) (m : Save host respond A) : Type 0 where
    pub at :
        (w : World Call (Held S)) (a : A) (w' : World Call (Held S))
        → m w ≡ (ok a, w')
        → (cs : List Call) × (w'.made ≡ cs ++ w.made) × ((ds : List Call) → Within cs ds → P ds)

  abbrev pub Nothing : List Call → Type 0
  Nothing ds = Unit {0}

  module _ {A : Type 0} where
    pub Sends-weaken :
        {P Q : List Call → Type 0} {m : Save host respond A}
        → ((ds : List Call) → P ds → Q ds)
        → Sends P m
        → Sends Q m
    Sends-weaken h l = record {
      at = λ w a w' e. let (cs, made, p) = l.at w a w' e in (cs, made, λ ds i. h ds (p ds i));
    }

    pub Sends-pure : (a : A) → Sends Nothing (pure a)
    unfolding pure
    Sends-pure a = record {
      at = λ w b w' e.
          ([], ap (λ (o : Result A × World Call (Held S)). o.1.made) (sym e), λ ds i. tt);
    }

    pub Sends-raise : {P : List Call → Type 0} (e : Error) → Sends {A = A} P (raise e)
    unfolding raise
    Sends-raise e = record { at = λ w b w' p. absurd (ground arith) }

    pub Sends-if :
        {P : List Call → Type 0} (b : Bool) {m n : Save host respond A}
        → (b ≡ true → Sends P m)
        → (b ≡ false → Sends P n)
        → Sends P (if b then m else n)
    Sends-if true hm hn = hm refl
    Sends-if false hm hn = hn refl

  pub Sends-ask : (c : Call) → Sends (In c) (ask host respond c)
  unfolding call respond_held
  Sends-ask c = record {
    at = λ w b w' e. (
      c ∷ [],
      ap (λ (o : Result Value × World Call (Held S)). o.1.made) (sym e),
      λ ds i. i c (inl refl),
    );
  }

  pub Sends-change : (f : Held S → Held S) → Sends Nothing (change host respond f)
  unfolding change
  Sends-change f = record {
    at = λ w b w' e.
        ([], ap (λ (o : Result (Unit {0}) × World Call (Held S)). o.1.made) (sym e), λ ds i. tt);
  }

  pub Sends-read : Sends Nothing (read host respond)
  unfolding read
  Sends-read = record {
    at = λ w b w' e.
        ([], ap (λ (o : Result (Held S) × World Call (Held S)). o.1.made) (sym e), λ ds i. tt);
  }

  pub Sends-bind :
      {A B : Type 0} {P Q : List Call → Type 0} {m : Save host respond A}
      {f : A → Save host respond B}
      → Sends P m
      → ((a : A) → Sends Q (f a))
      → Sends (λ ds. P ds × Q ds) (m >>= f)
  Sends-bind {m} {f} hm hf = record {
    at = λ w b w' e.
        let (a, v, first, second) = >>=-eq-ok m f w e in
        let (cs, made, p) = hm.at w a v first in
        let (es, more, q) = (hf a).at v b w' second in
        (
          es ++ cs,
          more ∙ ap (λ l. es ++ l) made ∙ sym (append_assoc es cs w.made),
          λ ds i. (
            p ds (λ c k. i c ((In-append c es cs).1 (inr k))),
            q ds (λ c k. i c ((In-append c es cs).1 (inl k))),
          ),
        );
  }

  -- a loop, by what each round sends
  pub Sends-each :
      {A : Type 0} {P : A → List Call → Type 0} {f : A → Save host respond (Unit {0})}
      → ((x : A) → Sends (P x) (f x))
      → (xs : List A) → Sends (λ ds. (x : A) → In x xs → P x ds) (for_each host respond f xs)
  unfolding for_each
  Sends-each each [] = Sends-weaken (λ ds u x m. absurd m) (Sends-pure tt)
  Sends-each {P = P} each (x ∷ xs) =
      Sends-weaken
        (λ ds (here, later) y m. ⊎_elim (λ e. subst (λ k. P k ds) (sym e) here) (λ k. later y k) m)
        (Sends-bind (each x) (λ _. Sends-each each xs))
