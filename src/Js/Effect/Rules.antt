-- ===== src/Js/Effect/Rules.antt =====
-- Rules for what an action costs in calls and for how it ends.
use relay_workflow_automatio.Prelude.{
  ℕ, ◌+◌, ◌≤◌, List, [], ◌∷◌, ◌≡◌, refl, arith, Bool, true, false, if◌then◌else◌, ap,
}
use relay_workflow_automatio.Js.Effect.{
  Error, Result, ok, throws, World, Async, lift, pure, raise, attempt, settle, continue, ◌>>=◌,
  Respond, call,
}

-- The sum of a price over the calls made.
unfoldable pub total : {Call : Type 0} → (Call → ℕ) → List Call → ℕ
total price [] = 0
total price (c ∷ cs) = price c + total price cs

-- Whatever answers the calls, the action adds at most `k` to the total price.
pub record Costs {Call S A : Type 0} (price : Call → ℕ) (k : ℕ) (m : Async Call S A) : Type 0 where
  pub bound : (w : World Call S) → total price (m w).1.made ≤ total price w.made + k

module _ {Call S A : Type 0} {price : Call → ℕ} where
  pub Costs-pure : (k : ℕ) (a : A) → Costs {S = S} price k (pure a)
  unfolding pure
  Costs-pure k a = record { bound = λ w. omega arith }

  pub Costs-raise : (k : ℕ) (e : Error) → Costs {S = S} {A = A} price k (raise e)
  unfolding raise
  Costs-raise k e = record { bound = λ w. omega arith }

  pub Costs-lift : (k : ℕ) (r : Result A) → Costs {S = S} price k (lift r)
  unfolding lift
  Costs-lift k r = record { bound = λ w. omega arith }

  pub Costs-attempt : {k : ℕ} {m : Async Call S A} → Costs price k m → Costs price k (attempt m)
  unfolding attempt settle
  Costs-attempt h = record { bound = h.bound }

  pub Costs-if :
      {k : ℕ} (b : Bool) {m n : Async Call S A}
      → Costs price k m
      → Costs price k n
      → Costs price k (if b then m else n)
  Costs-if true hm hn = hm
  Costs-if false hm hn = hn

  pub Costs-weaken :
      {j : ℕ} (k : ℕ) {m : Async Call S A} → j ≤ k → Costs price j m → Costs price k m
  Costs-weaken k {m} le h = record { bound = λ w. omega (arith, h.bound w) }

module _ {Call S : Type 0} {price : Call → ℕ} where
  pub Costs-call : (respond : Respond Call S) (c : Call) → Costs price (price c) (call respond c)
  unfolding call total
  Costs-call respond c = record { bound = λ w. omega arith }

module _ {Call S A B : Type 0} {price : Call → ℕ} where
  Costs-continue :
      {k : ℕ} (r : Result A) {f : A → Async Call S B}
      → ((a : A) → Costs price k (f a))
      → Costs price k (continue r f)
  unfolding continue
  Costs-continue (ok a) h = h a
  Costs-continue (throws e) h = record { bound = λ w. omega arith }

  pub Costs-bind :
      (j k : ℕ) {m : Async Call S A} {f : A → Async Call S B}
      → Costs price j m
      → ((a : A) → Costs price k (f a))
      → Costs price (j + k) (m >>= f)
  unfolding ◌>>=◌
  Costs-bind j k {m} {f} hm hf = record {
    bound = λ w. omega (arith, hm.bound w, (Costs-continue (m w).0 hf).bound (m w).1);
  }

  -- a part that costs nothing, first or last
  pub Costs-free :
      {k : ℕ} {m : Async Call S A} {f : A → Async Call S B}
      → Costs price 0 m
      → ((a : A) → Costs price k (f a))
      → Costs price k (m >>= f)
  Costs-free {k} {m} {f} hm hf = Costs-weaken k (omega arith) (Costs-bind 0 k hm hf)

  pub Costs-then :
      {k : ℕ} {m : Async Call S A} {f : A → Async Call S B}
      → Costs price k m
      → ((a : A) → Costs price 0 (f a))
      → Costs price k (m >>= f)
  Costs-then {k} {m} {f} hm hf = Costs-weaken k (omega arith) (Costs-bind k 0 hm hf)

module _ {Call S A B : Type 0} where
  -- A bind that returned had a first part that returned.
  pub >>=-eq-ok :
      (m : Async Call S A) (f : A → Async Call S B) (w : World Call S) {b : B} {w' : World Call S}
      → (m >>= f) w ≡ (ok b, w')
      → (a : A) × (v : World Call S) × (m w ≡ (ok a, v)) × (f a v ≡ (ok b, w'))
  unfolding ◌>>=◌
  >>=-eq-ok m f w {b} {w'} h = go (m w) refl h
    where
      go :
          (o : Result A × World Call S)
          → m w ≡ o
          → continue o.0 f o.1 ≡ (ok b, w')
          → (a : A) × (v : World Call S) × (m w ≡ (ok a, v)) × (f a v ≡ (ok b, w'))
      go (ok a, v) e p = (a, v, e, p)
      go (throws x, v) e p = ground arith

pub ruleset cost_rules = (Costs-pure, Costs-raise, Costs-lift, Costs-attempt, Costs-if, Costs-free)

pair_path : {X Y : Type 0} (o : X × Y) (x : X) (y : Y) → o.0 ≡ x → o.1 ≡ y → o ≡ (x, y)
pair_path o x y p q = ground (arith, p, q)

pub attempt-eq-ok :
    {Call S A : Type 0} (m : Async Call S A) (w : World Call S) (r : Result A) {w' : World Call S}
    → attempt m w ≡ (ok r, w')
    → m w ≡ (r, w')
unfolding attempt settle
attempt-eq-ok m w r {w'} e = pair_path (m w) r w' (ground arith) (ground arith)

-- An action that throws has then added nothing to the price.
pub record Quiet {Call S A : Type 0} (price : Call → ℕ) (m : Async Call S A) : Type 0 where
  pub at :
      (w : World Call S) (e : Error) (w' : World Call S)
      → m w ≡ (throws e, w')
      → total price w'.made ≤ total price w.made

pub Quiet-of_Costs :
    {Call S A : Type 0} {price : Call → ℕ} {m : Async Call S A} → Costs price 0 m → Quiet price m
Quiet-of_Costs {price} {m} h = record {
  at = λ w e w' p.
      let same : (m w).1 ≡ w' = ap (λ o. o.1) p in
      omega (arith, h.bound w, ap (λ (v : World _ _). total price v.made) same);
}

pub Quiet-bind :
    {Call S A B : Type 0} {price : Call → ℕ} {m : Async Call S A} {f : A → Async Call S B}
    → Costs price 0 m
    → ((a : A) → Quiet price (f a))
    → Quiet price (m >>= f)
unfolding ◌>>=◌
Quiet-bind {Call} {S} {A} {B} {price} {m} {f} hm hf = record {
  at = λ w e w' p. go w (m w) e w' p (hm.bound w);
}
  where
    go :
        (w : World Call S) (o : Result A × World Call S) (e : Error) (w' : World Call S)
        → continue o.0 f o.1 ≡ (throws e, w')
        → total price o.1.made ≤ total price w.made + 0
        → total price w'.made ≤ total price w.made
    go w (ok a, v) e w' p h = omega (arith, (hf a).at v e w' p)
    go w (throws x, v) e w' p h =
        let same : v ≡ w' = ground arith in
        omega (arith, ap (λ (u : World Call S). total price u.made) same)
