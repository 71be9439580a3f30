-- ===== src/Executions/Validate/Ordered.antt =====
-- What passes the check of recorded steps is in order and complete.
use mathlib.Core.List.{Permᴰ}
use relay_workflow_automatio.Prelude.{
  Bool, true, false, not, ◌&&◌, String, List, [], ◌∷◌, all, All, sort_by, IsOrdered, sort-Perm,
  sort-All, sort-IsOrdered, ◌≡◌, ◌≢◌, ◌⊎◌, inl, inr, refl, arith, Bool-cases, eq_iff,
}
use relay_workflow_automatio.Js.{
  Num, nan, infinite, finite, Value, undefined, null, bool, num, str, arr, obj, get, prop, is_array,
  is_integer, num_lt, num_eq, fields_of,
}
use relay_workflow_automatio.Js.Laws.{get-put}
use relay_workflow_automatio.Js.Host.{Host}
use relay_workflow_automatio.Js.Effect.{ok}
use relay_workflow_automatio.Proxy.Body.{num_less}
use relay_workflow_automatio.Executions.Validate.{
  is_whole_from, valid_record, valid_step, step_le, validate_execution_steps, items_of, invalid,
  by_number, number_of, elements, sorted_steps,
}

-- On numbers that are at least one the order is total.
abbrev Counts : Num → Type 0
Counts n = (is_integer n && not (num_lt n 1)) ≡ true

by_number-total :
    (a b : Num) (ab ba : Bool)
    → Counts a
    → Counts b
    → (ab ≡ false → ba ≡ true)
    → by_number a b ab ≡ false
    → by_number b a ba ≡ true
unfolding num_less num_eq num_lt is_integer
by_number-total (finite false m k) (finite false n j) ab ba p q rest h = ground (arith, rest)
by_number-total (finite true m k) b ab ba p q rest h = ground arith
by_number-total (finite false m k) (finite true n j) ab ba p q rest h = ground arith
by_number-total (finite false m k) (infinite t) ab ba p q rest h = ground arith
by_number-total (finite false m k) nan ab ba p q rest h = ground arith
by_number-total (infinite t) b ab ba p q rest h = ground arith
by_number-total nan b ab ba p q rest h = ground arith

whole-Counts : (v : Value) → is_whole_from v true ≡ true → Counts (number_of v)
whole-Counts (num n) h = h
whole-Counts undefined h = cc
whole-Counts null h = cc
whole-Counts (bool b) h = cc
whole-Counts (str s) h = cc
whole-Counts (arr xs) h = cc
whole-Counts (obj fs) h = cc

abbrev IsStep : Value → Type 0
IsStep v = valid_step v ≡ true

and_last : (a b : Bool) → (a && b) ≡ true → (a ≡ true) × (b ≡ true)
and_last a b h = ground arith

last_two : (a b c d e f : Bool) → (a && b && c && d && e && f) ≡ true → (e ≡ true) × (f ≡ true)
last_two a b c d e f h = ground arith

IsStep-Counts :
    (v : Value)
    → IsStep v
    → Counts (number_of (prop v "sequence")) × Counts (number_of (prop v "attempt"))
unfolding valid_step
IsStep-Counts v h =
    let (sequence, attempt) = last_two (valid_record v) _ _ _ _ _ h in
    (whole-Counts (prop v "sequence") sequence, whole-Counts (prop v "attempt") attempt)

-- `localeCompare` never puts each of two texts after the other.
abbrev pub Collates : Host → Type 0
Collates host = (s t : String) → host.collates s t ≡ false → host.collates t s ≡ true

step_le-total :
    (host : Host)
    → Collates host
    → (a b : Value) → IsStep a
    → IsStep b
    → step_le host a b ≡ false
    → step_le host b a ≡ true
unfolding step_le
step_le-total host total a b p q =
    let (a_sequence, a_attempt) = IsStep-Counts a p in
    let (b_sequence, b_attempt) = IsStep-Counts b q in
    by_number-total _ _ _ _ a_sequence b_sequence
      (by_number-total _ _ _ _ a_attempt b_attempt (total _ _))

all-All : (xs : List Value) → all valid_step xs ≡ true → All IsStep xs
all-All [] h = tt
all-All (x ∷ xs) h = (ground arith, all-All xs (ground arith))

All-all : (xs : List Value) → All IsStep xs → all valid_step xs ≡ true
All-all [] h = refl
All-all (x ∷ xs) (p, h) = ground (arith, All-all xs h)

-- What an answer is turned into: the same steps, each one checked, in order.
pub record IsOrderedAnswer (host : Host) (answer result : Value) : Type 0 where
  pub steps : List Value
  pub shown : prop result "items" ≡ arr (items_of steps)
  pub same : Permᴰ steps (elements (prop answer "items"))
  pub checked : All (λ v. valid_step v ≡ true) steps
  pub ordered : IsOrdered (step_le host) steps
  pub others : (key : String) → key ≢ "items" → prop result key ≡ get (fields_of answer) key

abbrev pub IsStepsAnswer : Value → Type 0
IsStepsAnswer v =
    (is_array (prop v "items") ≡ true) × All (λ x. valid_step x ≡ true) (elements (prop v "items"))

module _ (host : Host) (total : Collates host) (v : Value) where
  sorted-IsOrdered :
      All IsStep (elements (prop v "items"))
      → IsOrderedAnswer host v (sorted_steps host v (elements (prop v "items")))
  unfolding prop
  sorted-IsOrdered h =
      let xs = elements (prop v "items") in
      record {
        steps = sort_by (step_le host) xs;
        shown = get-put (fields_of v) "items" _ "items";
        same = sort-Perm (step_le host) xs;
        checked = sort-All (step_le host) IsStep (step_le-total host total) xs h;
        ordered = sort-IsOrdered (step_le host) IsStep (step_le-total host total) xs h;
        others = λ key apart. ground (
          arith,
          get-put (fields_of v) "items" (arr (items_of (sort_by (step_le host) xs))) key,
          eq_iff "items" key,
        );
      }

  -- The check of the recorded steps refuses an answer exactly if its items are no list of steps, and
  -- gives the same steps back, ordered by sequence, attempt and id, with every other property of the
  -- answer. Collation is total.
  pub validate_execution_steps_orders :
      ((¬ IsStepsAnswer v) × (validate_execution_steps host v ≡ invalid))
      ⊎ (IsStepsAnswer v
          × ((w : Value) × (validate_execution_steps host v ≡ ok w) × IsOrderedAnswer host v w))
  unfolding validate_execution_steps
  validate_execution_steps_orders =
      elim (Bool-cases (is_array (prop v "items") && all valid_step (elements (prop v "items")))) [
        | inl holds ↦
            let (listed, every) = and_last _ _ holds in
            let h = all-All _ every in inr ((listed, h), (_, rw holds refl, sorted-IsOrdered h))
        | inr fails ↦
            inl (λ (listed, h). let both = All-all _ h in absurd (ground arith), rw fails refl)
      ]
