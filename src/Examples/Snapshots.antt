-- ===== src/Examples/Snapshots.antt =====
-- Snapshots of a canvas in two orders, and the recorded steps of an answer in order.
use mathlib.Core.List.{Permᴰ}
use relay_workflow_automatio.Prelude.{
  ℕ, Bool, true, false, not, ◌&&◌, ◌||◌, String, none, List, [], ◌∷◌, map, In, has, ◌==◌, ◌≡◌, ◌⊎◌,
  inl, inr, refl, sym, ◌∙◌, arith, ap, if◌then◌else◌,
}
use relay_workflow_automatio.Js.{
  integer, Value, num, str, arr, obj, nil, cons, field, end, get, prop,
}
use relay_workflow_automatio.Js.Host.{Host}
use relay_workflow_automatio.Js.Effect.{ok}
use relay_workflow_automatio.Saving.Snapshot.{
  SavedNode, node_entry, node_le, saved_config, workflow_save_snapshot,
}
use relay_workflow_automatio.Saving.Snapshot.Shuffled.{Orders, workflow_save_snapshot_shuffle}
use relay_workflow_automatio.Executions.Validate.{validate_execution_steps, invalid}
use relay_workflow_automatio.Executions.Validate.Ordered.{
  IsStepsAnswer, IsOrderedAnswer, validate_execution_steps_orders,
}
use relay_workflow_automatio.Examples.Samples.{host}

-- "b" goes after "a"
abbrev sorting : Host
sorting = record host { collates = λ s t. not (s == "b" && t == "a") }

abbrev placed : String → SavedNode
placed id = record {
  id = id;
  node_id = id;
  type_id = "action.email";
  label = str id;
  x = integer 0;
  y = integer 0;
  config = none;
}

abbrev entries : List Value
entries = map (node_entry sorting) (placed "a" ∷ placed "b" ∷ [])

abbrev one_of : Bool → Value
one_of last = node_entry sorting (placed (if last then "b" else "a"))

which : (v : Value) → In v entries → (last : Bool) × (v ≡ one_of last)
which v (inl e) = (false, e)
which v (inr (inl e)) = (true, e)
which v (inr (inr e)) = absurd e

by_place : (u v : Bool) → node_le sorting (one_of u) (one_of v) ≡ (not u || v)
unfolding node_entry saved_config prop get
by_place true true = refl
by_place true false = refl
by_place false true = refl
by_place false false = refl

le_of :
    (x y : Value) (u v : Bool) → x ≡ one_of u → y ≡ one_of v → node_le sorting x y ≡ (not u || v)
le_of x y u v p q =
    ap (λ k. node_le sorting k y) p ∙ ap (λ k. node_le sorting (one_of u) k) q ∙ by_place u v

by_id : Orders (node_le sorting) entries
by_id = record {
  total = λ x y p q h.
      let (u, e) = which x p in
      let (v, f) = which y q in le_of y x v u f e ∙ ends u v (sym (le_of x y u v e f) ∙ h);
  trans = λ x y z p q r g h.
      let (u, e) = which x p in
      let (v, f) = which y q in
      let (t, k) = which z r in
      le_of x z u t e k ∙ through u v t (sym (le_of x y u v e f) ∙ g) (sym (le_of y z v t f k) ∙ h);
  antisymm = λ x y p q g h.
      let (u, e) = which x p in
      let (v, f) = which y q in
      e ∙ ap one_of (both u v (sym (le_of x y u v e f) ∙ g) (sym (le_of y x v u f e) ∙ h)) ∙ sym f;
}
  where
    ends : (u v : Bool) → (not u || v) ≡ false → (not v || u) ≡ true
    ends u v h = ground arith

    through : (u v t : Bool) → (not u || v) ≡ true → (not v || t) ≡ true → (not u || t) ≡ true
    through u v t g h = ground arith

    both : (u v : Bool) → (not u || v) ≡ true → (not v || u) ≡ true → u ≡ v
    both u v g h = ground arith

workflow_save_snapshot_shuffle_example :
    workflow_save_snapshot sorting (placed "a" ∷ placed "b" ∷ []) []
    ≡ workflow_save_snapshot sorting (placed "b" ∷ placed "a" ∷ []) []
unfolding has
workflow_save_snapshot_shuffle_example =
    workflow_save_snapshot_shuffle sorting (Permᴰ.swap refl refl) Permᴰ.nil (refl, (refl, tt)) by_id
      (record {
        total = λ x y p q h. absurd p;
        trans = λ x y z p q r g h. absurd p;
        antisymm = λ x y p q g h. absurd p;
      })

abbrev step : String → ℕ → Value
step id sequence = obj (
    field "id" (str id) (
      field "status" (str "completed") (
        field "node_id" (str "a")
          (field "sequence" (num (integer sequence)) (field "attempt" (num (integer 1)) end)))))

abbrev answer : Value
answer = obj (field "items" (arr (cons (step "y" 2) (cons (step "x" 1) nil))) end)

validate_execution_steps_orders_example :
    ((¬ IsStepsAnswer answer) × (validate_execution_steps host answer ≡ invalid))
    ⊎ (IsStepsAnswer answer
        × ((w : Value) × (validate_execution_steps host answer ≡ ok w)
            × IsOrderedAnswer host answer w))
validate_execution_steps_orders_example =
    validate_execution_steps_orders host (λ s t h. refl) answer
