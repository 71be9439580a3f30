-- ===== src/Prelude/Ids.antt =====
-- Sets of texts as lists: `Set.has` and its laws.
use Prim.Native.String.{String}
use mathlib.Core.Path.{◌≡◌, refl, ap, ◌∙◌}
use mathlib.Core.Logic.{◌↔◌, ◌≢◌, ◌⊎◌, inl, inr}
use mathlib.Core.Bool.{Bool, true, false, ◌||◌}
use mathlib.Core.List.{List, [], ◌∷◌, ◌++◌, reverse, reverse-cons}
use native.Mathlib.Omega.{arith}
use text.Mathlib.Text.{◌==◌}
use text.Mathlib.TextEquality.{eq_iff}
use relay_workflow_automatio.Prelude.Tests.{Bool-cases}

unfoldable pub has : String → List String → Bool
has x [] = false
has x (y ∷ ys) = x == y || has x ys

pub has-append : (x : String) (xs ys : List String) → has x (xs ++ ys) ≡ (has x xs || has x ys)
unfolding has
has-append x [] ys = refl
has-append x (y ∷ xs) ys = ground (arith, has-append x xs ys)

pub has-reverse : (x : String) (xs : List String) → has x (reverse xs) ≡ has x xs
unfolding has
has-reverse x [] = refl
has-reverse x (y ∷ xs) =
    ap (has x) (reverse-cons y xs)
    ∙ has-append x (reverse xs) (y ∷ [])
    ∙ ground (arith, has-reverse x xs)

pub has-cons :
    (x y : String) (ys : List String) → (has x (y ∷ ys) ≡ true) ↔ ((x ≡ y) ⊎ (has x ys ≡ true))
unfolding has
has-cons x y ys = ground (arith, eq_iff x y)

pub eq_cases : (x y : String) → (x ≡ y) ⊎ (x ≢ y)
eq_cases x y = elim (Bool-cases (x == y)) [
  | inl same ↦ inl ((eq_iff x y).0 same)
  | inr apart ↦ inr (ground (arith, eq_iff x y))
]
