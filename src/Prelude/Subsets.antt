-- ===== src/Prelude/Subsets.antt =====
-- Lists of texts without repetition, and counting by inclusion.
use Prim.Native.Nat.{◌≤◌, ◌<◌}
use Prim.Native.String.{String}
use mathlib.Core.Path.{◌≡◌}
use mathlib.Core.Logic.{inl, inr}
use mathlib.Core.Bool.{true, false}
use mathlib.Core.List.{List, [], ◌∷◌}
use native.Mathlib.Omega.{arith}
use text.Mathlib.Text.{◌==◌}
use text.Mathlib.TextEquality.{eq_iff}
use relay_workflow_automatio.Prelude.Tests.{if◌then◌else◌, Bool-cases}
use relay_workflow_automatio.Prelude.Lists.{length}
use relay_workflow_automatio.Prelude.Ids.{has, has-cons}

abbrev pub Distinct : List String → Type 0
Distinct [] = Unit {0}
Distinct (x ∷ xs) = (has x xs ≡ false) × Distinct xs

abbrev pub Within : List String → List String → Type 0
Within xs ys = (v : String) → has v xs ≡ true → has v ys ≡ true

without : String → List String → List String
without x [] = []
without x (y ∷ ys) = let rest = without x ys in if y == x then rest else y ∷ rest

has-without :
    (x v : String) (ys : List String)
    → has v ys ≡ true
    → (x == v) ≡ false
    → has v (without x ys) ≡ true
unfolding without has
has-without x v [] h n = ground arith
has-without x v (y ∷ ys) h n =
    ground (arith, has-without x v ys, eq_iff y x, eq_iff v y, eq_iff x v)

length-without-le : (x : String) (ys : List String) → length (without x ys) ≤ length ys
unfolding without
length-without-le x [] = omega arith
length-without-le x (y ∷ ys) = ground (arith, length-without-le x ys)

length-without-lt :
    (x : String) (ys : List String) → has x ys ≡ true → length (without x ys) < length ys
unfolding without has
length-without-lt x [] h = ground arith
length-without-lt x (y ∷ ys) h =
    ground (arith, length-without-lt x ys, length-without-le x ys, eq_iff y x, eq_iff x y)

pub Distinct-length-le : (xs ys : List String) → Distinct xs → Within xs ys → length xs ≤ length ys
unfolding has
Distinct-length-le [] ys d w = omega arith
Distinct-length-le (x ∷ xs) ys (fresh, d) w =
    let inside : has x ys ≡ true = w x (ground (arith, eq_iff x x)) in
    let fewer : length xs ≤ length (without x ys) =
      Distinct-length-le xs (without x ys) d
        (λ v h. has-without x v ys (w v (ground arith)) (ground (arith, eq_iff x v))) in
    omega (arith, length-without-lt x ys inside)

-- Among distinct texts, as many as there are means all of them.
pub Within-of_length :
    (xs ys : List String) → Distinct xs → Within xs ys → length ys ≤ length xs → Within ys xs
Within-of_length xs ys d w enough v h = elim (Bool-cases (has v xs)) [
  | inl there ↦ there
  | inr missing ↦
      let more =
        Distinct-length-le (v ∷ xs) ys (missing, d)
          (λ u p. elim ((has-cons u v xs).0 p) [ inl e ↦ rw e h | inr old ↦ w u old ]) in
      absurd (omega arith)
]
