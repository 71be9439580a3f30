-- ===== src/Prelude/Member.antt =====
-- Membership as a relation, and what appending, reversal and the filters do to it.
use Prim.Native.String.{String}
use mathlib.Core.Path.{◌≡◌, refl, sym, ap, ◌∙◌}
use mathlib.Core.Logic.{◌↔◌, ◌⊎◌, inl, inr, ⊎_elim}
use mathlib.Core.Bool.{Bool, true}
use mathlib.Core.Option.{Option, some}
use mathlib.Core.List.{List, [], ◌∷◌, ◌++◌, reverse, reverse-cons}
use native.Mathlib.Omega.{arith}
use text.Mathlib.TextEquality.{eq_iff}
use relay_workflow_automatio.Prelude.Tests.{Bool-cases, Option-cases}
use relay_workflow_automatio.Prelude.Lists.{filter, filter_map}
use relay_workflow_automatio.Prelude.Ids.{has}

abbrev pub In : {A : Type 0} → A → List A → Type 0
In x [] = ⊥
In x (y ∷ ys) = (x ≡ y) ⊎ In x ys

module _ {A : Type 0} where
  pub In-append : (x : A) (xs ys : List A) → In x (xs ++ ys) ↔ (In x xs ⊎ In x ys)
  In-append x [] ys = (inr, ⊎_elim absurd (λ h. h))
  In-append x (y ∷ xs) ys =
      let (to, from) = In-append x xs ys in
      (
        λ h. elim h [
          | inl e ↦ inl (inl e)
          | inr r ↦ elim (to r) [ inl a ↦ inl (inr a) | inr b ↦ inr b ]
        ],
        λ h. elim h [
          | inl a ↦ elim a [ inl e ↦ inl e | inr r ↦ inr (from (inl r)) ]
          | inr b ↦ inr (from (inr b))
        ],
      )

  pub In-reverse : (x : A) (xs : List A) → In x (reverse xs) ↔ In x xs
  In-reverse x [] = (λ h. h, λ h. h)
  In-reverse x (y ∷ xs) =
      let (to, from) = In-append x (reverse xs) (y ∷ []) in
      let (back, forth) = In-reverse x xs in
      rw reverse-cons (
        λ h. elim (to h) [
          | inl a ↦ inr (back a)
          | inr b ↦ elim b [ inl e ↦ inl e | inr no_more ↦ absurd no_more ]
        ],
        λ h. elim h [ inl e ↦ from (inr (inl e)) | inr r ↦ from (inl (forth r)) ],
      )

  pub In-filter :
      (p : A → Bool) (x : A) (xs : List A) → In x (filter p xs) ↔ (In x xs × (p x ≡ true))
  In-filter p x [] = (λ h. absurd h, λ h. h.0)
  In-filter p x (y ∷ xs) =
      let (to, from) = In-filter p x xs in
      elim (Bool-cases (p y)) [
        | inl holds ↦ rw holds (
          λ h. elim h [ inl e ↦ (inl e, rw e holds) | inr r ↦ (inr (to r).0, (to r).1) ],
          λ (h, q). elim h [ inl e ↦ inl e | inr r ↦ inr (from (r, q)) ],
        )
        | inr fails ↦
            rw fails
              (λ h. (inr (to h).0, (to h).1), λ (h, q). elim h [ inl e ↦ cc | inr r ↦ from (r, q) ])
      ]

pub In-filter_map :
    {A B : Type 0} (f : A → Option B) (y : B) (xs : List A)
    → In y (filter_map f xs) ↔ ((x : A) × In x xs × (f x ≡ some y))
In-filter_map f y [] = (λ h. absurd h, λ h. h.1)
In-filter_map f y (x ∷ xs) =
    let (to, from) = In-filter_map f y xs in
    elim (Option-cases (f x)) [
      | inl e ↦
          rw (e, filter_map)
            (
              λ h. let (a, m, q) = to h in (a, inr m, q),
              λ (a, m, q). elim m [ inl same ↦ cc | inr r ↦ from (a, r, q) ],
            )
      | inr (b, e) ↦
          rw (e, filter_map)
            (
              λ h. elim h [
                | inl same ↦ (x, inl refl, cc)
                | inr r ↦ let (a, m, q) = to r in (a, inr m, q)
              ],
              λ (a, m, q). elim m [
                | inl same ↦ let g : some y ≡ some b = sym q ∙ ap f same ∙ e in inl (cc)
                | inr r ↦ inr (from (a, r, q))
              ],
            )
    ]

pub has_iff_In : (x : String) (xs : List String) → (has x xs ≡ true) ↔ In x xs
unfolding has
has_iff_In x [] = ground arith
has_iff_In x (y ∷ ys) = ground (arith, has_iff_In x ys, eq_iff x y)
