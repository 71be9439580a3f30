-- ===== src/Prelude/Sort.antt =====
-- The stable sort of `Array.prototype.sort`, by a Boolean test for "not after".
use mathlib.Core.Path.{◌≡◌, refl}
use mathlib.Core.Logic.{inl, inr}
use mathlib.Core.Bool.{Bool, true, false}
use mathlib.Core.List.{List, [], ◌∷◌}
use mathlib.Core.List.Permᴰ
use mathlib.Core.List.{Permᴰ}
use relay_workflow_automatio.Prelude.Tests.{if◌then◌else◌, Bool-cases}

abbrev pub All : {A : Type 0} → (A → Type 0) → List A → Type 0
All P [] = Unit {0}
All P (x ∷ xs) = P x × All P xs

module _ {A : Type 0} (le : A → A → Bool) where
  unfoldable pub insert_by : A → List A → List A
  insert_by x [] = x ∷ []
  insert_by x (y ∷ ys) = let rest = insert_by x ys in if le x y then x ∷ y ∷ ys else y ∷ rest

  unfoldable pub sort_by : List A → List A
  sort_by [] = []
  sort_by (x ∷ xs) = insert_by x (sort_by xs)

  -- each element is not after the next one
  abbrev pub IsOrdered : List A → Type 0
  IsOrdered [] = Unit {0}
  IsOrdered (x ∷ []) = Unit {0}
  IsOrdered (x ∷ y ∷ ys) = (le x y ≡ true) × IsOrdered (y ∷ ys)

  insert-Perm : (x : A) (ys : List A) → Permᴰ (insert_by x ys) (x ∷ ys)
  unfolding insert_by
  insert-Perm x [] = Permᴰ.refl _
  insert-Perm x (y ∷ ys) = elim (Bool-cases (le x y)) [
    | inl first ↦ rw first (Permᴰ.refl _)
    | inr after ↦ rw after (Permᴰ.trans (Permᴰ.cons refl (insert-Perm x ys)) (Permᴰ.swap refl refl))
  ]

  pub sort-Perm : (xs : List A) → Permᴰ (sort_by xs) xs
  unfolding sort_by
  sort-Perm [] = Permᴰ.nil
  sort-Perm (x ∷ xs) = Permᴰ.trans (insert-Perm x (sort_by xs)) (Permᴰ.cons refl (sort-Perm xs))

  module _ (Q : A → Type 0) (total : (x y : A) → Q x → Q y → le x y ≡ false → le y x ≡ true) where
    insert-All : (x : A) (ys : List A) → Q x → All Q ys → All Q (insert_by x ys)
    unfolding insert_by
    insert-All x [] q h = (q, tt)
    insert-All x (y ∷ ys) q (p, h) = elim (Bool-cases (le x y)) [
      | inl first ↦ rw first (q, (p, h))
      | inr after ↦ rw after (p, insert-All x ys q h)
    ]

    pub sort-All : (xs : List A) → All Q xs → All Q (sort_by xs)
    unfolding sort_by
    sort-All [] h = tt
    sort-All (x ∷ xs) (q, h) = insert-All x (sort_by xs) q (sort-All xs h)

    -- An element that goes after the first one goes after it in the order.
    insert-below :
        (y x : A) (ys : List A)
        → le y x ≡ true
        → IsOrdered (y ∷ ys)
        → IsOrdered (insert_by x ys)
        → IsOrdered (y ∷ insert_by x ys)
    unfolding insert_by
    insert-below y x [] le_yx old new = (le_yx, tt)
    insert-below y x (z ∷ zs) le_yx old new = elim (Bool-cases (le x z)) [
      | inl first ↦ rw first (le_yx, (first, old.1))
      | inr after ↦ rw after (old.0, rw after at new)
    ]

    insert-IsOrdered :
        (x : A) (ys : List A) → Q x → All Q ys → IsOrdered ys → IsOrdered (insert_by x ys)
    unfolding insert_by
    insert-IsOrdered x [] q h o = tt
    insert-IsOrdered x (y ∷ []) q (p, h) o = elim (Bool-cases (le x y)) [
      | inl first ↦ rw first (first, tt)
      | inr after ↦ rw after (total x y q p after, tt)
    ]
    insert-IsOrdered x (y ∷ z ∷ zs) q (p, h) o = elim (Bool-cases (le x y)) [
      | inl first ↦ rw first (first, o)
      | inr after ↦
          rw after (
            insert-below y x (z ∷ zs) (total x y q p after) o (insert-IsOrdered x (z ∷ zs) q h o.1))
    ]

    pub sort-IsOrdered : (xs : List A) → All Q xs → IsOrdered (sort_by xs)
    unfolding sort_by
    sort-IsOrdered [] h = tt
    sort-IsOrdered (x ∷ xs) (q, h) =
        insert-IsOrdered x (sort_by xs) q (sort-All xs h) (sort-IsOrdered xs h)
