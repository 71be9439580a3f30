-- ===== src/Prelude/Shuffle.antt =====
-- What does not depend on the order of a list: sorting by an order, membership, repetition.
use Prim.Native.String.{String}
use mathlib.Core.Path.{◌≡◌, refl, sym, ◌∙◌, subst}
use mathlib.Core.Logic.{inl, inr}
use mathlib.Core.Bool.{Bool, true, false, ◌||◌}
use mathlib.Core.List.{List, [], ◌∷◌, Permᴰ}
use native.Mathlib.Omega.{arith}
use text.Mathlib.Text.{◌==◌}
use text.Mathlib.TextEquality.{eq_iff}
use relay_workflow_automatio.Prelude.Tests.{Bool-cases}
use relay_workflow_automatio.Prelude.Ids.{has}
use relay_workflow_automatio.Prelude.Subsets.{Distinct}
use relay_workflow_automatio.Prelude.Sort.{All, insert_by, sort_by, sort-All}

-- A Boolean test that orders the values with a property.
pub record IsOrder {A : Type 0} (le : A → A → Bool) (Q : A → Type 0) : Type 0 where
  pub total : (x y : A) → Q x → Q y → le x y ≡ false → le y x ≡ true
  pub trans : (x y z : A) → Q x → Q y → Q z → le x y ≡ true → le y z ≡ true → le x z ≡ true
  pub antisymm : (x y : A) → Q x → Q y → le x y ≡ true → le y x ≡ true → x ≡ y

pub All-Perm : {A : Type 0} (Q : A → Type 0) {xs ys : List A} → Permᴰ xs ys → All Q xs → All Q ys
All-Perm Q Permᴰ.nil h = tt
All-Perm Q (Permᴰ.cons e p) (q, h) = (subst Q e q, All-Perm Q p h)
All-Perm Q (Permᴰ.swap e f) (q, (r, h)) = (subst Q f r, (subst Q e q, h))
All-Perm Q (Permᴰ.trans p r) h = All-Perm Q r (All-Perm Q p h)

module _ {A : Type 0} (le : A → A → Bool) (Q : A → Type 0) (order : IsOrder le Q) where
  insert_comm :
      (x y : A) (zs : List A)
      → Q x
      → Q y
      → All Q zs
      → insert_by le x (insert_by le y zs) ≡ insert_by le y (insert_by le x zs)
  unfolding insert_by
  insert_comm x y [] p q h = elim (Bool-cases (le x y)) [
    | inl a ↦ elim (Bool-cases (le y x)) [
      | inl b ↦ let same : x ≡ y = order.antisymm x y p q a b in cc
      | inr b ↦ rw (a, b) refl
    ]
    | inr a ↦ let b = order.total x y p q a in rw (a, b) refl
  ]
  insert_comm x y (z ∷ zs) p q (r, h) = ground (
    arith,
    order.total x y p q,
    order.antisymm x y p q,
    order.trans x y z p q r,
    order.trans y x z q p r,
    insert_comm x y zs p q h,
  )

  -- Sorting by an order forgets the order of the list.
  pub sort_shuffle : {xs ys : List A} → Permᴰ xs ys → All Q xs → sort_by le xs ≡ sort_by le ys
  unfolding sort_by
  sort_shuffle Permᴰ.nil h = refl
  sort_shuffle (Permᴰ.cons e p) (q, h) = let same = sort_shuffle p h in rw (e, same) refl
  sort_shuffle (Permᴰ.swap {a} {b} {a'} {b'} {l} e f) (q, (r, h)) =
      rw (e, f)
        (insert_comm b' a' (sort_by le l) (subst Q e q) (subst Q f r)
          (sort-All le Q order.total l h))
  sort_shuffle (Permᴰ.trans p r) h = sort_shuffle p h ∙ sort_shuffle r (All-Perm Q p h)

pub has-Perm : (z : String) {xs ys : List String} → Permᴰ xs ys → has z xs ≡ has z ys
unfolding has
has-Perm z Permᴰ.nil = refl
has-Perm z (Permᴰ.cons e p) = let same = has-Perm z p in rw (e, same) refl
has-Perm z (Permᴰ.swap {a'} {b'} e f) = rw (e, f) (ground arith)
has-Perm z (Permᴰ.trans p r) = has-Perm z p ∙ has-Perm z r

pub Distinct-Perm : {xs ys : List String} → Permᴰ xs ys → Distinct xs → Distinct ys
unfolding has
Distinct-Perm Permᴰ.nil d = tt
Distinct-Perm (Permᴰ.cons {b} {l₁} e p) (fresh, d) =
    (sym (has-Perm b p) ∙ subst (λ z. has z l₁ ≡ false) e fresh, Distinct-Perm p d)
Distinct-Perm (Permᴰ.swap {a} {b} {a'} {b'} {l} e f) (fresh, (fresher, d)) =
    let one : (b' == a' || has b' l) ≡ false = rw (← e, ← f) fresh in
    let two : has a' l ≡ false = rw (← f) fresher in
    (ground (arith, one, two, eq_iff a' b', eq_iff b' a'), (ground (arith, one), d))
Distinct-Perm (Permᴰ.trans p r) d = Distinct-Perm r (Distinct-Perm p d)
