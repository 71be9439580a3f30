-- ===== src/Js/Laws.antt =====
-- Reading a property after a write or a deletion, and what equals a text.
use relay_workflow_automatio.Prelude.{
  true, not, ◌&&◌, ◌||◌, ap, String, ◌==◌, ◌≡◌, refl, arith, eq_iff, if◌then◌else◌,
}
use relay_workflow_automatio.Js.{
  null, bool, num, str, arr, obj, is_text, Value, undefined, Fields, end, field, get, has_own, put,
  remove,
}

pub get-put :
    (fs : Fields) (k : String) (v : Value) (j : String)
    → get (put fs k v) j ≡ (if k == j then v else get fs j)
unfolding get put
get-put end k v j = refl
get-put (field i w fs) k v j = ground (arith, get-put fs k v j, eq_iff i k, eq_iff i j, eq_iff k j)

pub get-remove :
    (fs : Fields) (k j : String) → get (remove fs k) j ≡ (if k == j then undefined else get fs j)
unfolding get remove
get-remove end k j = ground arith
get-remove (field i w fs) k j =
    ground (arith, get-remove fs k j, eq_iff i k, eq_iff i j, eq_iff k j)

pub has_own-put :
    (fs : Fields) (k : String) (v : Value) (j : String)
    → has_own (put fs k v) j ≡ (k == j || has_own fs j)
unfolding has_own put
has_own-put end k v j = refl
has_own-put (field i w fs) k v j =
    ground (arith, has_own-put fs k v j, eq_iff i k, eq_iff i j, eq_iff k j)

pub has_own-remove :
    (fs : Fields) (k j : String) → has_own (remove fs k) j ≡ (not (k == j) && has_own fs j)
unfolding has_own remove
has_own-remove end k j = ground arith
has_own-remove (field i w fs) k j =
    ground (arith, has_own-remove fs k j, eq_iff i k, eq_iff i j, eq_iff k j)

pub ruleset fields_laws = (get-put, get-remove, has_own-put, has_own-remove)

pub is_text-eq : (v : Value) (s : String) → is_text v s ≡ true → v ≡ str s
unfolding is_text
is_text-eq (str t) s h = ap (λ k. str k) ((eq_iff t s).0 h)
is_text-eq undefined s h = absurd (ground (arith, h))
is_text-eq null s h = absurd (ground (arith, h))
is_text-eq (bool b) s h = absurd (ground (arith, h))
is_text-eq (num n) s h = absurd (ground (arith, h))
is_text-eq (arr xs) s h = absurd (ground (arith, h))
is_text-eq (obj fs) s h = absurd (ground (arith, h))
