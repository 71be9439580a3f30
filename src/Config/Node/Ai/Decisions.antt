-- ===== src/Config/Node/Ai/Decisions.antt =====
-- Which allowed decisions are accepted.
use relay_workflow_automatio.Prelude.{
  ◌≤◌, Bool, true, false, ◌||◌, String, List, [], ◌∷◌, ◌++◌, map, any, Distinct, In, ◌≡◌, ◌↔◌, inl,
  inr, refl, arith, ltb, length,
}
use relay_workflow_automatio.Js.{Value, undefined, null, bool, num, str, arr, obj, Items, items}
use relay_workflow_automatio.Js.Host.{Host}
use relay_workflow_automatio.Schedule.Validate.{FieldError, error_if}
use relay_workflow_automatio.Config.Node.Ai.{
  repeats, bad_decision, decision_text, name_errors, allowed_errors,
}

repeats_iff : (xs : List String) → (repeats xs ≡ false) ↔ Distinct xs
unfolding repeats
repeats_iff [] = (λ h. tt, λ h. refl)
repeats_iff (x ∷ xs) =
    let (to, from) = repeats_iff xs in
    (λ h. (ground arith, to (ground arith)), λ (fresh, rest). ground (arith, from rest))

-- No element has the property exactly when each one has it not.
pub any_iff :
    {A : Type 0} (p : A → Bool) (xs : List A)
    → (any p xs ≡ false) ↔ ((x : A) → In x xs → p x ≡ false)
any_iff p [] = (λ h x m. absurd m, λ h. refl)
any_iff p (x ∷ xs) =
    let (to, from) = any_iff p xs in
    (
      λ h y m. elim m [ inl e ↦ rw e (ground arith) | inr l ↦ to (ground arith) y l ],
      λ all. ground (arith, all x (inl refl), from (λ y l. all y (inr l))),
    )

module _ (host : Host) where
  first_passes :
      (b : Bool) (m : String) (es : List FieldError)
      → error_if b "allowed_decisions" m ++ es ≡ []
      → (b ≡ false) × (es ≡ [])
  first_passes true m es h = ground (arith, h)
  first_passes false m es h = (refl, h)

  names_pass :
      (names : List String)
      → name_errors host names ≡ []
      → (any bad_decision names ≡ false) × (repeats names ≡ false)
  unfolding name_errors
  names_pass names h = ground arith

  fits :
      (xs ys : Items)
      → arr xs ≡ arr ys
      → 2 ≤ length (items ys)
      → length (items ys) ≤ 20
      → ((d : String) → In d (map (decision_text host) (items ys)) → bad_decision d ≡ false)
      → Distinct (map (decision_text host) (items ys))
      → allowed_errors host (arr xs) ≡ []
  unfolding allowed_errors name_errors
  fits xs ys e least most fine fresh =
      let same : xs ≡ ys = ground arith in
      let names = map (decision_text host) (items ys) in
      let good = (any_iff bad_decision names).1 fine in
      let differ = (repeats_iff names).1 fresh in rw (same, good, differ) (ground arith)

  -- From 2 to 20 decisions, whose texts after trimming and in capitals are names and differ.
  abbrev pub AreDecisions : Value → Type 0
  AreDecisions v =
      (xs : Items) × (v ≡ arr xs)
      × (2 ≤ length (items xs))
      × (length (items xs) ≤ 20)
      × ((d : String) → In d (map (decision_text host) (items xs)) → bad_decision d ≡ false)
      × Distinct (map (decision_text host) (items xs))

  -- The check of the allowed decisions reports nothing exactly for a list of 2 to 20 decisions whose
  -- texts, trimmed and in capitals, are names of at most 100 units and differ from one another.
  pub allowed_errors-AreDecisions_iff : (v : Value) → (allowed_errors host v ≡ []) ↔ AreDecisions v
  unfolding allowed_errors name_errors
  allowed_errors-AreDecisions_iff (arr xs) =
      let names = map (decision_text host) (items xs) in
      let (good, all_good) = any_iff bad_decision names in
      let (differ, distinct) = repeats_iff names in
      (
        λ h.
            let (size, rest) =
              first_passes (ltb (length (items xs)) 2 || ltb 20 (length (items xs)))
                "Add between 2 and 20 allowed decisions." (name_errors host names) h in
            let (fine, fresh) = names_pass names rest in
            (xs, refl, ground arith, ground arith, good fine, differ fresh),
        λ (ys, e, least, most, fine, fresh). fits xs ys e least most fine fresh,
      )
  allowed_errors-AreDecisions_iff undefined = (
    λ h. absurd (ground (arith, h)),
    λ (xs, e, least, most, fine, fresh). absurd (ground (arith, e)),
  )
  allowed_errors-AreDecisions_iff null = (
    λ h. absurd (ground (arith, h)),
    λ (xs, e, least, most, fine, fresh). absurd (ground (arith, e)),
  )
  allowed_errors-AreDecisions_iff (bool b) = (
    λ h. absurd (ground (arith, h)),
    λ (xs, e, least, most, fine, fresh). absurd (ground (arith, e)),
  )
  allowed_errors-AreDecisions_iff (num n) = (
    λ h. absurd (ground (arith, h)),
    λ (xs, e, least, most, fine, fresh). absurd (ground (arith, e)),
  )
  allowed_errors-AreDecisions_iff (str s) = (
    λ h. absurd (ground (arith, h)),
    λ (xs, e, least, most, fine, fresh). absurd (ground (arith, e)),
  )
  allowed_errors-AreDecisions_iff (obj fs) = (
    λ h. absurd (ground (arith, h)),
    λ (xs, e, least, most, fine, fresh). absurd (ground (arith, e)),
  )
