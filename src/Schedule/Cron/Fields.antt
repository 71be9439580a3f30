-- ===== src/Schedule/Cron/Fields.antt =====
-- Which cron expressions are accepted.
use relay_workflow_automatio.Prelude.{
  ℕ, ◌≤◌, Bool, true, ◌||◌, String, some, List, [], ◌∷◌, all, In, ◌==◌, ◌≡◌, ◌↔◌, ◌⊎◌, inl, inr,
  refl, arith, eq_iff, Option-cases, Bool-cases,
}
use relay_workflow_automatio.Js.Host.{Host}
use relay_workflow_automatio.Js.Text.{split_on, split_spaces, trim, is_digits, decimal}
use relay_workflow_automatio.Schedule.Cron.{
  FieldKind, kinds, cron_value, valid_ends, valid_step, valid_pieces, valid_part, valid_field,
  valid_fields, valid_cron_text,
}

-- The text stands for a value of the field's range.
abbrev pub IsValue : FieldKind → String → ℕ → Type 0
IsValue kind text v = (cron_value kind text ≡ some v) × (kind.low ≤ v) × (v ≤ kind.high)

-- One value, or two in order.
abbrev pub AreEnds : FieldKind → List String → Type 0
AreEnds kind ends =
    ((x : String) × (a : ℕ) × (ends ≡ x ∷ []) × IsValue kind x a)
    ⊎ ((x : String) × (y : String) × (a : ℕ) × (b : ℕ) × (ends ≡ x ∷ y ∷ [])
        × IsValue kind x a
        × IsValue kind y b
        × (a ≤ b))

ends_read :
    (kind : FieldKind) (ends : List String) → valid_ends kind ends ≡ true → AreEnds kind ends
unfolding valid_ends
ends_read kind [] h = ground (arith, h)
ends_read kind (x ∷ []) h = elim (Option-cases (cron_value kind x)) [
  | inl absent ↦ ground arith
  | inr (a, e) ↦ inl (x, a, refl, (e, ground arith, ground arith))
]
ends_read kind (x ∷ y ∷ []) h = elim (Option-cases (cron_value kind x)) [
  | inl absent ↦ ground arith
  | inr (a, e) ↦ elim (Option-cases (cron_value kind y)) [
    | inl absent ↦ ground arith
    | inr (b, f) ↦ inr (
      x,
      y,
      a,
      b,
      refl,
      (e, ground arith, ground arith),
      (f, ground arith, ground arith),
      ground arith,
    )
  ]
]
ends_read kind (x ∷ y ∷ z ∷ more) h = ground arith

ends_written :
    (kind : FieldKind) (ends : List String) → AreEnds kind ends → valid_ends kind ends ≡ true
unfolding valid_ends
ends_written kind ends (inl (x, a, q, (e, low, high))) = rw q (rw e (ground arith))
ends_written kind ends (inr (x, y, a, b, q, (e, low, high), (f, low', high'), le)) =
    rw q (rw (e, f) (ground arith))

-- A star, a value or a range.
abbrev pub IsSpan : FieldKind → String → Type 0
IsSpan kind base = (base ≡ "*") ⊎ AreEnds kind (split_on b'-' base)

IsSpan-read :
    (kind : FieldKind) (base : String)
    → (base == "*" || valid_ends kind (split_on b'-' base)) ≡ true
    → IsSpan kind base
IsSpan-read kind base h = elim (Bool-cases (base == "*")) [
  | inl star ↦ inl ((eq_iff base "*").0 star)
  | inr other ↦ inr (ends_read kind (split_on b'-' base) (ground arith))
]

IsSpan-written :
    (kind : FieldKind) (base : String)
    → IsSpan kind base
    → (base == "*" || valid_ends kind (split_on b'-' base)) ≡ true
IsSpan-written kind base (inl star) = ground (arith, eq_iff base "*")
IsSpan-written kind base (inr ends) = ground (arith, ends_written kind (split_on b'-' base) ends)

-- A span, or a span with a step of at least one.
abbrev pub ArePieces : FieldKind → List String → Type 0
ArePieces kind pieces =
    ((base : String) × (pieces ≡ base ∷ []) × IsSpan kind base)
    ⊎ ((base : String) × (step : String) × (pieces ≡ base ∷ step ∷ [])
        × IsSpan kind base
        × (is_digits step ≡ true)
        × (1 ≤ decimal 0 step))

ArePieces-iff :
    (kind : FieldKind) (pieces : List String)
    → (valid_pieces kind pieces ≡ true) ↔ ArePieces kind pieces
unfolding valid_pieces valid_step
ArePieces-iff kind pieces = (read pieces, written pieces)
  where
    read : (pieces : List String) → valid_pieces kind pieces ≡ true → ArePieces kind pieces
    read [] h = ground (arith, h)
    read (base ∷ []) h = inl (base, refl, IsSpan-read kind base h)
    read (base ∷ step ∷ []) h =
        inr (base, step, refl, IsSpan-read kind base (ground arith), ground arith, ground arith)
    read (base ∷ step ∷ more ∷ rest) h = ground arith

    written : (pieces : List String) → ArePieces kind pieces → valid_pieces kind pieces ≡ true
    written pieces (inl (base, q, span)) = rw q (IsSpan-written kind base span)
    written pieces (inr (base, step, q, span, digits, least)) =
        rw q (ground (arith, IsSpan-written kind base span))

all_iff :
    {A : Type 0} (p : A → Bool) (xs : List A) → (all p xs ≡ true) ↔ ((x : A) → In x xs → p x ≡ true)
all_iff p [] = (λ h x m. absurd m, λ h. refl)
all_iff p (x ∷ xs) =
    let (to, from) = all_iff p xs in
    (
      λ h y m. elim m [ inl e ↦ rw e (ground arith) | inr l ↦ to (ground arith) y l ],
      λ every. ground (arith, every x (inl refl), from (λ y l. every y (inr l))),
    )

module _ (host : Host) where
  -- Every part of the field between commas is a span, possibly with a step, in capitals.
  abbrev pub IsField : FieldKind → String → Type 0
  IsField kind text =
      (part : String)
      → In part (split_on b',' text)
      → ArePieces kind (split_on b'/' (host.to_upper part))

  IsField-iff :
      (kind : FieldKind) (text : String) → (valid_field host kind text ≡ true) ↔ IsField kind text
  unfolding valid_field valid_part
  IsField-iff kind text =
      let (to, from) = all_iff (valid_part host kind) (split_on b',' text) in
      (
        λ h part m. (ArePieces-iff kind (split_on b'/' (host.to_upper part))).0 (to h part m),
        λ every.
            from (λ part m.
              (ArePieces-iff kind (split_on b'/' (host.to_upper part))).1 (every part m)),
      )

  -- The texts are as many fields as there are kinds, each of its kind.
  abbrev pub AreFields : List FieldKind → List String → Type 0
  AreFields [] [] = Unit {0}
  AreFields (kind ∷ kinds) (text ∷ texts) = IsField kind text × AreFields kinds texts
  AreFields _ _ = ⊥

  AreFields-iff :
      (kinds : List FieldKind) (texts : List String)
      → (valid_fields host kinds texts ≡ true) ↔ AreFields kinds texts
  unfolding valid_fields
  AreFields-iff [] [] = (λ h. tt, λ u. refl)
  AreFields-iff [] (t ∷ ts) = (λ h. absurd (ground (arith, h)), λ n. absurd n)
  AreFields-iff (k ∷ ks) [] = (λ h. absurd (ground (arith, h)), λ n. absurd n)
  AreFields-iff (k ∷ ks) (t ∷ ts) =
      let (to, from) = AreFields-iff ks ts in
      let (one, all) = IsField-iff k t in
      (λ h. (one (ground arith), to (ground arith)), λ (f, rest). ground (arith, all f, from rest))

  -- A cron expression is accepted exactly when, trimmed, it is five fields between spaces (minute,
  -- hour, day, month, weekday), in each of which every part between commas is a star, a value in
  -- the field's range or two such values in order, possibly with a step of at least one.
  pub valid_cron_text-AreFields_iff :
      (text : String)
      → (valid_cron_text host text ≡ true) ↔ AreFields kinds (split_spaces (trim text))
  unfolding valid_cron_text
  valid_cron_text-AreFields_iff text = AreFields-iff kinds (split_spaces (trim text))
