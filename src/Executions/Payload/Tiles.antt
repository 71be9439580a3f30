-- ===== src/Executions/Payload/Tiles.antt =====
-- The sections of a text, put together, are the text.
use native.Mathlib.Nat.{
  mul-le-mul_right, zero-mul, one-mul, div-mul-le_self, lt-div-mul-add, add-mul,
}
use native.Mathlib.Numerals.{unary_clauses}
use relay_workflow_automatio.Prelude.{
  ℕ, zero, suc, ◌+◌, ◌-◌, ◌*◌, ◌/◌, ◌≤◌, ◌<◌, true, [], ◌∷◌, ◌++◌, ◌≡◌, ◌⊎◌, inl, inr, refl, arith,
  length, ltb, leb, ap, sym, ◌∙◌, Bool-cases,
}
use relay_workflow_automatio.Executions.Payload.{
  Units, first_units, skip_units, slice, boundary, smaller, section_total, payload_section,
}

slice_all : (us : Units) (n : ℕ) → length us ≤ n → first_units n us ≡ us
slice_all [] zero h = refl
slice_all [] (suc n) h = refl
slice_all (u ∷ us) zero h = ground arith
slice_all (u ∷ us) (suc n) h = ap (λ r. u ∷ r) (slice_all us n (omega arith))

-- A slice continues the units before it.
first-slice :
    (a b : ℕ) (us : Units)
    → a ≤ b
    → first_units a us ++ first_units (b - a) (skip_units a us) ≡ first_units b us
first-slice zero b us h = simp unary_clauses refl
first-slice (suc a) zero us h = ground arith
first-slice (suc a) (suc b) [] h = none_left (suc b - suc a)
  where
    none_left : (n : ℕ) → first_units n [] ≡ []
    none_left zero = refl
    none_left (suc n) = refl
first-slice (suc a) (suc b) (u ∷ us) h =
    let smaller_gap : suc b - suc a ≡ b - a = omega arith in
    rw smaller_gap (ap (λ r. u ∷ r) (first-slice a b us (omega arith)))

skip-nil : (n : ℕ) → skip_units n [] ≡ []
skip-nil zero = refl
skip-nil (suc n) = refl

skip-add : (a n : ℕ) (us : Units) → skip_units n (skip_units a us) ≡ skip_units (a + n) us
skip-add zero n us = let same : n ≡ 0 + n = omega arith in ap (λ k. skip_units k us) same
skip-add (suc a) n [] = skip-nil n ∙ sym (skip-nil (suc a + n))
skip-add (suc a) n (u ∷ us) =
    let next : suc a + n ≡ suc (a + n) = omega arith in rw next (skip-add a n us)

-- Slices that meet make one.
pub slice-append :
    (a b c : ℕ) (us : Units) → a ≤ b → b ≤ c → slice a b us ++ slice b c us ≡ slice a c us
unfolding slice
slice-append a b c us ab bc =
    let gap : (c - a) - (b - a) ≡ c - b = omega arith in
    let place : a + (b - a) ≡ b = omega arith in
    let parts = first-slice (b - a) (c - a) (skip_units a us) (omega arith) in
    let rest : skip_units (b - a) (skip_units a us) ≡ skip_units b us =
      skip-add a (b - a) us ∙ ap (λ n. skip_units n us) place in
    rw (sym gap, sym rest) parts

pub slice_none : (a : ℕ) (us : Units) → slice a a us ≡ []
unfolding slice
slice_none a us = let none : a - a ≡ 0 = omega arith in rw none refl

boundary-near : (text : Units) (p : ℕ) → (boundary text p ≤ p) × (p ≤ boundary text p + 1)
unfolding boundary
boundary-near text p = ground arith

boundary-end : (text : Units) (p : ℕ) → length text ≤ p → boundary text p ≡ p
unfolding boundary
boundary-end text p h = ground arith

-- Boundaries of different positions keep their order.
boundary_mono :
    (text : Units) (x y : ℕ)
    → x < y
    → boundary text (smaller x (length text)) ≤ boundary text (smaller y (length text))
boundary_mono text x y h =
    let (low, _) = boundary-near text (smaller x (length text)) in
    let (_, high) = boundary-near text (smaller y (length text)) in
    elim (Bool-cases (ltb x (length text))) [
      | inl before ↦ bound low high before
      | inr after ↦
          let same : smaller x (length text) ≡ smaller y (length text) = ground arith in
          rw same (omega arith)
    ]
  where
    bound :
        boundary text (smaller x (length text)) ≤ smaller x (length text)
        → smaller y (length text) ≤ boundary text (smaller y (length text)) + 1
        → ltb x (length text) ≡ true
        → boundary text (smaller x (length text)) ≤ boundary text (smaller y (length text))
    bound low high before =
        let apart : smaller x (length text) + 1 ≤ smaller y (length text) = ground arith in
        omega (arith, low, high, apart)

boundary-begin : (text : Units) → boundary text 0 ≡ 0
unfolding boundary
boundary-begin text = refl

-- where the page with a number ends
abbrev page_end : ℕ → Units → ℕ → ℕ
page_end size text n = boundary text (smaller ((n + 1) * size) (length text))

-- The texts of the first pages, one after the other.
abbrev pub joined : ℕ → Units → ℕ → Units
joined size text zero = []
joined size text (suc n) = joined size text n ++ (payload_section size text n).text

module _ (size : ℕ) (text : Units) (positive : 1 ≤ size) where
  full_pages : (n : ℕ) → n < section_total size text → n * size ≤ length text
  unfolding section_total
  full_pages n h =
      let q = (length text + (size - 1)) / size in
      let most = div-mul-le_self (length text + (size - 1)) size in
      elim (zero-or-suc n) [
        | inl e ↦ rw e (omega arith)
        | inr pos ↦
            let step : (n + 1) * size ≤ q * size = mul-le-mul_right size (ground arith) in
            omega (arith, step, most, add-mul n 1 size)
      ]
    where
      zero-or-suc : (n : ℕ) → (n ≡ 0) ⊎ (1 ≤ n)
      zero-or-suc n = ground arith

  last_page : length text ≤ section_total size text * size
  unfolding section_total
  last_page =
      let q = (length text + (size - 1)) / size in
      let beyond = lt-div-mul-add {a = length text + (size - 1)} positive in
      elim (Bool-cases (leb 1 q)) [
        | inl some ↦ rw some (omega (arith, beyond))
        | inr none ↦
            let empty : q ≡ 0 = ground arith in
            let nothing : q * size ≡ 0 = rw empty (zero-mul size) in
            rw none (omega (arith, beyond, nothing, one-mul size))
      ]

  section_text :
      (n : ℕ)
      → n < section_total size text
      → (payload_section size text n).text
        ≡ slice (boundary text (n * size)) (page_end size text n) text
  unfolding payload_section
  section_text n h =
      let same : smaller n (section_total size text - 1) ≡ n = ground arith in rw same refl

  -- where the page with a number begins
  abbrev cut : ℕ → ℕ
  cut n = boundary text (smaller (n * size) (length text))

  cut-begin : (n : ℕ) → n < section_total size text → cut n ≡ boundary text (n * size)
  cut-begin n h =
      let full = full_pages n h in ap (boundary text) (smaller_of (n * size) (length text) full)
    where
      smaller_of : (a b : ℕ) → a ≤ b → smaller a b ≡ a
      smaller_of a b le = ground arith

  cut_mono : (n : ℕ) → cut n ≤ cut (n + 1)
  cut_mono n =
      boundary_mono text (n * size) ((n + 1) * size)
        (omega (arith, add-mul n 1 size, one-mul size, positive))

  joined-cut : (n : ℕ) → n ≤ section_total size text → joined size text n ≡ first_units (cut n) text
  unfolding slice
  joined-cut zero h =
      let start : smaller (0 * size) (length text) ≡ 0 = ground (arith, zero-mul size) in
      rw (start, boundary-begin text) refl
  joined-cut (suc n) h =
      let earlier = joined-cut n (omega arith) in
      let here : n < section_total size text = omega arith in
      rw (earlier, section_text n here, sym (cut-begin n here), sym (suc_page n))
        (first-slice (cut n) (cut (n + 1)) text (cut_mono n))
    where
      suc_page : (n : ℕ) → n + 1 ≡ suc n
      suc_page n = omega arith

  -- Put together in order, the pages of a text are the text: no unit is lost or shown twice, although
  -- a page may end before the half of a pair. The page size is at least one.
  pub payload_sections_tile : joined size text (section_total size text) ≡ text
  payload_sections_tile =
      let all = joined-cut (section_total size text) (omega arith) in
      let ends : smaller (section_total size text * size) (length text) ≡ length text =
        ground (arith, last_page) in
      all
      ∙ rw (ends, boundary-end text (length text) (omega arith))
          (slice_all text (length text) (omega arith))
