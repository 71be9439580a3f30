-- ===== src/Executions/Tokens/Tiles.antt =====
-- The tokens of a section, put together, are the section.
use relay_workflow_automatio.Prelude.{
  ℕ, zero, suc, ◌+◌, ◌≤◌, ◌<◌, false, Option, none, some, List, [], ◌∷◌, ◌++◌, append-nil, ◌≡◌,
  refl, arith, ltb, leb, Bool-cases, ◌⊎◌, inl, inr, ◌∙◌, ap,
}
use relay_workflow_automatio.Executions.Payload.{Units, slice, smaller, larger}
use relay_workflow_automatio.Executions.Payload.Tiles.{slice-append, slice_none}
use relay_workflow_automatio.Executions.Tokens.{
  Token, Match, match_length, matches, tokens_from, punctuated, token_of, payload_tokens,
}

-- Matches follow one another from a place on, and none is empty.
abbrev Ordered : ℕ → List Match → Type 0
Ordered p [] = Unit {0}
Ordered p (m ∷ ms) = (p ≤ m.from) × (m.from < m.to) × Ordered m.to ms

Ordered-weaken : (p q : ℕ) (ms : List Match) → q ≤ p → Ordered p ms → Ordered q ms
Ordered-weaken p q [] le h = tt
Ordered-weaken p q (m ∷ ms) le (below, proper, rest) = (omega arith, proper, rest)

matches-Ordered :
    (inside : ℕ) (before : Option ℕ) (at : ℕ) (us : Units)
    → Ordered (at + inside) (matches inside before at us)
unfolding matches
matches-Ordered inside before at [] = tt
matches-Ordered (suc inside) before at (u ∷ us) =
    Ordered-weaken (suc at + inside) _ _ (omega arith) (matches-Ordered inside (some u) (suc at) us)
matches-Ordered zero before at (u ∷ us) =
    by_length (match_length before (u ∷ us)) refl (matches-Ordered zero (some u) (suc at) us)
      (λ n. matches-Ordered n (some u) (suc at) us)
  where
    by_length :
        (k : ℕ)
        → match_length before (u ∷ us) ≡ k
        → Ordered (suc at + 0) (matches zero (some u) (suc at) us)
        → ((n : ℕ) → Ordered (suc at + n) (matches n (some u) (suc at) us))
        → Ordered (at + 0) (matches zero before at (u ∷ us))
    by_length zero e next after =
        rw (e, matches) (Ordered-weaken (suc at + 0) _ _ (omega arith) next)
    by_length (suc n) e next after =
        rw (e, matches)
          (omega arith, omega arith, Ordered-weaken (suc at + n) _ _ (omega arith) (after n))

-- The units of the tokens, one after the other.
abbrev pub joined : List Token → Units
joined [] = []
joined (t ∷ ts) = t.units ++ joined ts

module _ (us : Units) (start end : ℕ) where
  joined-punctuated :
      (cursor until : ℕ) (ts : List Token)
      → cursor ≤ until
      → joined (punctuated us start end cursor until ts) ≡ slice cursor until us ++ joined ts
  joined-punctuated cursor until ts le = elim (Bool-cases (ltb cursor until)) [
    | inl some_units ↦ rw some_units refl
    | inr no_units ↦
        let same : until ≡ cursor = ground arith in rw (no_units, same, slice_none cursor us) refl
  ]

  -- what the loop adds for a match that the section shows
  joined-shown :
      (cursor : ℕ) (m : Match) (ts : List Token)
      → m.from < m.to
      → start < m.to
      → m.from < end
      → start ≤ cursor
      → cursor ≤ end
      → (cursor ≡ start) ⊎ (cursor ≤ m.from)
      → joined ts ≡ slice (smaller m.to end) end us
      → joined (punctuated us start end cursor (smaller m.from end) (token_of us start end m ∷ ts))
        ≡ slice cursor end us
  joined-shown cursor m ts proper shown inside low high at rest =
      elim (Bool-cases (ltb cursor m.from)) [
        | inl before ↦
            let until : smaller m.from end ≡ m.from = ground arith in
            let begins : larger m.from start ≡ m.from = ground arith in
            rw until (
              joined-punctuated cursor m.from (token_of us start end m ∷ ts) (ground arith)
              ∙ rw (begins, rest)
                  (ap (λ vs. slice cursor m.from us ++ vs)
                      (slice-append m.from (smaller m.to end) end us (ground arith) (ground arith))
                    ∙ slice-append cursor m.from end us (ground arith) (ground arith)))
        | inr behind ↦
            let none_between : ltb cursor (smaller m.from end) ≡ false = ground arith in
            let begins : larger m.from start ≡ cursor = ground arith in
            rw (none_between, begins, rest)
              (slice-append cursor (smaller m.to end) end us (ground arith) (ground arith))
      ]

  joined-tokens :
      (p cursor : ℕ) (ms : List Match)
      → Ordered p ms
      → start ≤ cursor
      → cursor ≤ end
      → (cursor ≡ start) ⊎ (cursor ≤ p)
      → joined (tokens_from us start end cursor ms) ≡ slice cursor end us
  unfolding tokens_from
  joined-tokens p cursor [] o low high at =
      joined-punctuated cursor end [] high ∙ append-nil (slice cursor end us)
  joined-tokens p cursor (m ∷ ms) (below, proper, rest) low high at =
      elim (Bool-cases (leb m.to start)) [
        | inl before ↦ rw before (joined-tokens m.to cursor ms rest low high (ground arith))
        | inr shown ↦ elim (Bool-cases (leb end m.from)) [
          | inl beyond ↦
              rw (shown, beyond)
                (joined-punctuated cursor end [] high ∙ append-nil (slice cursor end us))
          | inr inside ↦
              rw (shown, inside)
                (joined-shown cursor m _ proper (ground arith) (ground arith) low high
                  (ground arith)
                  (joined-tokens m.to (smaller m.to end) ms rest (ground arith) (ground arith)
                    (inr (ground arith))))
        ]
      ]

  -- Put together in order, the tokens that a section shows are the units of the section: none is
  -- lost, shown twice or moved. The section does not end before it starts.
  pub payload_tokens_tile : start ≤ end → joined (payload_tokens us start end) ≡ slice start end us
  unfolding payload_tokens
  payload_tokens_tile le =
      joined-tokens 0 start (matches 0 none 0 us) (matches-Ordered 0 none 0 us) (omega arith) le
        (inl refl)
