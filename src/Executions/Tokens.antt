-- ===== src/Executions/Tokens.antt =====
-- lib/executionPayload.js, payloadTokens: the tokens of a payload's JSON text that a section shows.
-- The regular expression is written as a function of the units from a place on; what it matches at a
-- place is unique, since its repetitions never give units back with success.
pub mod Tiles
use relay_workflow_automatio.Prelude.{
  ℕ, zero, suc, ◌+◌, ◌-◌, Bool, true, false, not, ◌&&◌, ◌||◌, Option, none, some, List, [], ◌∷◌,
  ltb, leb, eqb, length, if◌then◌else◌,
}
use relay_workflow_automatio.Js.Text.{between, is_digit, is_space}
use relay_workflow_automatio.Executions.Payload.{Units, unit_at, slice, smaller, larger}

pub data Kind : Type 0 where
  punctuation key text null_value boolean number : Kind

pub record Token : Type 0 where
  pub kind : Kind
  pub units : Units

-- `\w`
unfoldable pub is_word : ℕ → Bool
is_word u = is_digit u || between 0x41 0x5a u || between 0x61 0x7a u || eqb u 0x5f

abbrev is_word_at : Option ℕ → Bool
is_word_at none = false
is_word_at (some u) = is_word u

abbrev one_more : Option ℕ → Option ℕ
one_more none = none
one_more (some n) = some (suc n)

-- how far a string goes after its opening quote; `escaped` after a backslash
unfoldable pub string_rest : Bool → Units → Option ℕ
string_rest escaped [] = none
string_rest true (u ∷ us) = one_more (string_rest false us)
string_rest false (u ∷ us) =
    let rest = string_rest (eqb u 0x5c) us in if eqb u 0x22 then some 1 else one_more rest

-- the units after a word that stands here
abbrev after_word : Units → Units → Option Units
after_word [] us = some us
after_word (w ∷ ws) [] = none
after_word (w ∷ ws) (u ∷ us) = if eqb w u then after_word ws us else none

abbrev word_true : Units
word_true = 0x74 ∷ 0x72 ∷ 0x75 ∷ 0x65 ∷ []

abbrev word_false : Units
word_false = 0x66 ∷ 0x61 ∷ 0x6c ∷ 0x73 ∷ 0x65 ∷ []

abbrev word_null : Units
word_null = 0x6e ∷ 0x75 ∷ 0x6c ∷ 0x6c ∷ []

-- the word, with no word character after it
abbrev ends_word : Option Units → Bool
ends_word none = false
ends_word (some us) = not (is_word_at (unit_at us 0))

abbrev word_length : Units → ℕ
word_length us =
    if ends_word (after_word word_true us)
    then 4
    else if ends_word (after_word word_false us)
    then 5
    else if ends_word (after_word word_null us)
    then 4
    else 0

-- `\d*`
abbrev digits : Units → ℕ
digits [] = 0
digits (u ∷ us) = let more = digits us in if is_digit u then suc more else 0

-- a mark and at least one digit after it
abbrev marked : ℕ → ℕ
marked zero = 0
marked (suc n) = suc (suc n)

abbrev fraction : Units → ℕ
fraction [] = 0
fraction (u ∷ us) = if eqb u 0x2e then marked (digits us) else 0

abbrev signed_exponent : Units → ℕ
signed_exponent [] = 0
signed_exponent (u ∷ us) = if eqb u 0x2b || eqb u 0x2d then marked (digits us) else digits (u ∷ us)

abbrev exponent : Units → ℕ
exponent [] = 0
exponent (u ∷ us) = if eqb u 0x65 || eqb u 0x45 then marked (signed_exponent us) else 0

abbrev skipped : ℕ → Units → Units
skipped zero us = us
skipped (suc n) [] = []
skipped (suc n) (u ∷ us) = skipped n us

abbrev with_exponent : ℕ → Units → ℕ
with_exponent n us = n + exponent (skipped n us)

abbrev with_fraction : ℕ → Units → ℕ
with_fraction zero us = 0
with_fraction (suc n) us = with_exponent (suc n + fraction (skipped (suc n) us)) us

-- the length of the number that stands here, 0 for none
abbrev unsigned_length : Units → ℕ
unsigned_length us = with_fraction (digits us) us

abbrev number_length : Units → ℕ
number_length [] = 0
number_length (u ∷ us) =
    if eqb u 0x2d then marked_sign (unsigned_length us) else unsigned_length (u ∷ us)
  where
    marked_sign : ℕ → ℕ
    marked_sign zero = 0
    marked_sign (suc n) = suc (suc n)

abbrev or_length : ℕ → ℕ → ℕ
or_length zero n = n
or_length (suc m) n = suc m

abbrev string_length : Option ℕ → ℕ
string_length none = 0
string_length (some n) = suc n

-- the length of the match at a place with `before` before it, 0 for none
unfoldable pub match_length : Option ℕ → Units → ℕ
match_length before [] = 0
match_length before (u ∷ us) =
    if eqb u 0x22
    then string_length (string_rest false us)
    else or_length (if is_word_at before then 0 else word_length (u ∷ us)) (number_length (u ∷ us))

pub record Match : Type 0 where
  pub from : ℕ
  pub to : ℕ

-- `text.matchAll(pattern)`: `inside` units of the last match are still to be passed.
unfoldable pub matches : ℕ → Option ℕ → ℕ → Units → List Match
matches inside before at [] = []
matches (suc inside) before at (u ∷ us) = matches inside (some u) (suc at) us
matches zero before at (u ∷ us) = elim (match_length before (u ∷ us)) [
  | zero ↦ matches zero (some u) (suc at) us
  | suc n ↦ record { from = at; to = at + suc n } ∷ matches n (some u) (suc at) us
]

-- `/^\s*:/`
abbrev colon_follows : Units → Bool
colon_follows [] = false
colon_follows (u ∷ us) = let later = colon_follows us in eqb u 0x3a || (is_space u && later)

abbrev is_exactly : Units → Units → Bool
is_exactly [] [] = true
is_exactly (w ∷ ws) (u ∷ us) = eqb w u && is_exactly ws us
is_exactly _ _ = false

abbrev starts : Option Units → Bool
starts none = false
starts (some us) = true

-- `/true|false/`
abbrev mentions_boolean : Units → Bool
mentions_boolean [] = false
mentions_boolean (u ∷ us) =
    starts (after_word word_true (u ∷ us))
    || starts (after_word word_false (u ∷ us))
    || mentions_boolean us

abbrev starts_with_quote : Units → Bool
starts_with_quote [] = false
starts_with_quote (u ∷ us) = eqb u 0x22

unfoldable pub kind_of : Units → Units → Kind
kind_of raw next =
    if starts_with_quote raw
    then (if colon_follows next then key else text)
    else if is_exactly word_null raw
    then null_value
    else if mentions_boolean raw
    then boolean
    else number

module _ (us : Units) (start end : ℕ) where
  abbrev punctuated : ℕ → ℕ → List Token → List Token
  punctuated cursor until tokens =
      if ltb cursor until
      then record { kind = punctuation; units = slice cursor until us } ∷ tokens
      else tokens

  abbrev token_of : Match → Token
  token_of m = record {
    kind = kind_of (slice m.from m.to us) (slice m.to (m.to + 20) us);
    units = slice (larger m.from start) (smaller m.to end) us;
  }

  -- the loop over the matches, with what follows it
  unfoldable pub tokens_from : ℕ → List Match → List Token
  tokens_from cursor [] = punctuated cursor end []
  tokens_from cursor (m ∷ ms) =
      let skip = tokens_from cursor ms in
      let rest = tokens_from (smaller m.to end) ms in
      if leb m.to start
      then skip
      else if leb end m.from
      then punctuated cursor end []
      else punctuated cursor (smaller m.from end) (token_of m ∷ rest)

unfoldable pub payload_tokens : Units → ℕ → ℕ → List Token
payload_tokens us start end = tokens_from us start end start (matches zero none 0 us)
