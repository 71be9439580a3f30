-- ===== src/Js/Text.antt =====
-- The string functions of the language, on texts read by code point.
pub mod Trim
use relay_workflow_automatio.Prelude.{
  ℕ, zero, suc, ◌+◌, ◌-◌, ◌*◌, ◌≤◌, Char, code, String, Bool, true, false, not, ◌&&◌, ◌||◌, List,
  [], ◌∷◌, ◌≡◌, refl, eqb, leb, ltb, if◌then◌else◌, starts_with,
}

-- The white space and line ends of `trim` and of `\s`.
abbrev pub between : ℕ → ℕ → ℕ → Bool
between lo hi c = leb lo c && leb c hi

unfoldable pub is_space : ℕ → Bool
is_space c =
    between 9 13 c
    || eqb c 32
    || eqb c 0xa0
    || eqb c 0x1680
    || between 0x2000 0x200a c
    || between 0x2028 0x2029 c
    || eqb c 0x202f
    || eqb c 0x205f
    || eqb c 0x3000
    || eqb c 0xfeff

-- `s.length`: the UTF-16 code units
unfoldable pub js_length : String → ℕ
js_length String.[] = 0
js_length (String.◌∷◌ c s) = (if ltb (code c) 0x10000 then 1 else 2) + js_length s

unfoldable pub trim_start : String → String
trim_start String.[] = ""
trim_start (String.◌∷◌ c s) = if is_space (code c) then trim_start s else String.◌∷◌ c s

abbrev pub is_empty : String → Bool
is_empty String.[] = true
is_empty (String.◌∷◌ c s) = false

unfoldable pub trim_end : String → String
trim_end String.[] = ""
trim_end (String.◌∷◌ c s) =
    let rest = trim_end s in if is_empty rest && is_space (code c) then "" else String.◌∷◌ c rest

unfoldable pub trim : String → String
unfolding trim_start trim_end is_space
trim s = trim_end (trim_start s)

-- one more character before the first part
abbrev push_first : Char → List String → List String
push_first c [] = String.◌∷◌ c "" ∷ []
push_first c (part ∷ parts) = String.◌∷◌ c part ∷ parts

-- `s.split(d)` for one character d
unfoldable pub split_on : ℕ → String → List String
split_on d String.[] = "" ∷ []
split_on d (String.◌∷◌ c s) =
    let rest = split_on d s in if eqb (code c) d then "" ∷ rest else push_first c rest

abbrev begins_with_space : String → Bool
begins_with_space String.[] = false
begins_with_space (String.◌∷◌ c s) = is_space (code c)

-- `s.split(/\s+/)`: the last of a run of spaces separates
unfoldable pub split_spaces : String → List String
unfolding is_space
split_spaces String.[] = "" ∷ []
split_spaces (String.◌∷◌ c s) =
    let rest = split_spaces s in
    if is_space (code c)
    then (if begins_with_space s then rest else "" ∷ rest)
    else push_first c rest

-- `p` holds of every character
unfoldable pub every_char : (ℕ → Bool) → String → Bool
every_char p String.[] = true
every_char p (String.◌∷◌ c s) = p (code c) && every_char p s

abbrev pub is_digit : ℕ → Bool
is_digit c = between b'0' b'9' c

abbrev pub is_capital : ℕ → Bool
is_capital c = between b'A' b'Z' c

-- `/^\d+$/`
unfoldable pub is_digits : String → Bool
unfolding every_char
is_digits s = not (is_empty s) && every_char is_digit s

-- the number that a text of digits writes
unfoldable pub decimal : ℕ → String → ℕ
decimal n String.[] = n
decimal n (String.◌∷◌ c s) = decimal (n * 10 + (code c - 48)) s

-- `s.includes(t)`
unfoldable pub includes : String → String → Bool
includes String.[] t = is_empty t
includes (String.◌∷◌ c s) t = starts_with (String.◌∷◌ c s) t || includes s t
