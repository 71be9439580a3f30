-- ===== src/Schedule/Cron.antt =====
-- scheduleTrigger.js: five-field cron expressions.
pub mod Fields
use relay_workflow_automatio.Prelude.{
  ℕ, Bool, true, false, not, ◌&&◌, ◌||◌, String, Option, none, some, List, [], ◌∷◌, map, ◌==◌,
  length, all, ltb, leb, if◌then◌else◌,
}
use relay_workflow_automatio.Js.{Value}
use relay_workflow_automatio.Js.Host.{Host}
use relay_workflow_automatio.Js.Text.{trim, split_on, split_spaces, is_digits, decimal}
use relay_workflow_automatio.Js.Convert.{text_or_empty}

-- A field's range and its names: minute, hour, day, month, weekday.
pub record FieldKind : Type 0 where
  pub low : ℕ
  pub high : ℕ
  pub aliases : List (String × ℕ)

abbrev pub months : List (String × ℕ)
months =
    ("JAN", 1)
    ∷ ("FEB", 2)
    ∷ ("MAR", 3)
    ∷ ("APR", 4)
    ∷ ("MAY", 5)
    ∷ ("JUN", 6)
    ∷ ("JUL", 7)
    ∷ ("AUG", 8)
    ∷ ("SEP", 9)
    ∷ ("OCT", 10)
    ∷ ("NOV", 11)
    ∷ ("DEC", 12)
    ∷ []

abbrev pub weekdays : List (String × ℕ)
weekdays =
    ("SUN", 0) ∷ ("MON", 1) ∷ ("TUE", 2) ∷ ("WED", 3) ∷ ("THU", 4) ∷ ("FRI", 5) ∷ ("SAT", 6) ∷ []

abbrev pub kinds : List FieldKind
kinds =
    record { low = 0; high = 59; aliases = [] }
    ∷ record { low = 0; high = 23; aliases = [] }
    ∷ record { low = 1; high = 31; aliases = [] }
    ∷ record { low = 1; high = 12; aliases = months }
    ∷ record { low = 0; high = 7; aliases = weekdays }
    ∷ []

lookup : String → List (String × ℕ) → Option ℕ
lookup name [] = none
lookup name ((n, v) ∷ rest) = if n == name then some v else lookup name rest

-- `/^\d+$/.test(value) ? Number(value) : aliases[index][value]`
unfoldable pub cron_value : FieldKind → String → Option ℕ
unfolding lookup
cron_value kind value =
    if is_digits value then some (decimal 0 value) else lookup value kind.aliases

-- `Number.isInteger(value) && value >= low && value <= high`
abbrev in_range : FieldKind → Option ℕ → Bool
in_range kind none = false
in_range kind (some v) = leb kind.low v && leb v kind.high

-- `values.length === 1 || values[0] <= values[1]`
abbrev ordered : List (Option ℕ) → Bool
ordered (some a ∷ some b ∷ rest) = leb a b
ordered (v ∷ []) = true
ordered _ = false

unfoldable pub valid_ends : FieldKind → List String → Bool
valid_ends kind ends =
    not (ltb 2 (length ends))
    && (all (in_range kind) (map (cron_value kind) ends) && ordered (map (cron_value kind) ends))

-- the text after the slash
unfoldable pub valid_step : String → Bool
valid_step step = is_digits step && not (ltb (decimal 0 step) 1)

unfoldable pub valid_pieces : FieldKind → List String → Bool
valid_pieces kind [] = false
valid_pieces kind (base ∷ []) = base == "*" || valid_ends kind (split_on b'-' base)
valid_pieces kind (base ∷ step ∷ []) =
    valid_step step && (base == "*" || valid_ends kind (split_on b'-' base))
valid_pieces kind (base ∷ step ∷ more ∷ rest) = false

module _ (host : Host) where
  unfoldable pub valid_part : FieldKind → String → Bool
  valid_part kind part = valid_pieces kind (split_on b'/' (host.to_upper part))

  unfoldable pub valid_field : FieldKind → String → Bool
  valid_field kind text = all (valid_part kind) (split_on b',' text)

  -- `fields.length === 5`, and every field is valid by its kind
  unfoldable pub valid_fields : List FieldKind → List String → Bool
  valid_fields [] [] = true
  valid_fields (kind ∷ more) (text ∷ texts) = valid_field kind text && valid_fields more texts
  valid_fields _ _ = false

  unfoldable pub valid_cron_text : String → Bool
  valid_cron_text expression = valid_fields kinds (split_spaces (trim expression))

  unfoldable pub valid_cron : Value → Bool
  valid_cron expression = valid_cron_text (text_or_empty host expression)
