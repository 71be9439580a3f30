-- ===== src/Js/Host.antt =====
-- What the language's host supplies and the repository does not contain: number formatting and
-- parsing, the Unicode case tables, the time zone database, `Date.parse`, `JSON` and collation.
-- The definitions that use it take it as an argument.
use relay_workflow_automatio.Prelude.{String, Bool, Option}
use relay_workflow_automatio.Js.{Num, Value}

pub record Host : Type 0 where
  -- `String(n)` and `Number(s)`
  pub number_text : Num → String
  pub text_number : String → Num
  -- `s.toUpperCase()` and `s.toLowerCase()`
  pub to_upper : String → String
  pub to_lower : String → String
  -- does `new Intl.DateTimeFormat("en", { timeZone })` accept the name?
  pub valid_time_zone : String → Bool
  -- `Date.parse(s)`
  pub parse_date : String → Num
  -- `JSON.parse(s)`, `none` if it throws, and `JSON.stringify(v)`
  pub parse_json : String → Option Value
  pub json_text : Value → String
  -- `JSON.stringify(v, null, 2)`
  pub json_pretty : Value → String
  -- `a.localeCompare(b) <= 0`
  pub collates : String → String → Bool
