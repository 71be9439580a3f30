-- ===== src/Executions/Status.antt =====
-- lib/executions.js: statuses, names and durations, and which run the canvas shows.
pub mod Latest
use Prim.Native.String.{◌++◌ as join}
use relay_workflow_automatio.Prelude.{
  ℕ, zero, suc, ◌*◌, ◌/◌, ◌%◌, ◌^◌, Bool, true, false, not, ◌&&◌, ◌||◌, String, Option, none, some,
  List, [], ◌∷◌, filter, ltb, eqb, ◌==◌, if◌then◌else◌,
}
use relay_workflow_automatio.Js.{
  Num, nan, infinite, finite, integer, Value, undefined, null, bool, num, str, arr, obj, prop,
  or_else, strict_eq, truthy, num_eq,
}
use relay_workflow_automatio.Js.Host.{Host}
use relay_workflow_automatio.Js.Convert.{to_string}
use relay_workflow_automatio.Js.Text.{trim}
use relay_workflow_automatio.Proxy.Body.{num_less}

abbrev pub first_run : List Value → Option Value
first_run [] = none
first_run (r ∷ rs) = some r

-- `a || b` on runs, which are objects
abbrev pub or_run : Option Value → Option Value → Option Value
or_run none later = later
or_run (some r) later = some r

module _ (host : Host) where
  unfoldable pub normalize_status : Value → String
  normalize_status (str s) = host.to_lower s
  normalize_status _ = "unknown"

  abbrev delay_of : String → Option ℕ
  delay_of value =
      if value == "pending" || value == "running"
      then some 4000
      else if value == "waiting_for_approval"
      then some 30000
      else none

  unfoldable pub polling_delay : Value → Option ℕ
  unfolding normalize_status
  polling_delay status = delay_of (normalize_status status)

  -- a whole number of milliseconds, rounded down, that is not below zero
  abbrev whole : Num → Option ℕ
  whole (finite false m k) = some (m / 2 ^ k)
  whole (finite true m k) = if eqb m 0 then some 0 else none
  whole _ = none

  abbrev shown : ℕ → String
  shown n = host.number_text (integer n)

  -- `Math.floor(value / 100) / 10`
  abbrev tenths : ℕ → String
  tenths n =
      if eqb (n % 10) 0 then shown (n / 10) else join (shown (n / 10)) (join "." (shown (n % 10)))

  abbrev long_duration : ℕ → String
  long_duration seconds =
      if ltb seconds 3600
      then join (shown (seconds / 60)) (join "m " (join (shown (seconds % 60)) "s"))
      else join (shown (seconds / 3600)) (join "h " (join (shown (seconds % 3600 / 60)) "m"))

  abbrev duration_of : Num → Option ℕ → String
  duration_of value none = "—"
  duration_of value (some ms) =
      if ltb ms 1000
      then join (host.number_text value) " ms"
      else if ltb ms 60000
      then join (tenths (ms / 100)) " s"
      else long_duration (ms / 1000)

  unfoldable pub format_duration : Value → String
  format_duration (num n) = duration_of n (whole n)
  format_duration _ = "—"

  abbrev not_nan : Num → Num
  not_nan nan = integer 0
  not_nan n = n

  -- `Date.parse(run.created_at || run.started_at) || 0`
  unfoldable pub run_date : Value → Num
  run_date run =
      not_nan
        (host.parse_date (to_string host (or_else (prop run "created_at") (prop run "started_at"))))

  unfoldable pub insert_run : Value → List Value → List Value
  insert_run run [] = run ∷ []
  insert_run run (r ∷ rs) =
      if num_less (run_date run) (run_date r) then r ∷ insert_run run rs else run ∷ r ∷ rs

  -- the stable sort by date, the newest first
  unfoldable pub newest : List Value → List Value
  newest [] = []
  newest (run ∷ rs) = insert_run run (newest rs)

  abbrev is_polled : Option ℕ → Bool
  is_polled none = false
  is_polled (some n) = true

  unfoldable pub is_active_run : Value → Bool
  unfolding polling_delay
  is_active_run run = is_polled (polling_delay (prop run "status"))

  unfoldable pub latest_canvas_run : List Value → Value → Value → Option Value
  latest_canvas_run runs workflow_id version_id =
      let matching = filter (λ run. strict_eq (prop run "workflow_id") workflow_id) runs in
      let compatible =
        filter (λ run. strict_eq (prop run "workflow_version_id") version_id) matching in
      or_run (first_run (newest (filter is_active_run compatible)))
        (or_run (first_run (newest compatible)) (first_run (newest matching)))

abbrev has_status : Option Num → ℕ → Bool
has_status none n = false
has_status (some status) n = num_eq status (integer n)

abbrev has_name : Option String → String → Bool
has_name none name = false
has_name (some s) name = s == name

-- `executionError` of an error with a status and a name
unfoldable pub execution_error : Option Num → Option String → String
execution_error status name =
    if has_status status 404
    then "This execution could not be found. It may no longer be available in this workspace."
    else if has_status status 401
    then "Your session has expired. Please sign in again."
    else if has_name name "TimeoutError"
    then "The request took too long. Please try again."
    else "We couldn’t load execution data. Check your connection and try again."
