-- ===== src/Client/Session.antt =====
-- lib/api.js, apiRequest and refreshAuthTokens: the requests of one page, which run interleaved and
-- share the refresh of the session. A request runs without interruption between two waits: for its
-- first answer, for a refresh, and for its second answer. `Shared` has the invariant of all runs,
-- `Outcomes` compares a request with what it does alone, `Ends` bounds the runs.
pub mod Shared
pub mod Outcomes
pub mod Ends
use relay_workflow_automatio.Prelude.{
  ℕ, suc, ◌<◌, Bool, false, not, ◌&&◌, String, Option, none, some, List, [], ◌∷◌, ◌==◌, ◌≡◌, eqb,
  if◌then◌else◌,
}
use relay_workflow_automatio.Js.{Value, null, truthy}
use relay_workflow_automatio.Js.Host.{Host}
use relay_workflow_automatio.Js.Effect.{Error, Result, ok, throws}
use relay_workflow_automatio.Client.Messages.{Response, is_ok, parse_response, finish}

-- What calls the client: `apiRequest` with an endpoint and `skipAuthRetry`, or `refreshAuthTokens`
-- on its own.
pub data Caller : Type 0 where
  api_request : String → Bool → Caller
  refresh_auth_tokens : Caller

-- How a `fetch` with the reading of its body ends.
pub data Answer : Type 0 where
  fails : Error → Answer
  answers : Response → Answer

-- A request that waits for a refresh keeps its first response; `refreshing` is a call of
-- `refreshAuthTokens` that waits.
pub data Task : Type 0 where
  idle asked asked_again : Task
  waiting : ℕ → Response → Task
  refreshing : ℕ → Task
  done : Result Value → Task

-- A refresh, from the moment that it is shared: it may still wait for the lock of the tabs.
pub data Refresh : Type 0 where
  pending : Refresh
  settled : Result Value → Refresh

-- What happens: a request is sent, or answered; a refresh is answered; the page is told that the
-- session has expired.
pub data Event : Type 0 where
  sent : ℕ → Event
  received refreshed_by : ℕ → Answer → Event
  session_expired : Event

-- The refreshes have the numbers below `started`; `shared` is `refreshPromise`; `log` has the last
-- event first.
pub record Page : Type 0 where
  pub tasks : ℕ → Task
  pub refreshes : ℕ → Refresh
  pub started : ℕ
  pub shared : Option ℕ
  pub log : List Event

abbrev pub update : {A : Type 0} → (ℕ → A) → ℕ → A → ℕ → A
update f i a j = if eqb i j then a else f j

abbrev pub start_page : Page
start_page = record {
  tasks = λ i. idle;
  refreshes = λ p. pending;
  started = 0;
  shared = none;
  log = [];
}

abbrev set_task : Page → ℕ → Task → Page
set_task s i t = record s { tasks = update s.tasks i t }

-- an answer reaches a request
abbrev pub hear : Page → ℕ → Answer → Page
hear s i a = record s { log = received i a ∷ s.log }

-- the condition under which an answer leads to a refresh
unfoldable pub may_refresh : Bool → Caller → Response → Bool
may_refresh in_browser (api_request endpoint skip_auth_retry) r =
    eqb r.status 401 && not (endpoint == "/auth/refresh") && not skip_auth_retry && in_browser
may_refresh in_browser refresh_auth_tokens r = false

-- `refreshAuthTokens()` up to its wait: for the refresh under way, or for a new one. `wait` is how
-- the caller waits for the refresh of a number.
abbrev await_refresh : Page → ℕ → (ℕ → Task) → Option ℕ → Page
await_refresh s i wait (some p) = set_task s i (wait p)
await_refresh s i wait none = record s {
  tasks = update s.tasks i (wait s.started);
  refreshes = update s.refreshes s.started pending;
  started = suc s.started;
  shared = some s.started;
}

-- `{ response, text }` of the refresh, as its promise settles
abbrev pub refresh_result : Host → Answer → Result Value
refresh_result host (fails e) = throws e
refresh_result host (answers r) = if is_ok r then ok (parse_response host r.text) else ok null

abbrev expiry : Answer → List Event → List Event
expiry (fails e) log = log
expiry (answers r) log = if is_ok r then log else session_expired ∷ log

module _ (host : Host) (in_browser : Bool) (callers : ℕ → Caller) where
  abbrev begin_as : Page → ℕ → Caller → Page
  begin_as s i (api_request endpoint skip_auth_retry) = record s {
    tasks = update s.tasks i asked;
    log = sent i ∷ s.log;
  }
  begin_as s i refresh_auth_tokens = await_refresh s i refreshing s.shared

  -- the call: a request is sent, a refresh is joined or started
  unfoldable pub begin : Page → ℕ → Page
  begin s i = begin_as s i (callers i)

  abbrev answer_with : Page → ℕ → Answer → Page
  answer_with s i (fails e) = set_task s i (done (throws e))
  answer_with s i (answers r) =
      if may_refresh in_browser (callers i) r
      then await_refresh s i (λ p. waiting p r) s.shared
      else set_task s i (done (finish host r))

  unfoldable pub after_answer : Page → ℕ → Answer → Page
  after_answer s i a = answer_with (hear s i a) i a

  -- the refresh is answered, and `finally` forgets it
  unfoldable pub after_settling : Page → ℕ → Answer → Page
  after_settling s p a = record s {
    refreshes = update s.refreshes p (settled (refresh_result host a));
    shared = none;
    log = expiry a (refreshed_by p a ∷ s.log);
  }

  unfoldable pub after_refresh : Page → ℕ → Response → Result Value → Page
  after_refresh s i r (throws e) = set_task s i (done (throws e))
  after_refresh s i r (ok tokens) =
      if truthy tokens
      then record s { tasks = update s.tasks i asked_again; log = sent i ∷ s.log }
      else set_task s i (done (finish host r))

  abbrev second_with : Page → ℕ → Answer → Page
  second_with s i (fails e) = set_task s i (done (throws e))
  second_with s i (answers r) = record s {
    tasks = update s.tasks i (done (finish host r));
    log = if eqb r.status 401 then session_expired ∷ s.log else s.log;
  }

  unfoldable pub after_second : Page → ℕ → Answer → Page
  after_second s i a = second_with (hear s i a) i a

  unfoldable pub after_refreshing : Page → ℕ → Result Value → Page
  after_refreshing s i tokens = set_task s i (done tokens)

  -- One step of a page with `n` callers.
  pub data Step (n : ℕ) : Page → Page → Type 0 where
    beginning : {s : Page} (i : ℕ) → i < n → s.tasks i ≡ idle → Step n s (begin s i)
    answered :
        {s : Page} (i : ℕ) (a : Answer) → i < n → s.tasks i ≡ asked → Step n s (after_answer s i a)
    settling :
        {s : Page} (p : ℕ) (a : Answer)
        → p < s.started
        → s.refreshes p ≡ pending
        → Step n s (after_settling s p a)
    refreshed :
        {s : Page} (i p : ℕ) (r : Response) (tokens : Result Value)
        → i < n
        → s.tasks i ≡ waiting p r
        → s.refreshes p ≡ settled tokens
        → Step n s (after_refresh s i r tokens)
    joined :
        {s : Page} (i p : ℕ) (tokens : Result Value)
        → i < n
        → s.tasks i ≡ refreshing p
        → s.refreshes p ≡ settled tokens
        → Step n s (after_refreshing s i tokens)
    answered_again :
        {s : Page} (i : ℕ) (a : Answer)
        → i < n
        → s.tasks i ≡ asked_again
        → Step n s (after_second s i a)

  -- the pages that `k` steps lead to
  pub data Reach (n : ℕ) : ℕ → Page → Type 0 where
    start : Reach n 0 start_page
    later : {k : ℕ} {s t : Page} → Reach n k s → Step n s t → Reach n (suc k) t
