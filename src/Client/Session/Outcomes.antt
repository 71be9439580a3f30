-- ===== src/Client/Session/Outcomes.antt =====
-- A request among others ends as it would alone: its outcome is that of the code read in order,
-- with the answers that it and a refresh were given.
use relay_workflow_automatio.Prelude.{ℕ, Bool, true, false, List, In, ◌≡◌}
use relay_workflow_automatio.Js.{Value, truthy}
use relay_workflow_automatio.Js.Host.{Host}
use relay_workflow_automatio.Js.Effect.{Error, Result, ok, throws}
use relay_workflow_automatio.Client.Messages.{Response, finish}
use relay_workflow_automatio.Client.Session.{
  Caller, refresh_auth_tokens, Answer, fails, answers, Task, idle, asked, asked_again, waiting,
  refreshing, done, settled, Event, received, refreshed_by, Page, may_refresh, refresh_result,
}

module _ (host : Host) (in_browser : Bool) (log : List Event) where
  -- A refresh was answered, and gave this to those who waited for it.
  pub record Gave (tokens : Result Value) : Type 0 where
    pub number : ℕ
    pub answer : Answer
    pub heard : In (refreshed_by number answer) log
    pub gives : refresh_result host answer ≡ tokens

  module _ (i : ℕ) (c : Caller) where
    -- The first answer leads to a refresh.
    abbrev pub Retries : Response → Type 0
    Retries r = In (received i (answers r)) log × (may_refresh in_browser c r ≡ true)

    -- The ways in which a caller ends, in the order of the code.
    pub data EndsAlone (v : Result Value) : Type 0 where
      lost : (e : Error) → In (received i (fails e)) log → v ≡ throws e → EndsAlone v
      at_once :
          (r : Response)
          → In (received i (answers r)) log
          → may_refresh in_browser c r ≡ false
          → v ≡ finish host r
          → EndsAlone v
      no_refresh :
          (r : Response) (e : Error) → Retries r → Gave (throws e) → v ≡ throws e → EndsAlone v
      no_tokens :
          (r : Response) (tokens : Value)
          → Retries r
          → Gave (ok tokens)
          → truthy tokens ≡ false
          → v ≡ finish host r
          → EndsAlone v
      lost_again :
          (r : Response) (tokens : Value) (e : Error)
          → Retries r
          → Gave (ok tokens)
          → truthy tokens ≡ true
          → In (received i (fails e)) log
          → v ≡ throws e
          → EndsAlone v
      repeated :
          (r : Response) (tokens : Value) (second : Response)
          → Retries r
          → Gave (ok tokens)
          → truthy tokens ≡ true
          → In (received i (answers second)) log
          → v ≡ finish host second
          → EndsAlone v
      only_refreshed : c ≡ refresh_auth_tokens → Gave v → EndsAlone v

    -- What is known of a caller on the way.
    abbrev pub Explained : Task → Type 0
    Explained idle = Unit {0}
    Explained asked = Unit {0}
    Explained (waiting p r) = Retries r
    Explained (refreshing p) = c ≡ refresh_auth_tokens
    Explained asked_again =
        (r : Response) × (tokens : Value) × Retries r × Gave (ok tokens) × (truthy tokens ≡ true)
    Explained (done v) = EndsAlone v

pub record IsExplained (host : Host) (in_browser : Bool) (callers : ℕ → Caller) (s : Page)
    : Type 0 where
  pub each : (i : ℕ) → Explained host in_browser s.log i (callers i) (s.tasks i)
  pub gave : (p : ℕ) (v : Result Value) → s.refreshes p ≡ settled v → Gave host in_browser s.log v

module _ (host : Host) (in_browser : Bool) (callers : ℕ → Caller) where
  abbrev Holds : Page → Type 0
  Holds = IsExplained host in_browser callers
