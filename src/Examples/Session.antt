-- ===== src/Examples/Session.antt =====
-- Two requests of one page that find the session expired, and share its refresh.
use relay_workflow_automatio.Prelude.{ℕ, ◌*◌, ◌≤◌, true, false, ◌⊎◌, refl, arith}
use relay_workflow_automatio.Js.{obj, end, truthy}
use relay_workflow_automatio.Js.Effect.{ok}
use relay_workflow_automatio.Client.Messages.{is_ok, parse_response}
use relay_workflow_automatio.Client.Session.{
  Caller, api_request, Answer, answers, Page, begin, after_answer, after_settling, after_refresh,
  after_second, beginning, answered, settling, refreshed, answered_again, Reach, start, later,
  may_refresh,
}
use relay_workflow_automatio.Client.Session.Shared.{IsShared, Reach-IsShared}
use relay_workflow_automatio.Client.Session.Ends.{AllDone, HasStep, calls_end}
use relay_workflow_automatio.Examples.Samples.{host}

abbrev callers : ℕ → Caller
callers i = api_request "/workflows" false

abbrev unauthorized : Answer
unauthorized = answers (record { status = 401; text = "" })

abbrev fine : Answer
fine = answers (record { status = 200; text = "" })

-- Both are sent and refused, one refresh serves both, and the first is answered.
abbrev shared_run : (s : Page) × Reach host true callers 2 8 s
unfolding begin after_answer after_settling after_refresh after_second may_refresh is_ok
    parse_response truthy
shared_run = (
  _,
  later
      (later
        (later
          (later
            (later
              (later
                (later (later start (beginning 0 (omega arith) refl))
                  (beginning 1 (omega arith) refl))
                (answered 0 unauthorized (omega arith) refl))
              (answered 1 unauthorized (omega arith) refl))
            (settling 0 fine (omega arith) refl))
          (refreshed 0 0 _ (ok (obj end)) (omega arith) refl refl))
        (refreshed 1 0 _ (ok (obj end)) (omega arith) refl refl))
      (answered_again 0 fine (omega arith) refl),
)

Reach-IsShared_example : IsShared shared_run.0
Reach-IsShared_example = Reach-IsShared host true callers shared_run.1

calls_end_example :
    (8 ≤ 5 * 2)
    × (AllDone host true callers 2 2 shared_run.0 ⊎ HasStep host true callers 2 shared_run.0)
calls_end_example = calls_end host true callers 2 shared_run.1
