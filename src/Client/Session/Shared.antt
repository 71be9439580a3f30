-- ===== src/Client/Session/Shared.antt =====
-- What holds on every page: the refresh is shared, and a request is repeated once at most.
use relay_workflow_automatio.Prelude.{
  ℕ, ◌+◌, ◌≤◌, ◌<◌, Bool, true, Option, none, some, List, [], ◌∷◌, ◌≡◌, refl, arith, eqb,
  if◌then◌else◌, Bool-cases, inl, inr, ap,
}
use relay_workflow_automatio.Js.{Value, truthy}
use relay_workflow_automatio.Js.Host.{Host}
use relay_workflow_automatio.Js.Effect.{Result, ok, throws}
use relay_workflow_automatio.Client.Messages.{Response}
use relay_workflow_automatio.Client.Session.{
  Caller, api_request, refresh_auth_tokens, begin_as, Answer, fails, answers, Task, idle, asked,
  asked_again, waiting, refreshing, done, pending, settled, Event, await_refresh, sent, received,
  refreshed_by, session_expired, hear, Page, start_page, update, begin, after_answer,
  after_settling, after_refresh, after_refreshing, after_second, Step, beginning, answered,
  settling, refreshed, joined, answered_again, Reach, start, later, may_refresh,
}

-- how often a request was sent
abbrev pub sendings : ℕ → List Event → ℕ
sendings i [] = 0
sendings i (sent j ∷ log) = (if eqb i j then 1 else 0) + sendings i log
sendings i (received j a ∷ log) = sendings i log
sendings i (refreshed_by p a ∷ log) = sendings i log
sendings i (session_expired ∷ log) = sendings i log

-- the most that a request may have been sent
abbrev pub sendings_at : Task → ℕ
sendings_at idle = 0
sendings_at asked = 1
sendings_at (waiting p r) = 1
sendings_at (refreshing p) = 0
sendings_at asked_again = 2
sendings_at (done r) = 2

abbrev pub waits_for : Task → Option ℕ
waits_for (waiting p r) = some p
waits_for (refreshing p) = some p
waits_for _ = none

-- There is a refresh that brought tokens.
abbrev pub WasRefreshed : Page → Type 0
WasRefreshed s =
    (p : ℕ) × (tokens : Value) × (s.refreshes p ≡ settled (ok tokens))
    × (truthy tokens ≡ true)
    × (p < s.started)

pub record IsShared (s : Page) : Type 0 where
  -- a refresh is under way exactly if it is the one that new callers join
  pub only : (p : ℕ) → p < s.started → s.refreshes p ≡ pending → s.shared ≡ some p
  pub current : (p : ℕ) → s.shared ≡ some p → (p < s.started) × (s.refreshes p ≡ pending)
  -- who waits for a refresh waits for one that was started
  pub waited : (i p : ℕ) → waits_for (s.tasks i) ≡ some p → p < s.started
  pub sendings_le : (i : ℕ) → sendings i s.log ≤ sendings_at (s.tasks i)
  -- a request that was sent again had a refresh that brought tokens
  pub repeated : (i : ℕ) → 1 < sendings i s.log → WasRefreshed s

start-IsShared : IsShared start_page
start-IsShared = record {
  only = λ p lt e. absurd (omega arith);
  current = λ p e. cc;
  waited = λ i p e. cc;
  sendings_le = λ i. omega arith;
  repeated = λ i h. absurd (omega arith);
}

-- A task moves on, without a wait and without a sending.
set-IsShared :
    {s : Page} (i : ℕ) (t : Task) (log : List Event)
    → waits_for t ≡ none
    → sendings_at (s.tasks i) ≤ sendings_at t
    → ((j : ℕ) → sendings j log ≡ sendings j s.log)
    → IsShared s
    → IsShared (record s { tasks = update s.tasks i t; log = log })
set-IsShared {s} i t log free grows same h = record {
  only = h.only;
  current = h.current;
  waited = λ j p e. ground (arith, h.waited j p);
  sendings_le = λ j. ground (arith, h.sendings_le j, same j);
  repeated = λ j more. h.repeated j (omega (arith, same j));
}

-- A task moves on by a sending.
send-IsShared :
    {s : Page} (i : ℕ) (t : Task)
    → waits_for t ≡ none
    → sendings_at (s.tasks i) < sendings_at t
    → (1 < sendings_at t → WasRefreshed s)
    → IsShared s
    → IsShared (record s { tasks = update s.tasks i t; log = sent i ∷ s.log })
send-IsShared {s} i t free grows fresh h = record {
  only = h.only;
  current = h.current;
  waited = λ j p e. ground (arith, h.waited j p);
  sendings_le = λ j. ground (arith, h.sendings_le j);
  repeated = λ j more. elim (Bool-cases (eqb i j)) [
    | inl same ↦ fresh (ground (arith, h.sendings_le j))
    | inr other ↦ h.repeated j (ground arith)
  ];
}

-- A task begins to wait.
wait-IsShared :
    {s : Page} (i : ℕ) (wait : ℕ → Task)
    → ((p : ℕ) → waits_for (wait p) ≡ some p)
    → ((p : ℕ) → sendings_at (s.tasks i) ≤ sendings_at (wait p))
    → (o : Option ℕ) → s.shared ≡ o
    → IsShared s
    → IsShared (await_refresh s i wait o)
wait-IsShared {s} i wait waits grows (some p) e h = record {
  only = h.only;
  current = h.current;
  waited = λ j q w. ground (arith, h.waited j q, waits p, h.current p);
  sendings_le = λ j. ground (arith, h.sendings_le j, grows p);
  repeated = h.repeated;
}
wait-IsShared {s} i wait waits grows none e h = record {
  only = λ p lt pends. elim (Bool-cases (eqb s.started p)) [
    | inl same ↦ ground arith
    | inr other ↦ ground (arith, h.only p)
  ];
  current = λ p same. ground arith;
  waited = λ j q w. ground (arith, h.waited j q, waits s.started);
  sendings_le = λ j. ground (arith, h.sendings_le j, grows s.started);
  repeated = λ j more.
      let (p, tokens, was, holds, lt) = h.repeated j more in
      (p, tokens, ground arith, holds, ground arith);
}

settle-IsShared :
    {s : Page} (p : ℕ) (r : Result Value) (log : List Event)
    → p < s.started
    → s.refreshes p ≡ pending
    → ((j : ℕ) → sendings j log ≡ sendings j s.log)
    → IsShared s
    → IsShared (record s { refreshes = update s.refreshes p (settled r); shared = none; log = log })
settle-IsShared {s} p r log lt e same h = record {
  only = λ q below pends. elim (Bool-cases (eqb p q)) [
    | inl equal ↦ ground arith
    | inr other ↦ ground (arith, h.only p lt e, h.only q below)
  ];
  current = λ q no. ground arith;
  waited = h.waited;
  sendings_le = λ j. omega (arith, h.sendings_le j, same j);
  repeated = λ j more.
      let (q, tokens, was, holds, below) = h.repeated j (omega (arith, same j)) in
      (q, tokens, ground arith, holds, below);
}

hear-IsShared : {s : Page} (i : ℕ) (a : Answer) → IsShared s → IsShared (hear s i a)
hear-IsShared i a h = record {
  only = h.only;
  current = h.current;
  waited = h.waited;
  sendings_le = h.sendings_le;
  repeated = h.repeated;
}

module _ (host : Host) (in_browser : Bool) (callers : ℕ → Caller) where
  begin-IsShared :
      {s : Page} (i : ℕ)
      → s.tasks i ≡ idle
      → IsShared s
      → IsShared (begin host in_browser callers s i)
  unfolding begin
  begin-IsShared {s} i e h = by_caller (callers i)
    where
      by_caller : (c : Caller) → IsShared (begin_as host in_browser callers s i c)
      by_caller (api_request endpoint skip) =
          send-IsShared i asked refl (rw e (omega arith)) (λ more. absurd (omega arith)) h
      by_caller refresh_auth_tokens =
          wait-IsShared i refreshing (λ p. refl) (λ p. rw e (omega arith)) s.shared refl h

  answer-IsShared :
      {s : Page} (i : ℕ) (a : Answer)
      → s.tasks i ≡ asked
      → IsShared s
      → IsShared (after_answer host in_browser callers s i a)
  unfolding after_answer
  answer-IsShared {s} i (fails x) e h =
      set-IsShared i _ (received i (fails x) ∷ s.log) refl (rw e (omega arith)) (λ j. refl) h
  answer-IsShared {s} i (answers r) e h = elim (Bool-cases (may_refresh in_browser (callers i) r)) [
    | inl may ↦ rw may (
        wait-IsShared i (λ p. waiting p r) (λ p. refl) (λ p. rw e (omega arith)) s.shared refl
          (hear-IsShared i (answers r) h))
    | inr may_not ↦
        rw may_not (
          set-IsShared i _ (received i (answers r) ∷ s.log) refl (rw e (omega arith)) (λ j. refl) h)
  ]

  settling-IsShared :
      {s : Page} (p : ℕ) (a : Answer)
      → p < s.started
      → s.refreshes p ≡ pending
      → IsShared s
      → IsShared (after_settling host in_browser callers s p a)
  unfolding after_settling
  settling-IsShared {s} p (fails x) lt e h = settle-IsShared p _ _ lt e (λ j. refl) h
  settling-IsShared {s} p (answers r) lt e h = settle-IsShared p _ _ lt e (λ j. ground arith) h

  refresh-IsShared :
      {s : Page} (i p : ℕ) (r : Response) (tokens : Result Value)
      → s.tasks i ≡ waiting p r
      → s.refreshes p ≡ settled tokens
      → IsShared s
      → IsShared (after_refresh host in_browser callers s i r tokens)
  unfolding after_refresh
  refresh-IsShared {s} i p r (throws x) e was h =
      set-IsShared i _ s.log refl (rw e (omega arith)) (λ j. refl) h
  refresh-IsShared {s} i p r (ok tokens) e was h = elim (Bool-cases (truthy tokens)) [
    | inl holds ↦ rw holds (
        send-IsShared i asked_again refl (rw e (omega arith))
          (λ more. (p, tokens, was, holds, h.waited i p (ap waits_for e))) h)
    | inr fails_to ↦ rw fails_to (set-IsShared i _ s.log refl (rw e (omega arith)) (λ j. refl) h)
  ]

  second-IsShared :
      {s : Page} (i : ℕ) (a : Answer)
      → s.tasks i ≡ asked_again
      → IsShared s
      → IsShared (after_second host in_browser callers s i a)
  unfolding after_second
  second-IsShared {s} i (fails x) e h =
      set-IsShared i _ (received i (fails x) ∷ s.log) refl (rw e (omega arith)) (λ j. refl) h
  second-IsShared {s} i (answers r) e h =
      set-IsShared i _ _ refl (rw e (omega arith)) (λ j. ground arith) h

  joined-IsShared :
      {s : Page} (i p : ℕ) (tokens : Result Value)
      → s.tasks i ≡ refreshing p
      → IsShared s
      → IsShared (after_refreshing host in_browser callers s i tokens)
  unfolding after_refreshing
  joined-IsShared {s} i p tokens e h =
      set-IsShared i _ s.log refl (rw e (omega arith)) (λ j. refl) h

  pub Step-IsShared :
      {n : ℕ} {s t : Page} → Step host in_browser callers n s t → IsShared s → IsShared t
  Step-IsShared (beginning i lt e) h = begin-IsShared i e h
  Step-IsShared (answered i a lt e) h = answer-IsShared i a e h
  Step-IsShared (settling p a lt e) h = settling-IsShared p a lt e h
  Step-IsShared (refreshed i p r tokens lt e was) h = refresh-IsShared i p r tokens e was h
  Step-IsShared (joined i p tokens lt e was) h = joined-IsShared i p tokens e h
  Step-IsShared (answered_again i a lt e) h = second-IsShared i a e h

  -- On every page that any interleaving of any number of callers leads to, no refresh is under way
  -- but the shared one, who waits for a refresh waits for one that was started, and a request was
  -- sent at most twice, and more than once only if a refresh has brought tokens.
  pub Reach-IsShared : {n k : ℕ} {s : Page} → Reach host in_browser callers n k s → IsShared s
  Reach-IsShared start = start-IsShared
  Reach-IsShared (later r st) = Step-IsShared st (Reach-IsShared r)
