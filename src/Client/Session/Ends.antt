-- ===== src/Client/Session/Ends.antt =====
-- How long a page runs: every call ends after a bounded number of steps, and none waits for ever
-- as long as what was sent is answered.
use relay_workflow_automatio.Prelude.{
  ℕ, zero, suc, ◌+◌, ◌*◌, ◌≤◌, ◌<◌, Bool, Option, none, some, List, ◌≡◌, refl, arith, eqb, eqb_iff,
  Bool-cases, ◌⊎◌, inl, inr, ap, subst,
}
use relay_workflow_automatio.Js.{Value, truthy}
use relay_workflow_automatio.Js.Host.{Host}
use relay_workflow_automatio.Js.Effect.{error, Result, ok, throws}
use relay_workflow_automatio.Client.Messages.{Response}
use relay_workflow_automatio.Client.Session.{
  Caller, api_request, refresh_auth_tokens, begin_as, await_refresh, Answer, fails, answers, Task,
  idle, asked, asked_again, waiting, refreshing, done, Refresh, pending, settled, Event, hear, Page,
  update, begin, after_answer, after_settling, after_refresh, after_refreshing, after_second, Step,
  beginning, answered, settling, refreshed, joined, answered_again, Reach, start, later,
  may_refresh,
}
use relay_workflow_automatio.Client.Session.Shared.{waits_for, IsShared, Reach-IsShared}

-- the most steps that a call has before it, with that of a refresh which it may start
weight : Task → ℕ
weight idle = 5
weight asked = 4
weight (waiting p r) = 2
weight (refreshing p) = 2
weight asked_again = 1
weight (done v) = 0

total : ℕ → (ℕ → Task) → ℕ
total zero f = 0
total (suc n) f = total n f + weight (f n)

total-skip : (n : ℕ) (f : ℕ → Task) (i : ℕ) (t : Task) → n ≤ i → total n (update f i t) ≡ total n f
unfolding total
total-skip zero f i t h = refl
total-skip (suc n) f i t h = ground (arith, total-skip n f i t)

total-update :
    (n : ℕ) (f : ℕ → Task) (i : ℕ) (t : Task)
    → i < n
    → total n (update f i t) + weight (f i) ≡ total n f + weight t
unfolding total
total-update zero f i t h = absurd (omega arith)
total-update (suc n) f i t h = elim (Bool-cases (eqb i n)) [
  | inl last ↦ ground (arith, total-skip n f i t)
  | inr before ↦ ground (arith, total-update n f i t)
]

under_way : Option ℕ → ℕ
under_way none = 0
under_way (some p) = 1

left : ℕ → Page → ℕ
left n s = total n s.tasks + under_way s.shared

total-start : (n : ℕ) → total n (λ i. idle) ≡ 5 * n
unfolding total weight
total-start zero = refl
total-start (suc n) = omega (arith, total-start n)

-- A task moves on to one of less weight.
set-left :
    (n : ℕ) (s : Page) (i : ℕ) (t : Task) (log : List Event)
    → i < n
    → weight t < weight (s.tasks i)
    → left n (record s { tasks = update s.tasks i t; log = log }) < left n s
unfolding left
set-left n s i t log lt h = omega (arith, total-update n s.tasks i t lt)

-- It begins to wait, possibly for a refresh that it starts.
await-left :
    (n : ℕ) (s : Page) (i : ℕ) (wait : ℕ → Task) (o : Option ℕ)
    → s.shared ≡ o
    → i < n
    → ((p : ℕ) → weight (wait p) + 1 < weight (s.tasks i))
    → left n (await_refresh s i wait o) < left n s
unfolding left under_way
await-left n s i wait (some p) e lt h = omega (arith, total-update n s.tasks i (wait p) lt, h p)
await-left n s i wait none e lt h =
    omega (arith, total-update n s.tasks i (wait s.started) lt, h s.started, ap under_way e)

hear-left : (n : ℕ) (s : Page) (i : ℕ) (a : Answer) → left n (hear s i a) ≡ left n s
unfolding left
hear-left n s i a = refl

module _ (host : Host) (in_browser : Bool) (callers : ℕ → Caller) (n : ℕ) where
  begin-left :
      (s : Page) (i : ℕ)
      → i < n
      → s.tasks i ≡ idle
      → left n (begin host in_browser callers s i) < left n s
  unfolding begin weight
  begin-left s i lt e = by_caller (callers i)
    where
      by_caller : (c : Caller) → left n (begin_as host in_browser callers s i c) < left n s
      by_caller (api_request endpoint skip) = set-left n s i asked _ lt (rw e (omega arith))
      by_caller refresh_auth_tokens =
          await-left n s i refreshing s.shared refl lt (λ p. rw e (omega arith))

  answer-left :
      (s : Page) (i : ℕ) (a : Answer)
      → i < n
      → s.tasks i ≡ asked
      → left n (after_answer host in_browser callers s i a) < left n s
  unfolding after_answer weight
  answer-left s i (fails x) lt e = set-left n s i _ _ lt (rw e (omega arith))
  answer-left s i (answers r) lt e = elim (Bool-cases (may_refresh in_browser (callers i) r)) [
    | inl may ↦ rw may (
        subst (λ m. left n (await_refresh (hear s i (answers r)) i (λ p. waiting p r) s.shared) < m)
          (hear-left n s i (answers r))
          (await-left n (hear s i (answers r)) i (λ p. waiting p r) s.shared refl lt
            (λ p. rw e (omega arith))))
    | inr may_not ↦ rw may_not (set-left n s i _ _ lt (rw e (omega arith)))
  ]

  settling-left :
      (s : Page) (p : ℕ) (a : Answer)
      → s.shared ≡ some p
      → left n (after_settling host in_browser callers s p a) < left n s
  unfolding after_settling left under_way
  settling-left s p a e = omega (arith, ap under_way e)

  refresh-left :
      (s : Page) (i p : ℕ) (r : Response) (tokens : Result Value)
      → i < n
      → s.tasks i ≡ waiting p r
      → left n (after_refresh host in_browser callers s i r tokens) < left n s
  unfolding after_refresh weight
  refresh-left s i p r (throws x) lt e = set-left n s i _ _ lt (rw e (omega arith))
  refresh-left s i p r (ok v) lt e = elim (Bool-cases (truthy v)) [
    | inl holds ↦ rw holds (set-left n s i _ _ lt (rw e (omega arith)))
    | inr none_given ↦ rw none_given (set-left n s i _ _ lt (rw e (omega arith)))
  ]

  second-left :
      (s : Page) (i : ℕ) (a : Answer)
      → i < n
      → s.tasks i ≡ asked_again
      → left n (after_second host in_browser callers s i a) < left n s
  unfolding after_second weight
  second-left s i (fails x) lt e = set-left n s i _ _ lt (rw e (omega arith))
  second-left s i (answers r) lt e = set-left n s i _ _ lt (rw e (omega arith))

  joined-left :
      (s : Page) (i p : ℕ) (tokens : Result Value)
      → i < n
      → s.tasks i ≡ refreshing p
      → left n (after_refreshing host in_browser callers s i tokens) < left n s
  unfolding after_refreshing weight
  joined-left s i p tokens lt e = set-left n s i _ _ lt (rw e (omega arith))

  Step-left : {s t : Page} → Step host in_browser callers n s t → IsShared s → left n t < left n s
  Step-left (beginning i lt e) h = begin-left _ i lt e
  Step-left (answered i a lt e) h = answer-left _ i a lt e
  Step-left (settling p a lt e) h = settling-left _ p a (h.only p lt e)
  Step-left (refreshed i p r tokens lt e was) h = refresh-left _ i p r tokens lt e
  Step-left (joined i p tokens lt e was) h = joined-left _ i p tokens lt e
  Step-left (answered_again i a lt e) h = second-left _ i a lt e

  Reach-left : {k : ℕ} {s : Page} → Reach host in_browser callers n k s → k + left n s ≤ 5 * n
  unfolding left under_way
  Reach-left start = omega (arith, total-start n)
  Reach-left (later r st) =
      omega (arith, Reach-left r, Step-left st (Reach-IsShared host in_browser callers r))

  abbrev pub HasStep : Page → Type 0
  HasStep s = (t : Page) × Step host in_browser callers n s t

  -- a call that has not ended can go on, or the refresh that it waits for can
  wake :
      {s : Page} (p : ℕ)
      → p < s.started
      → ((tokens : Result Value) → s.refreshes p ≡ settled tokens → HasStep s)
      → HasStep s
  wake {s} p lt go = by_state (s.refreshes p) refl
    where
      by_state : (r : Refresh) → s.refreshes p ≡ r → HasStep s
      by_state pending e = (_, settling p (fails (error "")) lt e)
      by_state (settled tokens) e = go tokens e

  advance :
      {s : Page}
      → IsShared s
      → (i : ℕ) → i < n
      → ((v : Result Value) × (s.tasks i ≡ done v)) ⊎ HasStep s
  advance {s} h i lt = by_task (s.tasks i) refl
    where
      by_task : (t : Task) → s.tasks i ≡ t → ((v : Result Value) × (s.tasks i ≡ done v)) ⊎ HasStep s
      by_task idle e = inr (_, beginning i lt e)
      by_task asked e = inr (_, answered i (fails (error "")) lt e)
      by_task (waiting p r) e = inr (
          wake p (h.waited i p (ap waits_for e))
            (λ tokens was. (_, refreshed i p r tokens lt e was)))
      by_task (refreshing p) e =
          inr
            (wake p (h.waited i p (ap waits_for e)) (λ tokens was. (_, joined i p tokens lt e was)))
      by_task asked_again e = inr (_, answered_again i (fails (error "")) lt e)
      by_task (done v) e = inl (v, e)

  abbrev pub AllDone : ℕ → Page → Type 0
  AllDone m s = (i : ℕ) → i < m → (v : Result Value) × (s.tasks i ≡ done v)

  all_below : {s : Page} → IsShared s → (m : ℕ) → m ≤ n → AllDone m s ⊎ HasStep s
  all_below h zero le = inl (λ i lt. absurd (omega arith))
  all_below {s} h (suc m) le = elim (all_below h m (omega arith)) [
    | inr step ↦ inr step
    | inl before ↦ elim (advance h m (omega arith)) [
      | inr step ↦ inr step
      | inl last ↦ inl (λ i lt. elim (Bool-cases (eqb m i)) [
        | inl same ↦
            subst (λ j. (v : Result Value) × (s.tasks j ≡ done v)) ((eqb_iff m i).0 same) last
        | inr other ↦ before i (ground arith)
      ])
    ]
  ]

  -- However `n` calls on a page interleave, and whatever they are answered, there are at most 5 * n
  -- steps, and as long as not every call has ended a further step is possible (an answer counts as
  -- one).
  pub calls_end :
      {k : ℕ} {s : Page}
      → Reach host in_browser callers n k s
      → (k ≤ 5 * n) × (AllDone n s ⊎ HasStep s)
  calls_end r = (
    omega (arith, Reach-left r),
    all_below (Reach-IsShared host in_browser callers r) n (omega arith),
  )
