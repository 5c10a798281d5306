-- ===== src/Scheduler/Dispatch/Wait.antt =====
-- The wait of `next_ready` in scheduler/rest.py.
use crytpo_data.Shared.{
  ℕ, ◌+◌, ◌≤◌, ◌≡◌, refl, false, max, Result, ok, err, inl, inr, Option, none, some, List, [], ◌∷◌,
  All, All-map, arith, Option-cases, Result-cases,
}
use crytpo_data.Scheduler.Queue.{Pending, Entry, RestScheduler, pending_jobs, observe_now}
use crytpo_data.Scheduler.Queue.Sound.{IsSound}
use crytpo_data.Scheduler.Queue.Keeps.{observe_now-IsSound}
use crytpo_data.Scheduler.Dispatch.{
  least_instant, no_earlier, head_key, deadline_wakes, next_wait_deadline_ns, next_ready, pass,
  Pass, dispatched, waits_until,
}
use crytpo_data.Scheduler.Dispatch.Rounds.{IsSent}
use crytpo_data.Scheduler.Job.{RestDispatch}
use crytpo_data.Scheduler.Dispatch.Sound.{next_ready-IsSound, next_ready-IsSent}

-- There is an instant, and it is not after a bound.
abbrev pub AtMost : Option ℕ → ℕ → Type 0
AtMost none n = ⊥
AtMost (some t) n = t ≤ n

AtMost-least_left : (a b : Option ℕ) (n : ℕ) → AtMost a n → AtMost (least_instant a b) n
AtMost-least_left (some a) none n h = h
AtMost-least_left (some a) (some b) n h = omega arith
AtMost-least_left none b n h = absurd h

AtMost-least_right : (a b : Option ℕ) (n : ℕ) → AtMost b n → AtMost (least_instant a b) n
AtMost-least_right none b n h = h
AtMost-least_right (some a) (some b) n h = omega arith
AtMost-least_right (some a) none n h = absurd h

-- The wait ends before the deadline is past by more than a nanosecond.
abbrev pub WakesFor : Option ℕ → Pending → Type 0
WakesFor wake p = (d : ℕ) → p.job.deadline_ns ≡ some d → AtMost wake (d + 1)

WakesFor-first : (p : Pending) (ps : List Pending) → WakesFor (deadline_wakes (p ∷ ps)) p
WakesFor-first p ps d due =
    simp (due, deadline_wakes)
      (AtMost-least_left (some (d + 1)) (deadline_wakes ps) (d + 1) (omega arith))

AtMost-later :
    (p : Pending) (ps : List Pending) (n : ℕ)
    → AtMost (deadline_wakes ps) n
    → AtMost (deadline_wakes (p ∷ ps)) n
AtMost-later p ps n h = elim (Option-cases p.job.deadline_ns) [
  | inl open_ended ↦ simp (open_ended, deadline_wakes) h
  | inr (d, due) ↦
      simp (due, deadline_wakes) (AtMost-least_right (some (d + 1)) (deadline_wakes ps) n h)
]

deadline_wakes-WakesFor : (ps : List Pending) → All (WakesFor (deadline_wakes ps)) ps
deadline_wakes-WakesFor [] = tt
deadline_wakes-WakesFor (p ∷ ps) = (
  WakesFor-first p ps,
  All-map (WakesFor (deadline_wakes ps)) (λ q h d due. AtMost-later p ps (d + 1) (h d due)) ps
      (deadline_wakes-WakesFor ps),
)

head_key-AtMost :
    (now : ℕ) (s : RestScheduler) (e : Entry) (rest : List Entry)
    → s.future ≡ e ∷ rest
    → AtMost (no_earlier now (head_key s.future)) (max now e.key)
head_key-AtMost now s e rest first = rw first (omega arith)

budget-AtMost :
    (now : ℕ) (s : RestScheduler) (t : ℕ)
    → s.next_budget_ready_ns ≡ some t
    → AtMost (no_earlier now s.next_budget_ready_ns) (max now t)
budget-AtMost now s t blocked = rw blocked (omega arith)

-- The wait of `next_ready` ends in time: at the latest, one nanosecond after the deadline of any
-- pending job, when the first future entry is due, and when the next blocked budget is ready, where
-- an instant that has passed counts as now.
pub next_wait_deadline_ns-AtMost :
    (now : ℕ) (s : RestScheduler)
    → let wake = next_wait_deadline_ns now s in
      All (WakesFor wake) (pending_jobs s)
      × ((e : Entry) (rest : List Entry) → s.future ≡ e ∷ rest → AtMost wake (max now e.key))
      × ((t : ℕ) → s.next_budget_ready_ns ≡ some t → AtMost wake (max now t))
unfolding next_wait_deadline_ns
next_wait_deadline_ns-AtMost now s =
    let budget = no_earlier now s.next_budget_ready_ns in
    let future = no_earlier now (head_key s.future) in
    let wakes = deadline_wakes (pending_jobs s) in
    (
      All-map (WakesFor wakes)
          (λ p h d due.
            AtMost-least_right budget (least_instant future wakes) (d + 1)
              (AtMost-least_right future wakes (d + 1) (h d due)))
          (pending_jobs s) (deadline_wakes-WakesFor (pending_jobs s)),
      λ e rest first.
          AtMost-least_right budget (least_instant future wakes) (max now e.key)
            (AtMost-least_left future wakes (max now e.key) (head_key-AtMost now s e rest first)),
      λ t blocked.
          AtMost-least_left budget (least_instant future wakes) (max now t)
            (budget-AtMost now s t blocked),
    )

-- What a wait is to find: the invariant, a cleared signal, the jobs that the look for a ready one left,
-- and an instant that comes in time for each of them.
pub record IsWaiting (wake : Option ℕ) (before s : RestScheduler) : Type 0 where
  pub is_sound : IsSound s
  pub cleared : s.changed ≡ false
  pub same_jobs : s.jobs ≡ before.jobs
  pub for_deadlines : All (WakesFor wake) (pending_jobs s)
  pub for_future :
      (e : Entry) (rest : List Entry) → s.future ≡ e ∷ rest → AtMost wake (max s.last_now_ns e.key)
  pub for_budget : (t : ℕ) → s.next_budget_ready_ns ≡ some t → AtMost wake (max s.last_now_ns t)

-- What holds after a pass of the loop of `next_ready` from `s`, whose look for a ready job comes to
-- `look`.
abbrev pub IsPass :
    (now : ℕ) (s : RestScheduler) (look : Result (Option RestDispatch) × RestScheduler)
    (x : Result Pass × RestScheduler)
    → Type 0
IsPass now s look (err e, s') = (look.0 ≡ err e) × IsSound s'
IsPass now s look (ok (dispatched d), s') = IsSound s' × IsSent now d s s'
IsPass now s look (ok (waits_until wake), s') = (look.0 ≡ ok none) × IsWaiting wake look.1 s'

both_results : {A : Type 0} (x : Result A × RestScheduler) {r : Result A} → x.0 ≡ r → x ≡ (r, x.1)
both_results (r', t) h = cc

clear-IsSound : (s : RestScheduler) → IsSound s → IsSound (record s { changed = false })
clear-IsSound s v = record {
  dict = v.dict;
  ready_entries = v.ready_entries;
  future_entries = v.future_entries;
  few_pending = v.few_pending;
  few_expired = v.few_expired;
  few_evicted = v.few_evicted;
}

wait-IsWaiting :
    (later : ℕ) (s : RestScheduler)
    → IsSound s
    → let t = observe_now later s in
      IsWaiting (next_wait_deadline_ns t.last_now_ns t) s (record t { changed = false })
unfolding observe_now
wait-IsWaiting later s v =
    let t = observe_now later s in
    let (deadlines, future, budget) = next_wait_deadline_ns-AtMost t.last_now_ns t in
    record {
      is_sound = clear-IsSound t (observe_now-IsSound later s v);
      cleared = refl;
      same_jobs = refl;
      for_deadlines = deadlines;
      for_future = future;
      for_budget = budget;
    }

-- If the scheduler satisfies the invariant, it does after a pass of the loop of `next_ready`, whatever
-- that comes to. A pass that dispatches a job sends it as `next_ready-IsSent` says. A pass waits only
-- when there is no job to dispatch; the signal of a change is cleared then, all jobs that were left
-- are still pending, and the wait ends in time: at the latest, one nanosecond after the deadline of any
-- pending job, when the first future entry is due, and when the next blocked budget is ready, where an
-- instant that has passed counts as now. A pass that raises raises what the look for a job raised.
pub pass-IsPass :
    (clock later : ℕ) (s : RestScheduler)
    → IsSound s
    → IsPass (max s.last_now_ns clock) s (next_ready clock s) (pass clock later s)
unfolding pass
pass-IsPass clock later s v = elim (Result-cases (next_ready clock s).0) [
  | inl (e, failed) ↦ simp (failed, pass) (refl, next_ready-IsSound clock s v)
  | inr (some d, sent) ↦
      simp (sent, pass)
        (
          next_ready-IsSound clock s v,
          next_ready-IsSent clock s (next_ready clock s).1 d v (both_results _ sent),
        )
  | inr (none, idle) ↦
      simp (idle, pass) (refl, wait-IsWaiting later _ (next_ready-IsSound clock s v))
]
