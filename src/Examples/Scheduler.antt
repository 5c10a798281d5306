-- ===== src/Examples/Scheduler.antt =====
-- The scheduler, its intervals and its cadence at concrete inputs.
use crytpo_data.Shared.{
  ℕ, ◌≡◌, refl, ◌≤◌, ◌<◌, ◌+◌, max, inr, none, some, [], ◌∷◌, false, Result, Error, ok, err, arith,
}
use crytpo_data.Shared.Decimal.{of_int, den, plus, minus, times, shift_down, least}
use crytpo_data.Network.Bucket.{TokenBucket, finite, try_acquire, refill_at, replenished}
use crytpo_data.Network.Budgets.{BudgetKey, Registry, try_acquire_one}
use crytpo_data.Network.Budgets.First.{TakenFrom, try_acquire_one-TakenFrom}
use crytpo_data.Scheduler.Interval.{stretch_with_warning, solve_interval}
use crytpo_data.Scheduler.Interval.Least.{Solves, solve_interval-Solves}
use crytpo_data.Scheduler.Cadence.{
  StableCadence, phase_ns, phase_ns-lt, IsDue, latest_due_ns, next_due_ns, next_due_ns-least,
  latest_due_ns-greatest,
}
use crytpo_data.Scheduler.Controller.{
  IntervalController, IntervalProposal, IntervalChange, mark_unhealthy, commit, activate,
  check_activate, validate_proposal, publish_and_apply, apply_proposal,
}
use crytpo_data.Scheduler.Controller.Freshness.{IsValid, here, next, marked, Reach-Keeps}
use crytpo_data.Scheduler.Controller.Once.{Taken-once}
use crytpo_data.Scheduler.Controller.Recovery.{refreshes, refreshes_reach}
use crytpo_data.Scheduler.Job.{RestJob, core_derivative, RestDispatch, route_keys, eligible_routes}
use crytpo_data.Scheduler.Queue.Settled.{IsSettled, promote_ready-IsSettled}
use crytpo_data.Scheduler.Queue.{promote_ready, RestScheduler, new_scheduler}
use crytpo_data.Scheduler.Queue.Sound.{IsSound}
use crytpo_data.Scheduler.Submit.{submit, enqueued}
use crytpo_data.Scheduler.Submit.Keeps.{submit-IsSound}
use crytpo_data.Scheduler.Dispatch.{next_ready, prepare, select, unless_closed, scan}
use crytpo_data.Scheduler.Dispatch.{pass, next_wait_deadline_ns}
use crytpo_data.Scheduler.Queue.{Entry, pending_jobs}
use crytpo_data.Shared.{All, List}
use crytpo_data.Scheduler.Dispatch.Wait.{
  AtMost, WakesFor, IsPass, pass-IsPass, next_wait_deadline_ns-AtMost,
}
use crytpo_data.Scheduler.Dispatch.Rounds.{IsSent}
use crytpo_data.Scheduler.Dispatch.Sound.{next_ready-IsSound, next_ready-IsSent}

solve_interval-Solves_example :
    Solves 1_000_000_000 30 (of_int 2) (of_int 20) stretch_with_warning 5_000_000_000 (
      solve_interval 1_000_000_000 30
        (finite (of_int 2))
        (finite (of_int 20))
        stretch_with_warning
        5_000_000_000)
solve_interval-Solves_example =
    solve_interval-Solves 1_000_000_000 30 (of_int 2) (of_int 20) stretch_with_warning 5_000_000_000
      (omega arith) (omega arith) (omega arith)

abbrev minutes : StableCadence
minutes = record { anchor_monotonic_ns = 100; interval_ns = 60; fraction = 0 }

next_due_ns-least_example :
    IsDue minutes (next_due_ns minutes 200)
    × (200 < next_due_ns minutes 200)
    × ((t : ℕ) → IsDue minutes t → 200 < t → next_due_ns minutes 200 ≤ t)
next_due_ns-least_example = next_due_ns-least minutes 200 (omega arith)

phase_ns-lt_example : phase_ns minutes < minutes.interval_ns
phase_ns-lt_example = phase_ns-lt minutes (omega arith) (omega arith)

latest_due_ns-greatest_example :
    ((t : ℕ) → IsDue minutes t → t ≤ 200 → (l : ℕ) × (latest_due_ns minutes 200 ≡ some l) × (t ≤ l))
    × ((l : ℕ)
        → latest_due_ns minutes 200 ≡ some l
        → IsDue minutes l × (l ≤ 200) × (next_due_ns minutes 200 ≡ l + minutes.interval_ns))
latest_due_ns-greatest_example = latest_due_ns-greatest minutes 200 (omega arith)

-- A controller at interval 20 that needs two healthy refreshes before a step.
abbrev slow_controller : IntervalController
slow_controller = record {
  current_ns = 20;
  recovery_step = record { coeff = 5; scale = 1 };
  healthy_refreshes = 0;
  healthy_refreshes_required = 2;
  last_refresh_id = none;
  revision = 7;
  activation_in_progress = false;
}

slow_controller-IsValid : IsValid slow_controller
slow_controller-IsValid = record { positive = omega arith; counted = omega arith }

refreshes_reach_example : (refreshes 12 10 1 slow_controller).current_ns ≡ 10
refreshes_reach_example =
    refreshes_reach 12 10 1 slow_controller slow_controller-IsValid refl (omega arith) (omega arith)
      refl (inr (omega arith))

Reach-Keeps_example :
    IsValid (mark_unhealthy slow_controller).1
    × (slow_controller.revision ≤ (mark_unhealthy slow_controller).1.revision)
Reach-Keeps_example = Reach-Keeps (next here (marked slow_controller)) slow_controller-IsValid

-- The interval grows from 20 to 30.
abbrev growth : IntervalProposal
growth = record {
  controller_revision = 7;
  previous_effective_ns = 20;
  effective_ns = 30;
  healthy_refreshes = 0;
  refresh_id = none;
  recovery_target_ns = none;
}

abbrev growth_change : IntervalChange
growth_change = record { previous_effective_ns = 20; effective_ns = 30 }

abbrev publish_nothing : IntervalController → Result (Unit {0}) × IntervalController
publish_nothing c = (ok tt, c)

abbrev grown : IntervalController
grown = record slow_controller { current_ns = 30; revision = 8 }

growth-activated : activate growth growth_change publish_nothing slow_controller ≡ (ok tt, grown)
unfolding activate check_activate validate_proposal publish_and_apply apply_proposal
growth-activated = refl

Taken-once_example :
    (e : Error) × (f : Error) × (commit growth grown ≡ (err e, grown))
    × (activate growth growth_change publish_nothing grown ≡ (err f, grown))
Taken-once_example =
    Taken-once growth growth_change publish_nothing slow_controller grown grown
      slow_controller-IsValid refl (omega arith)
      (inr (growth_change, publish_nothing, λ c. refl, growth-activated)) here

abbrev quota : BudgetKey
quota = ("exchange", ("ip", "depth"))

abbrev budget : TokenBucket
budget = record {
  hard_capacity = of_int 10;
  capacity = of_int 10;
  hard_refill_per_second = of_int 2;
  refill_per_second = of_int 2;
  tokens = of_int 10;
  last_refill_ns = 0;
}

abbrev job : RestJob
job = record {
  id = "job";
  priority = core_derivative;
  routes = record { egress_id = "a"; budget_key = quota } ∷ [];
  endpoint_cost = of_int 4;
  ready_monotonic_ns = 5;
  deadline_ns = some 100;
  interval = none;
  generation_source = none;
  attempt = 1;
  logical_key = none;
  replaceable = false;
  scheduled_ns = 5;
  control_context = "{}";
}

abbrev idle_scheduler : RestScheduler
idle_scheduler = record {
  budgets = (quota, budget) ∷ [];
  max_pending = 2;
  max_history = 2;
  last_now_ns = 0;
  sequence = 0;
  jobs = [];
  logical_index = [];
  future = [];
  ready = [];
  expired = [];
  evicted = [];
  next_budget_ready_ns = none;
  revision = 0;
  changed = false;
  closed = false;
}

idle_scheduler-IsSound : IsSound idle_scheduler
idle_scheduler-IsSound = record {
  dict = tt;
  ready_entries = tt;
  future_entries = tt;
  few_pending = omega arith;
  few_expired = omega arith;
  few_evicted = omega arith;
}

abbrev waiting : RestScheduler
waiting = (submit job 1 idle_scheduler).1

submit-enqueued : (submit job 1 idle_scheduler).0 ≡ ok enqueued
unfolding submit den route_keys
submit-enqueued = refl

submit-IsSound_example : IsSound (submit job 1 idle_scheduler).1
submit-IsSound_example = submit-IsSound job 1 idle_scheduler idle_scheduler-IsSound

waiting-IsSound : IsSound waiting
waiting-IsSound = submit-IsSound job 1 idle_scheduler idle_scheduler-IsSound

promote_ready-IsSettled_example : IsSettled 7 (promote_ready 7 waiting).future
promote_ready-IsSettled_example = promote_ready-IsSettled 7 waiting

next_ready-IsSound_example : IsSound (next_ready 7 waiting).1
next_ready-IsSound_example = next_ready-IsSound 7 waiting waiting-IsSound

abbrev dispatch : RestDispatch
dispatch = record {
  job = job;
  route = record { egress_id = "a"; budget_key = quota };
  dispatched_monotonic_ns = 7;
}

waiting-dispatched : next_ready 7 waiting ≡ (ok (some dispatch), (next_ready 7 waiting).1)
unfolding next_ready submit den route_keys try_acquire refill_at replenished eligible_routes prepare
    select unless_closed scan minus plus times shift_down least try_acquire_one
waiting-dispatched = refl

next_ready-IsSent_example :
    IsSent (max waiting.last_now_ns 7) dispatch waiting (next_ready 7 waiting).1
next_ready-IsSent_example =
    next_ready-IsSent 7 waiting (next_ready 7 waiting).1 dispatch waiting-IsSound waiting-dispatched

new_scheduler-idle : new_scheduler ((quota, budget) ∷ []) 2 2 0 ≡ ok idle_scheduler
unfolding new_scheduler
new_scheduler-idle = refl

abbrev empty_budget : TokenBucket
empty_budget = record budget { tokens = of_int 0; refill_per_second = of_int 0 }

abbrev other_quota : BudgetKey
other_quota = ("exchange", ("ip", "trades"))

abbrev two_budgets : Registry
two_budgets = (other_quota, empty_budget) ∷ (quota, budget) ∷ []

abbrev spent : Registry
spent = (try_acquire_one (other_quota ∷ quota ∷ []) (finite (of_int 4)) 7 none two_budgets).1

-- The first bucket is empty, and the second grants the cost.
one-granted :
    try_acquire_one (other_quota ∷ quota ∷ []) (finite (of_int 4)) 7 none two_budgets
    ≡ (ok (some quota), spent)
unfolding try_acquire_one try_acquire refill_at den replenished plus times shift_down least
one-granted = refl

try_acquire_one-TakenFrom_example :
    TakenFrom (finite (of_int 4)) 7 none (other_quota ∷ quota ∷ []) quota two_budgets spent
try_acquire_one-TakenFrom_example =
    try_acquire_one-TakenFrom (finite (of_int 4)) 7 none (other_quota ∷ quota ∷ []) two_budgets
      spent quota one-granted

pass-IsPass_example :
    IsPass (max waiting.last_now_ns 3) waiting (next_ready 3 waiting) (pass 3 4 waiting)
pass-IsPass_example = pass-IsPass 3 4 waiting waiting-IsSound

next_wait_deadline_ns-AtMost_example :
    let wake = next_wait_deadline_ns 3 waiting in
    All (WakesFor wake) (pending_jobs waiting)
    × ((e : Entry) (rest : List Entry) → waiting.future ≡ e ∷ rest → AtMost wake (max 3 e.key))
    × ((t : ℕ) → waiting.next_budget_ready_ns ≡ some t → AtMost wake (max 3 t))
next_wait_deadline_ns-AtMost_example = next_wait_deadline_ns-AtMost 3 waiting

waiting-wakes : next_wait_deadline_ns 3 waiting ≡ some 5
unfolding next_wait_deadline_ns submit den route_keys
waiting-wakes = refl
