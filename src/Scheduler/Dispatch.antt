-- ===== src/Scheduler/Dispatch.antt =====
-- `RestScheduler._next_ready` and `_next_wait_deadline_ns`.
pub mod Rounds
pub mod Sound
pub mod Wait
use crytpo_data.Shared.{
  ℕ, zero, suc, ◌+◌, min, max, Bool, true, false, not, Option, none, some, List, [], ◌∷◌, ◌++◌,
  String, str_eq, leb, ltb, ◌==◌, if◌then◌else◌, length, filter_by, find_first, any, contains,
  Result, Error, ok, err, value_error, scheduler_closed, key_error, lookup, Eq, string_eq, pair_eq,
  ◌=?◌,
}
use crytpo_data.Network.Bucket.{finite}
use crytpo_data.Network.Budgets.{BudgetKey, Registry, try_acquire_one, registry_ready_at_ns}
use crytpo_data.Scheduler.Job.{
  RestJob, RestBudgetRoute, RestDispatch, route_keys, eligible_routes, check_dispatch,
}
use crytpo_data.Scheduler.Queue.{
  Pending, Entry, RestScheduler, push, observe_now, pending_jobs, complete_pending, expire, is_past,
  expire_all, live_pending, promote_ready,
}

-- The variables of the loop beside the scheduler.
pub record Round : Type 0 where
  pub scheduler : RestScheduler
  pub blocked : List Entry
  pub blocked_budgets : List BudgetKey
  pub next_budget_ready_ns : Option ℕ

abbrev pub least_instant : Option ℕ → Option ℕ → Option ℕ
least_instant none b = b
least_instant (some a) none = some a
least_instant (some a) (some b) = some (min a b)

-- The inner `for` loop, which asks the blocked budgets when they will be ready.
unfoldable pub ask_budgets :
    ℕ → RestJob → List BudgetKey → Option ℕ → Registry → Result (Option ℕ) × Registry
unfolding registry_ready_at_ns
ask_budgets now job [] found r = (ok found, r)
ask_budgets now job (key ∷ keys) found r =
    let (x, r') = registry_ready_at_ns key (finite job.endpoint_cost) now (some now) r in
    elim x [ err e ↦ (err e, r') | ok at ↦ ask_budgets now job keys (least_instant found at) r' ]

abbrev with_budgets : Registry → Round → Round
with_budgets r w = record w { scheduler = record w.scheduler { budgets = r } }

abbrev block : Entry → Round → Round
block e w = record w { blocked = w.blocked ++ e ∷ [] }

-- How a round ends: the loop goes on, a job goes out, or an exception leaves the loop.
pub data Turn : Type 0 where
  again : Round → Turn
  selected : RestDispatch → Round → Turn
  raised : Error → Round → Turn

-- `next(route for route in routes if route.budget_key == selected_key)`, and the dispatch.
unfoldable pub send : ℕ → Pending → BudgetKey → Round → Turn
unfolding complete_pending check_dispatch
send now p key w =
    let w' = record w { scheduler = complete_pending p w.scheduler } in
    elim (find_first (λ r. r.budget_key =? key) (eligible_routes p.job)) [
      | none ↦ raised key_error w'
      | some route ↦
          let d : RestDispatch = record {
            job = p.job;
            route = route;
            dispatched_monotonic_ns = now;
          } in
          elim (check_dispatch d) [ err e ↦ raised e w' | ok _ ↦ selected d w' ]
    ]

-- No budget granted the cost: they are blocked for this call, and asked for their instants.
unfoldable pub hold : ℕ → Entry → RestJob → List BudgetKey → Round → Turn
unfolding ask_budgets
hold now e job keys w =
    let (x, r) = ask_budgets now job keys w.next_budget_ready_ns w.scheduler.budgets in
    let w' = record (with_budgets r w) { blocked_budgets = w.blocked_budgets ++ keys } in
    elim x [
      | err error ↦ raised error w'
      | ok found ↦ again (block e (record w' { next_budget_ready_ns = found }))
    ]

-- The part of a round that acquires tokens.
unfoldable pub attempt : ℕ → Entry → Pending → Round → Turn
unfolding send hold try_acquire_one eligible_routes route_keys
attempt now e p w =
    let keys =
      filter_by (λ k. not (contains w.blocked_budgets k)) (route_keys (eligible_routes p.job)) in
    elim (length keys == 0) [
      | true ↦ again (block e w)
      | false ↦
          let (x, r) =
            try_acquire_one keys (finite p.job.endpoint_cost) now (some now) w.scheduler.budgets in
          elim x [
            | err error ↦ raised error (with_budgets r w)
            | ok none ↦ hold now e p.job keys (with_budgets r w)
            | ok (some key) ↦ send now p key (with_budgets r w)
          ]
    ]

-- One round of the loop, on the entry that was popped from `ready`.
unfoldable pub visit : ℕ → Entry → Round → Turn
unfolding attempt live_pending expire
visit now e w = elim (live_pending e w.scheduler) [
  | none ↦ again w
  | some p ↦
      if is_past now p.job
      then again (record w { scheduler = expire p w.scheduler })
      else attempt now e p w
]

abbrev finished : Round → Result (Option RestDispatch) × Round
finished w = (ok none, w)

-- The `while` loop; each round takes an entry from `ready`, so its length is enough fuel.
unfoldable pub scan : (fuel now : ℕ) → Round → Result (Option RestDispatch) × Round
unfolding visit
scan zero now w = finished w
scan (suc fuel) now w = elim w.scheduler.ready [
  | [] ↦ finished w
  | e ∷ rest ↦ elim (visit now e (record w { scheduler = record w.scheduler { ready = rest } })) [
    | again w' ↦ scan fuel now w'
    | selected d w' ↦ (ok (some d), w')
    | raised error w' ↦ (err error, w')
  ]
]

unfoldable pub push_all : List Entry → List Entry → List Entry
unfolding push
push_all [] ready = ready
push_all (e ∷ es) ready = push_all es (push e ready)

-- After the loop: the blocked entries go back.
unfoldable pub finish :
    Result (Option RestDispatch) × Round → Result (Option RestDispatch) × RestScheduler
unfolding push_all
finish (err error, w) = (err error, w.scheduler)
finish (ok d, w) = (
  ok d,
  record w.scheduler {
    ready = push_all w.blocked w.scheduler.ready;
    next_budget_ready_ns = w.next_budget_ready_ns;
  },
)

-- What the loop starts from.
unfoldable pub prepare : (clock : ℕ) → RestScheduler → RestScheduler
unfolding observe_now expire_all promote_ready
prepare clock s =
    let s' = observe_now clock s in promote_ready s'.last_now_ns (expire_all s'.last_now_ns s').1

abbrev pub first_round : RestScheduler → Round
first_round s = record {
  scheduler = s;
  blocked = [];
  blocked_budgets = [];
  next_budget_ready_ns = none;
}

unfoldable pub select : RestScheduler → Result (Option RestDispatch) × RestScheduler
unfolding scan finish
select s = finish (scan (length s.ready) s.last_now_ns (first_round s))

unfoldable pub unless_closed :
    Bool → (clock : ℕ) → RestScheduler → Result (Option RestDispatch) × RestScheduler
unfolding prepare select
unless_closed true clock s = (err scheduler_closed, s)
unless_closed false clock s = select (prepare clock s)

-- `_next_ready`
unfoldable pub next_ready :
    (clock : ℕ) → RestScheduler → Result (Option RestDispatch) × RestScheduler
unfolding unless_closed
next_ready clock s = unless_closed s.closed clock s

-- `_next_wait_deadline_ns`
abbrev pub deadline_wakes : List Pending → Option ℕ
deadline_wakes [] = none
deadline_wakes (p ∷ ps) = elim p.job.deadline_ns [
  | none ↦ deadline_wakes ps
  | some d ↦ least_instant (some (d + 1)) (deadline_wakes ps)
]

abbrev pub no_earlier : ℕ → Option ℕ → Option ℕ
no_earlier now none = none
no_earlier now (some t) = some (max now t)

abbrev pub head_key : List Entry → Option ℕ
head_key [] = none
head_key (e ∷ es) = some e.key

unfoldable pub next_wait_deadline_ns : ℕ → RestScheduler → Option ℕ
next_wait_deadline_ns now s =
    least_instant (no_earlier now s.next_budget_ready_ns)
      (least_instant (no_earlier now (head_key s.future)) (deadline_wakes (pending_jobs s)))

-- What a pass of the loop of `next_ready` comes to: a dispatch, or a wait until an instant or a
-- change.
pub data Pass : Type 0 where
  dispatched : RestDispatch → Pass
  waits_until : Option ℕ → Pass

-- One pass of the loop of `next_ready`, up to the wait. The two clocks are its two readings; the
-- revision cannot change in between, since nothing else runs before the wait.
unfoldable pub pass : (clock later : ℕ) → RestScheduler → Result Pass × RestScheduler
unfolding next_ready observe_now next_wait_deadline_ns
pass clock later s =
    let (x, s') = next_ready clock s in
    let t = observe_now later s' in
    elim x [
      | err e ↦ (err e, s')
      | ok (some d) ↦ (ok (dispatched d), s')
      | ok none ↦
          (ok (waits_until (next_wait_deadline_ns t.last_now_ns t)), record t { changed = false })
    ]
