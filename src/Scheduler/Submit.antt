-- ===== src/Scheduler/Submit.antt =====
-- `RestScheduler.submit_nowait`. It returns the scheduler as it left it, also when it raises.
pub mod Sound
pub mod Keeps
use crytpo_data.Shared.{
  ℕ, ◌+◌, Bool, true, false, ◌&&◌, ◌||◌, not, Option, none, some, List, [], ◌∷◌, String, str_eq,
  leb, ltb, ◌==◌, if◌then◌else◌, length, filter_by, Result, Error, ok, err, value_error, key_error,
  capacity_error, scheduler_closed, lookup, insert, Eq, string_eq, list_eq, raise_if, ◌>>=◌, ◌>>◌,
}
use crytpo_data.Shared.Decimal.{Decimal, decimal_leb}
use crytpo_data.Network.Bucket.{TokenBucket}
use crytpo_data.Network.Budgets.{BudgetKey, Registry, bucket}
use crytpo_data.Scheduler.Job.{RestJob, rank, route_keys, job_beq}
use crytpo_data.Scheduler.Queue.{
  Pending, Entry, RestScheduler, push, push_history, observe_now, notify, pending_jobs,
  remove_pending, record_expired, is_past, expire_all,
}

pub data SubmitResult : Type 0 where
  enqueued replaced stale_ignored idempotent evicted_and_enqueued expired : SubmitResult

abbrev pub Outcome : Type 0
Outcome = Result SubmitResult × RestScheduler

-- The budget of every key exists, and its hard capacity covers the cost.
unfoldable pub check_budgets : Decimal → List BudgetKey → Registry → Result (Unit {0})
unfolding bucket
check_budgets cost [] r = ok tt
check_budgets cost (key ∷ keys) r = bucket key r >>= λ b.
    raise_if (not (decimal_leb cost b.hard_capacity)) capacity_error >> check_budgets cost keys r

-- What the logical key of a replaceable job leads to.
pub data Occurrence : Type 0 where
  stale conflicting dangling : Occurrence
  replaces : Option String → Occurrence

unfoldable pub occurrence : RestJob → RestScheduler → Occurrence
occurrence job s = elim job.replaceable [
  | false ↦ replaces none
  | true ↦ elim job.logical_key [
    | none ↦ conflicting
    | some key ↦ elim (lookup key s.logical_index) [
      | none ↦ replaces none
      | some id ↦ elim (lookup id s.jobs) [
        | none ↦ dangling
        | some p ↦
            if ltb job.scheduled_ns p.job.scheduled_ns
            then stale
            else if job.scheduled_ns == p.job.scheduled_ns
            then conflicting
            else replaces (some id)
      ]
    ]
  ]
]

-- The later of two candidates in the order of `(priority, sequence)`; `max` keeps the first of
-- equal ones.
abbrev pub later_candidate : Pending → Pending → Pending
later_candidate p q =
    if ltb (rank p.job.priority) (rank q.job.priority)
      || (rank p.job.priority == rank q.job.priority && ltb p.sequence q.sequence)
    then q
    else p

abbrev pub last_candidate : Pending → List Pending → Pending
last_candidate p [] = p
last_candidate p (q ∷ qs) = last_candidate (later_candidate p q) qs

abbrev pub may_evict : RestJob → Pending → Bool
may_evict incoming p = p.job.replaceable && ltb (rank incoming.priority) (rank p.job.priority)

-- `_eviction_candidate`
unfoldable pub eviction_candidate : RestJob → RestScheduler → Option String
eviction_candidate incoming s = elim incoming.replaceable [
  | true ↦ none
  | false ↦ elim (filter_by (may_evict incoming) (pending_jobs s)) [
    | [] ↦ none
    | p ∷ ps ↦ some (last_candidate p ps).job.id
  ]
]

abbrev new_logical : RestJob → RestScheduler → List (List String × String)
new_logical job s = elim job.logical_key [
  | none ↦ s.logical_index
  | some key ↦ if job.replaceable then insert key job.id s.logical_index else s.logical_index
]

-- The last part of `submit_nowait`: the job gets a sequence number and an entry.
unfoldable pub enqueue : SubmitResult → ℕ → RestJob → RestScheduler → Outcome
unfolding push
enqueue result now job s =
    let number = s.sequence + 1 in
    let p : Pending = record { job = job; sequence = number } in
    let kept = notify (record s {
      sequence = number;
      jobs = insert job.id p s.jobs;
      logical_index = new_logical job s;
    }) in
    (
      ok result,
      if leb job.ready_monotonic_ns now
          then record kept {
            ready =
                push (record { key = rank job.priority; sequence = number; id = job.id }) s.ready;
          }
          else record kept {
            future =
                push (record { key = job.ready_monotonic_ns; sequence = number; id = job.id })
                  s.future;
          },
    )

-- `replaced_id`, if that job has not expired.
abbrev pub still_pending : Option String → RestScheduler → Option String
still_pending none s = none
still_pending (some id) s = elim (lookup id s.jobs) [ none ↦ none | some _ ↦ some id ]

abbrev pub record_evicted : String → RestScheduler → RestScheduler
record_evicted id s = record s { evicted = push_history s.max_history s.evicted id }

-- The choice between replacing, evicting and refusing.
unfoldable pub make_room : Option String → ℕ → RestJob → RestScheduler → Outcome
unfolding enqueue eviction_candidate remove_pending push_history
make_room (some id) now job s = enqueue replaced now job (remove_pending id s)
make_room none now job s =
    if leb s.max_pending (length s.jobs)
    then elim (eviction_candidate job s) [
      | none ↦ (err capacity_error, s)
      | some id ↦ enqueue evicted_and_enqueued now job (record_evicted id (remove_pending id s))
    ]
    else enqueue enqueued now job s

abbrev pub notify_if : ℕ → RestScheduler → RestScheduler
notify_if count s = if count == 0 then s else notify s

abbrev pub remove_replaced : Option String → RestScheduler → RestScheduler
remove_replaced none s = s
remove_replaced (some id) s = notify (remove_pending id s)

-- From the reading of the clock on.
unfoldable pub admit : Option String → ℕ → RestJob → RestScheduler → Outcome
unfolding make_room expire_all remove_pending push_history
admit replaced_id now job s = elim (is_past now job) [
  | true ↦ (ok expired, record_expired job.id (remove_replaced replaced_id s))
  | false ↦
      let (count, s') = expire_all now s in
      let s'' = notify_if count s' in make_room (still_pending replaced_id s'') now job s''
]

-- What the occurrence calls for; only a new one gets the clock read.
unfoldable pub settle : Occurrence → RestJob → (clock : ℕ) → RestScheduler → Outcome
unfolding admit observe_now
settle stale job clock s = (ok stale_ignored, s)
settle conflicting job clock s = (err value_error, s)
settle dangling job clock s = (err key_error, s)
settle (replaces replaced_id) job clock s =
    let s' = observe_now clock s in admit replaced_id s'.last_now_ns job s'

-- The checks before the clock is read, and then the rest.
unfoldable pub submit_new : RestJob → (clock : ℕ) → RestScheduler → Outcome
unfolding check_budgets occurrence settle
submit_new job clock s = elim (check_budgets job.endpoint_cost (route_keys job.routes) s.budgets) [
  | err e ↦ (err e, s)
  | ok _ ↦ settle (occurrence job s) job clock s
]

-- `submit_nowait`
unfoldable pub submit : RestJob → (clock : ℕ) → RestScheduler → Outcome
unfolding submit_new
submit job clock s = elim s.closed [
  | true ↦ (err scheduler_closed, s)
  | false ↦ elim (lookup job.id s.jobs) [
    | some p ↦ if job_beq p.job job then (ok idempotent, s) else (err value_error, s)
    | none ↦ submit_new job clock s
  ]
]
