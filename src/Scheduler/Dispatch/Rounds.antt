-- ===== src/Scheduler/Dispatch/Rounds.antt =====
-- One round of the loop of `_next_ready` in scheduler/rest.py.
use crytpo_data.Shared.{
  ℕ, ◌≤◌, ◌≡◌, refl, sym, false, not, Option, none, some, List, [], ◌∷◌, ◌++◌, ◌==◌, length,
  filter_by, find_first, All, All-append, All-map, lookup, string_eq, pair_eq, ◌=?◌, arith, inl,
  inr, Bool-cases, Option-cases, Result-cases, contains, ok, subst,
}
use crytpo_data.Network.Bucket.{finite}
use crytpo_data.Network.Budgets.{BudgetKey, Registry, try_acquire_one}
use crytpo_data.Scheduler.Job.{RestJob, RestDispatch, route_keys, eligible_routes, check_dispatch}
use crytpo_data.Scheduler.Queue.{
  Pending, Entry, RestScheduler, live_pending, is_past, complete_pending,
}
use crytpo_data.Scheduler.Queue.Sound.{
  IsSound, Follows, Follows-refl, Follows-trans, Follows-part, IsPart, IsReady, Live-part,
  lookup-erase_self, IsDict-id,
}
use crytpo_data.Scheduler.Queue.Keeps.{complete_pending-Follows, expire-Follows}
use crytpo_data.Scheduler.Dispatch.{
  Round, Turn, again, selected, raised, ask_budgets, with_budgets, block, send, hold, attempt,
  visit,
}

-- The entries that the loop set aside describe pending jobs whose time has come.
abbrev pub AreHeld : RestScheduler → List Entry → Type 0
AreHeld s = All (IsReady s.last_now_ns s.sequence s.jobs)

-- One round after another, at the instant `now`.
pub record Goes (now : ℕ) (w w' : Round) : Type 0 where
  pub follows : Follows w.scheduler w'.scheduler
  pub held : AreHeld w'.scheduler w'.blocked

-- A job that goes out was pending and due, is within its deadline, leaves by one of its own
-- routes, and is pending no more.
pub record IsSent (now : ℕ) (d : RestDispatch) (s s' : RestScheduler) : Type 0 where
  pub was_pending : (p : Pending) × (lookup d.job.id s.jobs ≡ some p) × (p.job ≡ d.job)
  pub due : d.job.ready_monotonic_ns ≤ now
  pub in_time : is_past now d.job ≡ false
  pub at_now : d.dispatched_monotonic_ns ≡ now
  pub checked : check_dispatch d ≡ ok tt
  pub gone : lookup d.job.id s'.jobs ≡ none

pub IsSent-before :
    (now : ℕ) (d : RestDispatch) (s t u : RestScheduler)
    → IsPart t.jobs s.jobs
    → IsSent now d t u
    → IsSent now d s u
IsSent-before now d s t u part sent =
    let (p, found, same) = sent.was_pending in
    record {
      was_pending = (p, part d.job.id p found, same);
      due = sent.due;
      in_time = sent.in_time;
      at_now = sent.at_now;
      checked = sent.checked;
      gone = sent.gone;
    }

-- What a turn must be, from the round it starts with.
unfoldable pub IsTurn : ℕ → Round → Turn → Type 0
IsTurn now w (again w') = Goes now w w'
IsTurn now w (selected d w') = Goes now w w' × IsSent now d w.scheduler w'.scheduler
IsTurn now w (raised e w') = IsSound w'.scheduler

pub held-Follows :
    (s s' : RestScheduler) (es : List Entry) → Follows s s' → AreHeld s es → AreHeld s' es
held-Follows s s' es f held =
    rw (f.same_now, f.same_number)
      (All-map _ (λ e (low, live). (low, Live-part _ _ _ e f.part live)) es held)

with_budgets-Follows :
    (r : Registry) (s : RestScheduler) → IsSound s → Follows s (record s { budgets = r })
with_budgets-Follows r s v =
    Follows-part s _ v v.dict (λ i p h. h) (omega arith) refl refl refl v.ready_entries
      v.future_entries v.few_expired v.few_evicted

live_pending-eq :
    (e : Entry) (s : RestScheduler) (p : Pending)
    → live_pending e s ≡ some p
    → (lookup e.id s.jobs ≡ some p) × (p.sequence ≡ e.sequence)
unfolding live_pending
live_pending-eq e s p h = elim (Option-cases (lookup e.id s.jobs)) [
  | inl absent ↦ cc (rw (absent, live_pending) at h)
  | inr (q, found) ↦ elim (Bool-cases (q.sequence == e.sequence)) [
    | inl same ↦
        let hq : some q ≡ some p = rw (found, same, live_pending) at h in
        let qp : q ≡ p = cc in (rw qp at found, ground arith)
    | inr other ↦ cc (rw (found, other, live_pending) at h)
  ]
]

send-IsTurn :
    (now : ℕ) (p : Pending) (key : BudgetKey) (w : Round)
    → IsSound w.scheduler
    → AreHeld w.scheduler w.blocked
    → lookup p.job.id w.scheduler.jobs ≡ some p
    → p.job.ready_monotonic_ns ≤ now
    → is_past now p.job ≡ false
    → IsTurn now w (send now p key w)
unfolding send IsTurn complete_pending
send-IsTurn now p key w v held found due in_time =
    let f = complete_pending-Follows p w.scheduler v in
    let goes : Goes now w (record w { scheduler = complete_pending p w.scheduler }) = record {
      follows = f;
      held = held-Follows _ _ w.blocked f held;
    } in
    elim (Option-cases (find_first (λ r. r.budget_key =? key) (eligible_routes p.job))) [
      | inl missing ↦ rw (missing, send) f.sound
      | inr (route, chosen) ↦
          let d : RestDispatch = record {
            job = p.job;
            route = route;
            dispatched_monotonic_ns = now;
          } in
          elim (Result-cases (check_dispatch d)) [
            | inl (e, refused) ↦ rw (chosen, refused, send) f.sound
            | inr (_, good) ↦
                rw (chosen, good, send)
                  (
                    goes,
                    record {
                      was_pending = (p, found, refl);
                      due = due;
                      in_time = in_time;
                      at_now = refl;
                      checked = good;
                      gone = lookup-erase_self p.job.id w.scheduler.jobs v.dict;
                    },
                  )
          ]
    ]

-- A round that asked the budgets and set the entry aside.
blocked-Goes :
    (now : ℕ) (e : Entry) (r : Registry) (keys : List BudgetKey) (found : Option ℕ) (w : Round)
    → IsSound w.scheduler
    → AreHeld w.scheduler w.blocked
    → IsReady w.scheduler.last_now_ns w.scheduler.sequence w.scheduler.jobs e
    → Goes now w (
        block e
          (record (with_budgets r w) { blocked_budgets = keys; next_budget_ready_ns = found }))
blocked-Goes now e r keys found w v held this = record {
  follows = with_budgets-Follows r w.scheduler v;
  held = All-append _ w.blocked (e ∷ []) held (this, tt);
}

hold-IsTurn :
    (now : ℕ) (e : Entry) (job : RestJob) (keys : List BudgetKey) (r : Registry) (w : Round)
    → IsSound w.scheduler
    → AreHeld w.scheduler w.blocked
    → IsReady w.scheduler.last_now_ns w.scheduler.sequence w.scheduler.jobs e
    → IsTurn now w (hold now e job keys (with_budgets r w))
unfolding hold IsTurn
hold-IsTurn now e job keys r w v held this =
    let asked = ask_budgets now job keys w.next_budget_ready_ns r in
    elim (Result-cases asked.0) [
      | inl (error, failed) ↦ rw (failed, hold) (with_budgets-Follows asked.1 w.scheduler v).sound
      | inr (found, at) ↦
          rw (at, hold) (blocked-Goes now e asked.1 (w.blocked_budgets ++ keys) found w v held this)
    ]

-- A turn that follows other changes counts from before them.
pub after-IsTurn :
    (now : ℕ) (w w' : Round) (t : Turn)
    → Follows w.scheduler w'.scheduler
    → IsTurn now w' t
    → IsTurn now w t
unfolding IsTurn
after-IsTurn now w w' (again u) f h = record {
  follows = Follows-trans _ _ _ f h.follows;
  held = h.held;
}
after-IsTurn now w w' (selected d u) f (h, s) = (
  record { follows = Follows-trans _ _ _ f h.follows; held = h.held },
  IsSent-before now d _ _ _ f.part s,
)
after-IsTurn now w w' (raised e u) f h = h

attempt-IsTurn :
    (now : ℕ) (e : Entry) (p : Pending) (w : Round)
    → IsSound w.scheduler
    → AreHeld w.scheduler w.blocked
    → IsReady w.scheduler.last_now_ns w.scheduler.sequence w.scheduler.jobs e
    → lookup p.job.id w.scheduler.jobs ≡ some p
    → p.job.ready_monotonic_ns ≤ now
    → is_past now p.job ≡ false
    → IsTurn now w (attempt now e p w)
unfolding attempt IsTurn
attempt-IsTurn now e p w v held this found due in_time =
    let keys =
      filter_by (λ k. not (contains w.blocked_budgets k)) (route_keys (eligible_routes p.job)) in
    let acquired =
      try_acquire_one keys (finite p.job.endpoint_cost) now (some now) w.scheduler.budgets in
    let r = acquired.1 in
    let same = with_budgets-Follows r w.scheduler v in
    elim (Bool-cases (length keys == 0)) [
      | inl none_left ↦
          rw (none_left, attempt)
            (record {
              follows = Follows-refl w.scheduler v;
              held = All-append _ w.blocked (e ∷ []) held (this, tt);
            })
      | inr some_left ↦ elim (Result-cases acquired.0) [
        | inl (error, failed) ↦ rw (some_left, failed, attempt) same.sound
        | inr (none, refused) ↦
            rw (some_left, refused, attempt) (hold-IsTurn now e p.job keys r w v held this)
        | inr (some key, granted) ↦
            rw (some_left, granted, attempt)
              (after-IsTurn now w (with_budgets r w) _ same
                (send-IsTurn now p key (with_budgets r w) same.sound held found due in_time))
      ]
    ]

-- Every turn on an entry of the ready heap is as it must be.
pub visit-IsTurn :
    (now : ℕ) (e : Entry) (w : Round)
    → IsSound w.scheduler
    → AreHeld w.scheduler w.blocked
    → w.scheduler.last_now_ns ≡ now
    → IsReady w.scheduler.last_now_ns w.scheduler.sequence w.scheduler.jobs e
    → IsTurn now w (visit now e w)
unfolding visit IsTurn
visit-IsTurn now e w v held at (low, live) = elim (Option-cases (live_pending e w.scheduler)) [
  | inl gone ↦ rw (gone, visit) (record { follows = Follows-refl _ v; held = held })
  | inr (p, current) ↦
      let (found, same) = live_pending-eq e w.scheduler p current in
      let name : p.job.id ≡ e.id = IsDict-id e.id w.scheduler.jobs p v.dict found in
      elim (Bool-cases (is_past now p.job)) [
        | inl past ↦
            rw (current, past, visit)
              (let f = expire-Follows p w.scheduler v in
                record { follows = f; held = held-Follows _ _ w.blocked f held })
        | inr in_time ↦
            rw (current, in_time, visit)
              (attempt-IsTurn now e p w v held (low, live)
                (subst (λ i. lookup i w.scheduler.jobs ≡ some p) (sym name) found)
                (omega (arith, live p found same)) in_time)
      ]
]
