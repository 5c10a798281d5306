-- ===== src/Scheduler/Submit/Keeps.antt =====
-- The scheduler's invariant over `submit_nowait` of scheduler/rest.py.
use crytpo_data.Shared.{
  ℕ, ◌<◌, ◌≡◌, refl, ◌∙◌, Option, none, some, String, leb, ◌==◌, leb-false, length, lookup,
  string_eq, list_eq, arith, inl, inr, Bool-cases, Option-cases, Result-cases, subst,
}
use crytpo_data.Scheduler.Job.{RestJob, route_keys, job_beq}
use crytpo_data.Scheduler.Queue.{
  Pending, RestScheduler, observe_now, remove_pending, is_past, expire_all,
}
use crytpo_data.Scheduler.Queue.Sound.{IsSound, Follows, Follows-refl, Follows-trans}
use crytpo_data.Scheduler.Queue.Keeps.{
  remove_pending-Follows, record_expired-Follows, expire_all-Follows, observe_now-IsSound,
}
use crytpo_data.Scheduler.Submit.{
  SubmitResult, enqueued, replaced, evicted_and_enqueued, Occurrence, stale, conflicting, dangling,
  replaces, check_budgets, occurrence, eviction_candidate, enqueue, record_evicted, still_pending,
  notify_if, remove_replaced, make_room, admit, settle, submit_new, submit,
}
use crytpo_data.Scheduler.Submit.Sound.{
  enqueue-IsSound, absent-part, room-remove_pending, record_evicted-Follows, notify-Follows,
  eviction_candidate-Found,
}

-- After changes that only take jobs out, a new job comes in where there is room.
enqueue_after-IsSound :
    (result : SubmitResult) (now : ℕ) (job : RestJob) (s s' : RestScheduler)
    → Follows s s'
    → s.last_now_ns ≡ now
    → lookup job.id s.jobs ≡ none
    → length s'.jobs < s.max_pending
    → IsSound (enqueue result now job s').1
enqueue_after-IsSound result now job s s' f at new room =
    let at' : s'.last_now_ns ≡ now = f.same_now ∙ at in
    subst (λ t. IsSound (enqueue result t job s').1) at'
      (enqueue-IsSound result job s' f.sound (absent-part job.id s.jobs s'.jobs f.part new)
        (omega (arith, room, f.same_limit)))

still_pending-Found :
    (replaced_id : Option String) (s : RestScheduler) (id : String)
    → still_pending replaced_id s ≡ some id
    → (p : Pending) × (lookup id s.jobs ≡ some p)
still_pending-Found none s id h = cc
still_pending-Found (some i) s id h = elim (Option-cases (lookup i s.jobs)) [
  | inl gone ↦ cc (rw (gone, still_pending) at h)
  | inr (p, found) ↦
      let same : some i ≡ some id = rw (found, still_pending) at h in
      let ii : i ≡ id = cc in (p, rw ii at found)
]

replace-IsSound :
    (id : String) (p : Pending) (now : ℕ) (job : RestJob) (s : RestScheduler)
    → IsSound s
    → s.last_now_ns ≡ now
    → lookup job.id s.jobs ≡ none
    → lookup id s.jobs ≡ some p
    → IsSound (enqueue replaced now job (remove_pending id s)).1
replace-IsSound id p now job s v at new found =
    enqueue_after-IsSound replaced now job s _ (remove_pending-Follows id s v) at new
      (room-remove_pending id p s v found)

evict-IsSound :
    (id : String) (p : Pending) (now : ℕ) (job : RestJob) (s : RestScheduler)
    → IsSound s
    → s.last_now_ns ≡ now
    → lookup job.id s.jobs ≡ none
    → lookup id s.jobs ≡ some p
    → IsSound (enqueue evicted_and_enqueued now job (record_evicted id (remove_pending id s))).1
evict-IsSound id p now job s v at new found =
    let first = remove_pending-Follows id s v in
    enqueue_after-IsSound evicted_and_enqueued now job s _
      (Follows-trans s _ _ first (record_evicted-Follows id _ first.sound)) at new
      (room-remove_pending id p s v found)

make_room-IsSound :
    (replaced_id : Option String) (now : ℕ) (job : RestJob) (s : RestScheduler)
    → IsSound s
    → s.last_now_ns ≡ now
    → lookup job.id s.jobs ≡ none
    → ((id : String) → replaced_id ≡ some id → (p : Pending) × (lookup id s.jobs ≡ some p))
    → IsSound (make_room replaced_id now job s).1
unfolding make_room
make_room-IsSound (some id) now job s v at new old =
    let (p, found) = old id refl in replace-IsSound id p now job s v at new found
make_room-IsSound none now job s v at new old =
    elim (Bool-cases (leb s.max_pending (length s.jobs))) [
      | inr room ↦
          simp (room, make_room)
            (enqueue_after-IsSound enqueued now job s s (Follows-refl s v) at new
              (leb-false _ _ room))
      | inl full ↦ elim (Option-cases (eviction_candidate job s)) [
        | inl stuck ↦ simp (full, stuck, make_room) v
        | inr (id, chosen) ↦
            let (p, found) = eviction_candidate-Found job s id v chosen in
            simp (full, chosen, make_room) (evict-IsSound id p now job s v at new found)
      ]
    ]

remove_replaced-Follows :
    (replaced_id : Option String) (s : RestScheduler)
    → IsSound s
    → Follows s (remove_replaced replaced_id s)
remove_replaced-Follows none s v = Follows-refl s v
remove_replaced-Follows (some id) s v =
    let first = remove_pending-Follows id s v in
    Follows-trans s _ _ first (notify-Follows _ first.sound)

notify_if-Follows : (count : ℕ) (s : RestScheduler) → IsSound s → Follows s (notify_if count s)
notify_if-Follows count s v = elim (Bool-cases (count == 0)) [
  | inl quiet ↦ rw quiet (Follows-refl s v)
  | inr some_expired ↦ rw some_expired (notify-Follows s v)
]

admit-IsSound :
    (replaced_id : Option String) (now : ℕ) (job : RestJob) (s : RestScheduler)
    → IsSound s
    → s.last_now_ns ≡ now
    → lookup job.id s.jobs ≡ none
    → IsSound (admit replaced_id now job s).1
unfolding admit
admit-IsSound replaced_id now job s v at new = elim (Bool-cases (is_past now job)) [
  | inl past ↦
      rw (past, admit)
        (let first = remove_replaced-Follows replaced_id s v in
          (record_expired-Follows job.id _ first.sound).sound)
  | inr open_still ↦
      rw (open_still, admit)
        (let first = expire_all-Follows now s v in
          let second = notify_if-Follows (expire_all now s).0 _ first.sound in
          let both = Follows-trans s _ _ first second in
          make_room-IsSound _ now job _ both.sound (both.same_now ∙ at)
            (absent-part job.id s.jobs _ both.part new) (still_pending-Found replaced_id _))
]

settle-IsSound :
    (o : Occurrence) (job : RestJob) (clock : ℕ) (s : RestScheduler)
    → IsSound s
    → lookup job.id s.jobs ≡ none
    → IsSound (settle o job clock s).1
unfolding settle observe_now
settle-IsSound stale job clock s v new = v
settle-IsSound conflicting job clock s v new = v
settle-IsSound dangling job clock s v new = v
settle-IsSound (replaces id) job clock s v new =
    admit-IsSound id _ job (observe_now clock s) (observe_now-IsSound clock s v) refl new

submit_new-IsSound :
    (job : RestJob) (clock : ℕ) (s : RestScheduler)
    → IsSound s
    → lookup job.id s.jobs ≡ none
    → IsSound (submit_new job clock s).1
unfolding submit_new
submit_new-IsSound job clock s v new =
    elim (Result-cases (check_budgets job.endpoint_cost (route_keys job.routes) s.budgets)) [
      | inl (e, failed) ↦ rw (failed, submit_new) v
      | inr (_, fits) ↦ rw (fits, submit_new) (settle-IsSound (occurrence job s) job clock s v new)
    ]

-- If the scheduler satisfies the invariant, so does what `submit` leaves behind, whatever it
-- returns or raises: no more than `max_pending` jobs, each under its id, and entries that describe
-- the jobs they name.
pub submit-IsSound :
    (job : RestJob) (clock : ℕ) (s : RestScheduler) → IsSound s → IsSound (submit job clock s).1
unfolding submit
submit-IsSound job clock s v = elim (Bool-cases s.closed) [
  | inl shut ↦ rw (shut, submit) v
  | inr running ↦ elim (Option-cases (lookup job.id s.jobs)) [
    | inl new ↦ simp (running, new, submit) (submit_new-IsSound job clock s v new)
    | inr (p, found) ↦ elim (Bool-cases (job_beq p.job job)) [
      | inl again ↦ simp (running, found, again, submit) v
      | inr other ↦ simp (running, found, other, submit) v
    ]
  ]
]
