-- ===== src/Scheduler/Queue/Keeps.antt =====
-- The scheduler's invariant over the private methods of `RestScheduler` in scheduler/rest.py.
use crytpo_data.Shared.{
  ℕ, zero, suc, ◌≤◌, ◌≡◌, refl, ◌∙◌, Bool, List, [], ◌∷◌, String, str_eq, leb, ◌==◌, leb→le, length,
  filter_by, not, contains, map, All, All-filter_by, All-map, lookup, string_eq, arith, inl, inr,
  Bool-cases, Option-cases, List-cases,
}
use crytpo_data.Scheduler.Job.{rank}
use crytpo_data.Scheduler.Queue.{
  Pending, Entry, RestScheduler, push, observe_now, pending_jobs, by_sequence, complete_pending,
  remove_pending, record_expired, expire, is_past, drop_expired, expire_all, live_pending,
  promote_entry, promote, promote_ready,
}
use crytpo_data.Scheduler.Queue.Sound.{
  IsSound, Follows, Follows-refl, Follows-trans, Follows-part, IsFuture, All-push,
  length-push_history-le, erase-IsPart, erase-IsDict, length-erase-le,
}

pub complete_pending-Follows :
    (p : Pending) (s : RestScheduler) → IsSound s → Follows s (complete_pending p s)
unfolding complete_pending
complete_pending-Follows p s v =
    Follows-part s _ v (erase-IsDict p.job.id s.jobs v.dict) (erase-IsPart p.job.id s.jobs v.dict)
      (length-erase-le p.job.id s.jobs) refl refl refl v.ready_entries v.future_entries
      v.few_expired v.few_evicted

-- Fewer entries, and another list of expired jobs, break nothing.
pub filtered-Follows :
    (keep : Entry → Bool) (s : RestScheduler)
    → IsSound s
    → Follows s (record s { future = filter_by keep s.future; ready = filter_by keep s.ready })
filtered-Follows keep s v =
    Follows-part s _ v v.dict (λ id p h. h) (omega arith) refl refl refl
      (All-filter_by _ keep s.ready v.ready_entries)
      (All-filter_by _ keep s.future v.future_entries) v.few_expired v.few_evicted

pub record_expired-Follows :
    (id : String) (s : RestScheduler) → IsSound s → Follows s (record_expired id s)
record_expired-Follows id s v =
    Follows-part s _ v v.dict (λ i p h. h) (omega arith) refl refl refl v.ready_entries
      v.future_entries (length-push_history-le s.max_history s.expired id) v.few_evicted

pub remove_pending-Follows :
    (id : String) (s : RestScheduler) → IsSound s → Follows s (remove_pending id s)
unfolding remove_pending
remove_pending-Follows id s v = elim (Option-cases (lookup id s.jobs)) [
  | inl absent ↦ rw (absent, remove_pending) (Follows-refl s v)
  | inr (p, found) ↦
      rw (found, remove_pending)
        (let first = complete_pending-Follows p s v in
          Follows-trans s _ _ first
            (filtered-Follows (λ e. not (str_eq e.id id)) (complete_pending p s) first.sound))
]

pub expire-Follows : (p : Pending) (s : RestScheduler) → IsSound s → Follows s (expire p s)
unfolding expire
expire-Follows p s v =
    let first = remove_pending-Follows p.job.id s v in
    Follows-trans s _ _ first (record_expired-Follows p.job.id _ first.sound)

drop_expired-Follows :
    (ps : List Pending) (s : RestScheduler) → IsSound s → Follows s (drop_expired ps s)
unfolding drop_expired
drop_expired-Follows [] s v = Follows-refl s v
drop_expired-Follows (p ∷ ps) s v =
    let first = complete_pending-Follows p s v in
    let second = record_expired-Follows p.job.id _ first.sound in
    Follows-trans s _ _ first (Follows-trans _ _ _ second (drop_expired-Follows ps _ second.sound))

pub expire_all-Follows : (now : ℕ) (s : RestScheduler) → IsSound s → Follows s (expire_all now s).1
unfolding expire_all
expire_all-Follows now s v =
    let expired = by_sequence (filter_by (λ p. is_past now p.job) (pending_jobs s)) in
    let ids = map (λ p. p.job.id) expired in
    let dropped = drop_expired-Follows expired s v in
    elim (Bool-cases (length expired == 0)) [
      | inl quiet ↦ rw (quiet, expire_all) (Follows-refl s v)
      | inr some_expired ↦
          rw (some_expired, expire_all)
            (Follows-trans s _ _ dropped
              (filtered-Follows (λ e. not (contains ids e.id)) _ dropped.sound))
    ]

-- A reading of the clock only moves the time on.
pub observe_now-IsSound :
    (clock : ℕ) (s : RestScheduler) → IsSound s → IsSound (observe_now clock s)
unfolding observe_now
observe_now-IsSound clock s v = record {
  dict = v.dict;
  ready_entries =
      All-map _ (λ e (low, live). (low, λ p found same. omega (arith, live p found same))) s.ready
        v.ready_entries;
  future_entries = v.future_entries;
  few_pending = v.few_pending;
  few_expired = v.few_expired;
  few_evicted = v.few_evicted;
}

rest-Follows :
    (rest : List Entry) (s : RestScheduler)
    → IsSound s
    → All (IsFuture s.sequence s.jobs) rest
    → Follows s (record s { future = rest })
rest-Follows rest s v h =
    Follows-part s _ v v.dict (λ i p h. h) (omega arith) refl refl refl v.ready_entries h
      v.few_expired v.few_evicted

moved-Follows :
    (e : Entry) (p : Pending) (s : RestScheduler)
    → IsSound s
    → IsFuture s.sequence s.jobs e
    → e.key ≤ s.last_now_ns
    → Follows s (record s {
      ready = push (record { key = rank p.job.priority; sequence = e.sequence; id = e.id }) s.ready;
    })
moved-Follows e p s v (low, live) due =
    Follows-part s _ v v.dict (λ i p h. h) (omega arith) refl refl refl
      (All-push _ _ s.ready (low, λ q found same. omega (arith, live q found same)) v.ready_entries)
      v.future_entries v.few_expired v.few_evicted

-- An entry that is due moves from `future` to `ready`.
promote_entry-Follows :
    (now : ℕ) (e : Entry) (rest : List Entry) (s : RestScheduler)
    → IsSound s
    → s.last_now_ns ≡ now
    → s.future ≡ e ∷ rest
    → e.key ≤ now
    → Follows s (promote_entry now e (record s { future = rest }))
unfolding promote_entry
promote_entry-Follows now e rest s v at from due =
    let (he, hrest) : IsFuture s.sequence s.jobs e × All (IsFuture s.sequence s.jobs) rest =
      rw from at v.future_entries in
    let s1 = record s { future = rest } in
    let f1 : Follows s s1 = rest-Follows rest s v hrest in
    elim (Option-cases (live_pending e s1)) [
      | inl gone ↦ rw (gone, promote_entry) f1
      | inr (p, live) ↦ elim (Bool-cases (is_past now p.job)) [
        | inl past ↦
            rw (live, past, promote_entry) (Follows-trans s s1 _ f1 (expire-Follows p s1 f1.sound))
        | inr open_still ↦
            rw (live, open_still, promote_entry)
              (Follows-trans s s1 _ f1 (moved-Follows e p s1 f1.sound he (omega arith)))
      ]
    ]

promote-Follows :
    (fuel now : ℕ) (s : RestScheduler)
    → IsSound s
    → s.last_now_ns ≡ now
    → Follows s (promote fuel now s)
unfolding promote
promote-Follows zero now s v at = Follows-refl s v
promote-Follows (suc fuel) now s v at = elim (List-cases s.future) [
  | inl empty ↦ simp (empty, promote) (Follows-refl s v)
  | inr (e, rest, from) ↦ elim (Bool-cases (leb e.key now)) [
    | inr later ↦ simp (from, later, promote) (Follows-refl s v)
    | inl due ↦
        simp (from, due, promote)
          (let first = promote_entry-Follows now e rest s v at from (leb→le _ _ due) in
            Follows-trans s _ _ first
              (promote-Follows fuel now _ first.sound (first.same_now ∙ at)))
  ]
]

pub promote_ready-Follows :
    (s : RestScheduler) → IsSound s → Follows s (promote_ready s.last_now_ns s)
unfolding promote_ready
promote_ready-Follows s v = promote-Follows (length s.future) s.last_now_ns s v refl
