-- ===== src/Scheduler/Submit/Sound.antt =====
-- The steps of `submit_nowait` in scheduler/rest.py and the scheduler's invariant.
use crytpo_data.Shared.{
  ◌+◌, ◌≤◌, ◌<◌, ◌≡◌, ◌≢◌, refl, sym, ap, ◌∙◌, none, some, List, [], ◌∷◌, String, str_eq, leb,
  leb→le, length, filter_by, map, All, All-filter_by, All-map, lookup, insert, erase, string_eq,
  arith, inl, inr, Bool-cases, Option-cases, List-cases, lookup-insert_ne, lookup-insert_self,
  beq_refl,
}
use crytpo_data.Scheduler.Job.{RestJob, rank}
use crytpo_data.Scheduler.Queue.{
  Pending, Entry, RestScheduler, push_history, notify, pending_jobs, complete_pending,
  remove_pending,
}
use crytpo_data.Scheduler.Queue.Sound.{
  Jobs, IsDict, Live, IsReady, IsFuture, IsSound, Follows, Follows-part, IsPart, All-push,
  length-push_history-le, insert-IsDict, length-erase, IsDict-id,
}
use crytpo_data.Scheduler.Submit.{
  SubmitResult, later_candidate, last_candidate, may_evict, eviction_candidate, enqueue,
}

Live-insert :
    (k : String) (p : Pending) (d : Jobs) (P : Pending → Type 0) (e : Entry)
    → e.sequence < p.sequence
    → Live d P e
    → Live (insert k p d) P e
Live-insert k p d P e older live q found same = elim (Bool-cases (str_eq e.id k)) [
  | inl equal ↦
      let ek : e.id ≡ k = (string_eq.beq_iff e.id k).0 equal in
      let found' : lookup k (insert k p d) ≡ some q = rw ek at found in
      let qp : some p ≡ some q = sym (lookup-insert_self k p d) ∙ found' in
      let pq : p ≡ q = cc in
      let ss : p.sequence ≡ q.sequence = ap (λ (x : Pending). x.sequence) pq in ground arith
  | inr other ↦
      let ne : e.id ≢ k = λ same_id. cc (beq_refl e.id, same_id, other) in
      live q (sym (lookup-insert_ne e.id k p d ne) ∙ found) same
]

Live-new :
    (k : String) (p : Pending) (d : Jobs) (P : Pending → Type 0) (e : Entry)
    → e.id ≡ k
    → P p
    → Live (insert k p d) P e
Live-new k p d P e same h q found at =
    let found' : lookup k (insert k p d) ≡ some q = rw same at found in
    let qp : some p ≡ some q = sym (lookup-insert_self k p d) ∙ found' in
    let pq : p ≡ q = cc in rw pq at h

-- The entries after a job came under a new number.
entries-insert :
    (job : RestJob) (s : RestScheduler)
    → IsSound s
    → let number = s.sequence + 1 in
      let jobs = insert job.id (record { job = job; sequence = number }) s.jobs in
      All (IsReady s.last_now_ns number jobs) s.ready × All (IsFuture number jobs) s.future
entries-insert job s v =
    let p : Pending = record { job = job; sequence = s.sequence + 1 } in
    (
      All-map _ (λ e (low, live). (omega arith, Live-insert job.id p s.jobs _ e (omega arith) live))
          s.ready v.ready_entries,
      All-map _ (λ e (low, live). (omega arith, Live-insert job.id p s.jobs _ e (omega arith) live))
          s.future v.future_entries,
    )

pub enqueue-IsSound :
    (result : SubmitResult) (job : RestJob) (s : RestScheduler)
    → IsSound s
    → lookup job.id s.jobs ≡ none
    → length s.jobs < s.max_pending
    → IsSound (enqueue result s.last_now_ns job s).1
unfolding enqueue
enqueue-IsSound result job s v new room =
    let number = s.sequence + 1 in
    let p : Pending = record { job = job; sequence = number } in
    let (dict, size) = insert-IsDict job.id p s.jobs v.dict new refl in
    let (ready, future) = entries-insert job s v in
    let as_ready : Entry = record { key = rank job.priority; sequence = number; id = job.id } in
    let as_future : Entry = record {
      key = job.ready_monotonic_ns;
      sequence = number;
      id = job.id;
    } in
    let number_le : number ≤ number = omega arith in
    elim (Bool-cases (leb job.ready_monotonic_ns s.last_now_ns)) [
      | inl due ↦
          rw (due, enqueue)
            (record {
              dict = dict;
              ready_entries =
                  All-push _ as_ready s.ready
                    (number_le, Live-new job.id p s.jobs _ as_ready refl (leb→le _ _ due)) ready;
              future_entries = future;
              few_pending = omega (arith, size);
              few_expired = v.few_expired;
              few_evicted = v.few_evicted;
            })
      | inr later ↦
          rw (later, enqueue)
            (record {
              dict = dict;
              ready_entries = ready;
              future_entries =
                  All-push _ as_future s.future
                    (number_le, Live-new job.id p s.jobs _ as_future refl refl) future;
              few_pending = omega (arith, size);
              few_expired = v.few_expired;
              few_evicted = v.few_evicted;
            })
    ]

pub absent-part : (k : String) (d d' : Jobs) → IsPart d' d → lookup k d ≡ none → lookup k d' ≡ none
absent-part k d d' part absent = elim (Option-cases (lookup k d')) [
  | inl gone ↦ gone
  | inr (p, found) ↦ cc (part k p found, absent)
]

-- Taking a pending job out makes room for one.
pub room-remove_pending :
    (id : String) (p : Pending) (s : RestScheduler)
    → IsSound s
    → lookup id s.jobs ≡ some p
    → length (remove_pending id s).jobs < s.max_pending
unfolding remove_pending complete_pending
room-remove_pending id p s v found =
    let same : p.job.id ≡ id = IsDict-id id s.jobs p v.dict found in
    let fewer : length (erase id s.jobs) + 1 ≡ length s.jobs = length-erase id s.jobs p found in
    let fits : length (erase id s.jobs) < s.max_pending = omega (arith, fewer, v.few_pending) in
    rw (found, same, remove_pending) fits

pub record_evicted-Follows :
    (id : String) (s : RestScheduler)
    → IsSound s
    → Follows s (record s { evicted = push_history s.max_history s.evicted id })
record_evicted-Follows id s v =
    Follows-part s _ v v.dict (λ i p h. h) (omega arith) refl refl refl v.ready_entries
      v.future_entries v.few_expired (length-push_history-le s.max_history s.evicted id)

pub notify-Follows : (s : RestScheduler) → IsSound s → Follows s (notify s)
notify-Follows s v =
    Follows-part s _ v v.dict (λ i p h. h) (omega arith) refl refl refl v.ready_entries
      v.future_entries v.few_expired v.few_evicted

-- The chosen candidate is one of the pending jobs.
Found : Jobs → Pending → Type 0
Found d p = lookup p.job.id d ≡ some p

Found-insert :
    (k : String) (p q : Pending) (d : Jobs) → lookup k d ≡ none → Found d q → Found ((k, p) ∷ d) q
unfolding Found
Found-insert k p q d absent h = elim (Bool-cases (str_eq q.job.id k)) [
  | inl equal ↦
      let same : q.job.id ≡ k = (string_eq.beq_iff q.job.id k).0 equal in cc (h, same, absent)
  | inr other ↦ rw other h
]

All-Found : (d : Jobs) → IsDict d → All (Found d) (map (λ e. e.1) d)
unfolding Found
All-Found [] v = tt
All-Found ((k, p) ∷ d) (same, absent, v) = (
  ground (arith, string_eq.beq_iff p.job.id k),
  All-map (Found d) (λ q h. Found-insert k p q d absent h) (map (λ e. e.1) d) (All-Found d v),
)

last_candidate-Found :
    (d : Jobs) (p : Pending) (ps : List Pending)
    → Found d p
    → All (Found d) ps
    → Found d (last_candidate p ps)
last_candidate-Found d p [] h hs = h
last_candidate-Found d p (q ∷ qs) h (hq, hs) =
    last_candidate-Found d (later_candidate p q) qs (ground arith) hs

pub eviction_candidate-Found :
    (incoming : RestJob) (s : RestScheduler) (id : String)
    → IsSound s
    → eviction_candidate incoming s ≡ some id
    → (p : Pending) × (lookup id s.jobs ≡ some p)
unfolding eviction_candidate Found
eviction_candidate-Found incoming s id v chosen = elim (Bool-cases incoming.replaceable) [
  | inl free ↦ cc (rw (free, eviction_candidate) at chosen)
  | inr fixed ↦
      let candidates = filter_by (may_evict incoming) (pending_jobs s) in
      let found : All (Found s.jobs) candidates =
        All-filter_by _ (may_evict incoming) (pending_jobs s) (All-Found s.jobs v.dict) in
      elim (List-cases candidates) [
        | inl empty ↦ cc (rw (fixed, empty, eviction_candidate) at chosen)
        | inr (p, ps, these) ↦
            let (hp, hps) : Found s.jobs p × All (Found s.jobs) ps = rw these at found in
            let same : some (last_candidate p ps).job.id ≡ some id =
              rw (fixed, these, eviction_candidate) at chosen in
            let is_id : (last_candidate p ps).job.id ≡ id = cc in
            (last_candidate p ps, rw is_id at (last_candidate-Found s.jobs p ps hp hps))
      ]
]
