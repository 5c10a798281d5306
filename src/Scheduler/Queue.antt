-- ===== src/Scheduler/Queue.antt =====
-- The state of `RestScheduler` (scheduler/rest.py) and its private methods. A heap of
-- `(key, sequence, id)` stands as the sorted list of its entries: the code only reads the least
-- entry, pops it, pushes, and restores the heap after a filter.
pub mod Sound
pub mod Keeps
pub mod Settled
use crytpo_data.Shared.{
  ℕ, zero, suc, ◌+◌, ◌-◌, max, Bool, true, false, ◌&&◌, ◌||◌, not, Option, none, some, List, [],
  ◌∷◌, ◌++◌, map, String, str_eq, leb, ltb, ◌==◌, if◌then◌else◌, length, filter_by, any, contains,
  Dict, lookup, insert, erase, Eq, string_eq, list_eq, Result, ok, value_error, raise_if, ◌>>=◌,
  ◌>>◌,
}
use crytpo_data.Network.Budgets.{Registry}
use crytpo_data.Scheduler.Job.{RestJob, rank}

-- `_Pending`
pub record Pending : Type 0 where
  pub job : RestJob
  pub sequence : ℕ

pub record Entry : Type 0 where
  pub key : ℕ
  pub sequence : ℕ
  pub id : String

pub record RestScheduler : Type 0 where
  pub budgets : Registry
  pub max_pending : ℕ
  pub max_history : ℕ
  pub last_now_ns : ℕ
  pub sequence : ℕ
  pub jobs : Dict String Pending
  pub logical_index : Dict (List String) String
  pub future : List Entry
  pub ready : List Entry
  pub expired : List String
  pub evicted : List String
  pub next_budget_ready_ns : Option ℕ
  pub revision : ℕ
  pub changed : Bool
  pub closed : Bool

-- `_bounded_collection_size`
unfoldable pub bounded_collection_size : ℕ → Result ℕ
bounded_collection_size n = do
  raise_if (n == 0) value_error
  raise_if (ltb 1_000_000 n) value_error
  ok n

-- `RestScheduler.__init__`
unfoldable pub new_scheduler : Registry → (max_pending max_history clock : ℕ) → Result RestScheduler
unfolding bounded_collection_size
new_scheduler budgets max_pending max_history clock = do
  pending_limit ← bounded_collection_size max_pending
  history_limit ← bounded_collection_size max_history
  ok (record {
    budgets = budgets;
    max_pending = pending_limit;
    max_history = history_limit;
    last_now_ns = clock;
    sequence = 0;
    jobs = [];
    logical_index = [];
    future = [];
    ready = [];
    expired = [];
    evicted = [];
    next_budget_ready_ns = none;
    revision = 0;
    changed = false;
    closed = false;
  })

-- The order of the tuples; two entries never share a sequence number, so no ids are compared.
abbrev pub entry_ltb : Entry → Entry → Bool
entry_ltb a b = ltb a.key b.key || (a.key == b.key && ltb a.sequence b.sequence)

-- `heapq.heappush`
unfoldable pub push : Entry → List Entry → List Entry
push e [] = e ∷ []
push e (x ∷ xs) = let rest = push e xs in if entry_ltb e x then e ∷ x ∷ xs else x ∷ rest

-- `deque(maxlen=limit).append`
abbrev pub drop : {A : Type 0} → ℕ → List A → List A
drop zero xs = xs
drop (suc n) [] = []
drop (suc n) (x ∷ xs) = drop n xs

unfoldable pub push_history : ℕ → List String → String → List String
push_history limit xs x = let ys = xs ++ x ∷ [] in drop (length ys - limit) ys

-- `_now_ns`, with what the clock reads
unfoldable pub observe_now : (clock : ℕ) → RestScheduler → RestScheduler
observe_now clock s = record s { last_now_ns = max s.last_now_ns clock }

abbrev pub notify : RestScheduler → RestScheduler
notify s = record s { revision = s.revision + 1; changed = true }

-- `close` and `notify_resources_changed`
unfoldable pub close : RestScheduler → RestScheduler
close s = if s.closed then s else notify (record s { closed = true })

unfoldable pub notify_resources_changed : RestScheduler → RestScheduler
notify_resources_changed s = if s.closed then s else notify s

abbrev pub pending_jobs : RestScheduler → List Pending
pending_jobs s = map (λ e. e.1) s.jobs

-- `sorted(..., key=lambda item: item.sequence)`
abbrev insert_pending : Pending → List Pending → List Pending
insert_pending p [] = p ∷ []
insert_pending p (q ∷ qs) =
    let rest = insert_pending p qs in if ltb p.sequence q.sequence then p ∷ q ∷ qs else q ∷ rest

abbrev pub by_sequence : List Pending → List Pending
by_sequence [] = []
by_sequence (p ∷ ps) = insert_pending p (by_sequence ps)

unfoldable pub pending_ids : RestScheduler → List String
pending_ids s = map (λ p. p.job.id) (by_sequence (pending_jobs s))

-- `del self._logical_index[key]`, if it leads to this job
unfoldable pub forget_logical : RestJob → Dict (List String) String → Dict (List String) String
forget_logical job index = elim job.logical_key [
  | none ↦ index
  | some key ↦ elim (lookup key index) [
    | none ↦ index
    | some id ↦ if str_eq id job.id then erase key index else index
  ]
]

abbrev pub without_id : String → List Entry → List Entry
without_id id = filter_by (λ e. not (str_eq e.id id))

-- `_complete_pending`
unfoldable pub complete_pending : Pending → RestScheduler → RestScheduler
unfolding forget_logical
complete_pending p s = record s {
  jobs = erase p.job.id s.jobs;
  logical_index = forget_logical p.job s.logical_index;
}

-- `_remove_pending`; every caller passes the id of a pending job.
unfoldable pub remove_pending : String → RestScheduler → RestScheduler
unfolding complete_pending
remove_pending id s = elim (lookup id s.jobs) [
  | none ↦ s
  | some p ↦
      let s' = complete_pending p s in
      record s' { future = without_id id s'.future; ready = without_id id s'.ready }
]

abbrev pub record_expired : String → RestScheduler → RestScheduler
record_expired id s = record s { expired = push_history s.max_history s.expired id }

-- `_expire`
unfoldable pub expire : Pending → RestScheduler → RestScheduler
unfolding remove_pending push_history
expire p s = record_expired p.job.id (remove_pending p.job.id s)

-- `deadline_ns is not None and now > deadline_ns`
abbrev pub is_past : ℕ → RestJob → Bool
is_past now job = elim job.deadline_ns [ none ↦ false | some d ↦ ltb d now ]

-- The `for` loop of `_expire_all`.
unfoldable pub drop_expired : List Pending → RestScheduler → RestScheduler
unfolding complete_pending push_history
drop_expired [] s = s
drop_expired (p ∷ ps) s = drop_expired ps (record_expired p.job.id (complete_pending p s))

-- `_expire_all`; the heaps lose the entries of the expired jobs.
unfoldable pub expire_all : ℕ → RestScheduler → ℕ × RestScheduler
unfolding drop_expired
expire_all now s =
    let expired = by_sequence (filter_by (λ p. is_past now p.job) (pending_jobs s)) in
    let ids = map (λ p. p.job.id) expired in
    let keep = filter_by (λ (e : Entry). not (contains ids e.id)) in
    let s' = drop_expired expired s in
    if length expired == 0
    then (0, s)
    else (length expired, record s' { future = keep s'.future; ready = keep s'.ready })

-- The pending job of an entry, unless the entry is out of date.
unfoldable pub live_pending : Entry → RestScheduler → Option Pending
live_pending e s = elim (lookup e.id s.jobs) [
  | none ↦ none
  | some p ↦ if p.sequence == e.sequence then some p else none
]

-- One round of the loop of `_promote_ready`, on the entry that was popped.
unfoldable pub promote_entry : ℕ → Entry → RestScheduler → RestScheduler
unfolding live_pending expire push
promote_entry now e s = elim (live_pending e s) [
  | none ↦ s
  | some p ↦ if is_past now p.job then expire p s else record s {
    ready = push (record { key = rank p.job.priority; sequence = e.sequence; id = e.id }) s.ready;
  }
]

-- The loop of `_promote_ready`; each round takes an entry from `future`, so its length is enough
-- fuel.
unfoldable pub promote : (fuel now : ℕ) → RestScheduler → RestScheduler
unfolding promote_entry
promote zero now s = s
promote (suc fuel) now s = elim s.future [
  | [] ↦ s
  | e ∷ rest ↦ elim (leb e.key now) [
    | false ↦ s
    | true ↦ promote fuel now (promote_entry now e (record s { future = rest }))
  ]
]

unfoldable pub promote_ready : ℕ → RestScheduler → RestScheduler
unfolding promote
promote_ready now s = promote (length s.future) now s
