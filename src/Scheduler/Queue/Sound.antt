-- ===== src/Scheduler/Queue/Sound.antt =====
-- The invariant of `RestScheduler` in scheduler/rest.py, as a predicate: its dictionary is keyed by the jobs' ids, the entries of the heaps
-- describe the jobs that they name, and the collections are within their limits.
use crytpo_data.Shared.{
  ℕ, zero, suc, ◌+◌, ◌-◌, ◌≤◌, ◌≡◌, refl, ◌∙◌, Bool, true, false, none, some, List, [], ◌∷◌, ◌++◌,
  String, length, All, All-map, Dict, lookup, insert, erase, string_eq, arith, if◌then◌else◌,
  lookup-insert_ne,
}
use crytpo_data.Scheduler.Queue.{Pending, Entry, RestScheduler, push, push_history, entry_ltb, drop}

abbrev pub Jobs : Type 0
Jobs = Dict String Pending

-- Every job stands under its id, and no id is there twice.
abbrev pub IsDict : Jobs → Type 0
IsDict [] = Unit
IsDict ((k, p) ∷ d) = (p.job.id ≡ k) × (lookup k d ≡ none) × IsDict d

-- The job that an entry names, if the entry is not out of date.
abbrev pub Live : Jobs → (Pending → Type 0) → Entry → Type 0
Live jobs P e = (p : Pending) → lookup e.id jobs ≡ some p → p.sequence ≡ e.sequence → P p

-- A ready entry was given out before, and its job's time has come.
abbrev pub IsReady : (now number : ℕ) → Jobs → Entry → Type 0
IsReady now number jobs e =
    (e.sequence ≤ number) × Live jobs (λ p. p.job.ready_monotonic_ns ≤ now) e

-- A future entry was given out before, and its key is the time of its job.
abbrev pub IsFuture : (number : ℕ) → Jobs → Entry → Type 0
IsFuture number jobs e = (e.sequence ≤ number) × Live jobs (λ p. p.job.ready_monotonic_ns ≡ e.key) e

pub record IsSound (s : RestScheduler) : Type 0 where
  pub dict : IsDict s.jobs
  pub ready_entries : All (IsReady s.last_now_ns s.sequence s.jobs) s.ready
  pub future_entries : All (IsFuture s.sequence s.jobs) s.future
  pub few_pending : length s.jobs ≤ s.max_pending
  pub few_expired : length s.expired ≤ s.max_history
  pub few_evicted : length s.evicted ≤ s.max_history

length-drop : (n : ℕ) (xs : List String) → length (drop n xs) ≡ length xs - n
length-drop zero xs = omega arith
length-drop (suc n) [] = omega arith
length-drop (suc n) (x ∷ xs) = omega (arith, length-drop n xs)

pub length-push_history-le :
    (limit : ℕ) (xs : List String) (x : String) → length (push_history limit xs x) ≤ limit
unfolding push_history
length-push_history-le limit xs x =
    omega (arith, length-drop (length (xs ++ x ∷ []) - limit) (xs ++ x ∷ []))

pub All-push :
    (P : Entry → Type 0) (e : Entry) (es : List Entry) → P e → All P es → All P (push e es)
unfolding push
All-push P e [] h hs = (h, tt)
All-push P e (x ∷ xs) h (hx, hs) = split (entry_ltb e x) (All-push P e xs h hs)
  where
    split : (b : Bool) → All P (push e xs) → All P (if b then e ∷ x ∷ xs else x ∷ push e xs)
    split true rest = (h, (hx, hs))
    split false rest = (hx, rest)

-- Some jobs were taken out.
abbrev pub IsPart : Jobs → Jobs → Type 0
IsPart jobs' jobs = (id : String) (p : Pending) → lookup id jobs' ≡ some p → lookup id jobs ≡ some p

pub erase-IsPart : (k : String) (d : Jobs) → IsDict d → IsPart (erase k d) d
erase-IsPart k [] v id p h = h
erase-IsPart k ((j, q) ∷ d) (e, absent, v) id p h =
    ground (arith, string_eq.beq_iff id j, erase-IsPart k d v id p)

pub lookup-erase_self : (k : String) (d : Jobs) → IsDict d → lookup k (erase k d) ≡ none
lookup-erase_self k [] v = refl
lookup-erase_self k ((j, q) ∷ d) (e, absent, v) =
    ground (arith, lookup-erase_self k d v, string_eq.beq_iff k j)

lookup-erase_absent : (k j : String) (d : Jobs) → lookup j d ≡ none → lookup j (erase k d) ≡ none
lookup-erase_absent k j [] h = refl
lookup-erase_absent k j ((i, q) ∷ d) h = ground (arith, lookup-erase_absent k j d)

pub erase-IsDict : (k : String) (d : Jobs) → IsDict d → IsDict (erase k d)
erase-IsDict k [] v = tt
erase-IsDict k ((j, q) ∷ d) (e, absent, v) =
    ground (arith, erase-IsDict k d v, lookup-erase_absent k j d absent)

pub insert-IsDict :
    (k : String) (p : Pending) (d : Jobs)
    → IsDict d
    → lookup k d ≡ none
    → p.job.id ≡ k
    → IsDict (insert k p d) × (length (insert k p d) ≡ length d + 1)
insert-IsDict k p [] v new e = ((e, refl, tt), omega arith)
insert-IsDict k p ((j, q) ∷ d) (e', absent, v) new e =
    ground (arith, insert-IsDict k p d v, lookup-insert_ne j k p d, string_eq.beq_iff k j)

pub length-erase-le : (k : String) (d : Jobs) → length (erase k d) ≤ length d
length-erase-le k [] = omega arith
length-erase-le k ((j, q) ∷ d) = ground (arith, length-erase-le k d)

pub length-erase :
    (k : String) (d : Jobs) (p : Pending) → lookup k d ≡ some p → length (erase k d) + 1 ≡ length d
length-erase k [] p h = cc
length-erase k ((j, q) ∷ d) p h = ground (arith, length-erase k d p)

pub IsDict-id :
    (k : String) (d : Jobs) (p : Pending) → IsDict d → lookup k d ≡ some p → p.job.id ≡ k
IsDict-id k [] p v found = cc
IsDict-id k ((j, q) ∷ d) p (same, absent, v) found =
    ground (arith, string_eq.beq_iff k j, IsDict-id k d p v)

pub Live-part :
    (jobs jobs' : Jobs) (P : Pending → Type 0) (e : Entry)
    → IsPart jobs' jobs
    → Live jobs P e
    → Live jobs' P e
Live-part jobs jobs' P e part live p found same = live p (part e.id p found) same

-- A change that takes jobs out and keeps the invariant, the clock, the numbering and the limit.
pub record Follows (s s' : RestScheduler) : Type 0 where
  pub sound : IsSound s'
  pub part : IsPart s'.jobs s.jobs
  pub same_number : s'.sequence ≡ s.sequence
  pub same_now : s'.last_now_ns ≡ s.last_now_ns
  pub same_limit : s'.max_pending ≡ s.max_pending

pub Follows-refl : (s : RestScheduler) → IsSound s → Follows s s
Follows-refl s v = record {
  sound = v;
  part = λ id p h. h;
  same_number = refl;
  same_now = refl;
  same_limit = refl;
}

pub Follows-trans : (s t u : RestScheduler) → Follows s t → Follows t u → Follows s u
Follows-trans s t u f g = record {
  sound = g.sound;
  part = λ id p h. f.part id p (g.part id p h);
  same_number = g.same_number ∙ f.same_number;
  same_now = g.same_now ∙ f.same_now;
  same_limit = g.same_limit ∙ f.same_limit;
}

-- Such a change may leave any entries that described the jobs before.
pub Follows-part :
    (s s' : RestScheduler)
    → IsSound s
    → IsDict s'.jobs
    → IsPart s'.jobs s.jobs
    → length s'.jobs ≤ length s.jobs
    → s'.sequence ≡ s.sequence
    → s'.last_now_ns ≡ s.last_now_ns
    → s'.max_pending ≡ s.max_pending
    → All (IsReady s.last_now_ns s.sequence s.jobs) s'.ready
    → All (IsFuture s.sequence s.jobs) s'.future
    → length s'.expired ≤ s'.max_history
    → length s'.evicted ≤ s'.max_history
    → Follows s s'
Follows-part s s' v dict part fewer number now limit ready future old gone = record {
  sound = record {
    dict = dict;
    ready_entries =
        rw (number, now)
          (All-map _ (λ e (low, live). (low, Live-part _ _ _ e part live)) s'.ready ready);
    future_entries =
        rw number
          (All-map _ (λ e (low, live). (low, Live-part _ _ _ e part live)) s'.future future);
    few_pending = omega (arith, v.few_pending);
    few_expired = old;
    few_evicted = gone;
  };
  part = part;
  same_number = number;
  same_now = now;
  same_limit = limit;
}
