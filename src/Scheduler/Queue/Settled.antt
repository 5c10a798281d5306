-- ===== src/Scheduler/Queue/Settled.antt =====
-- The loop of `_promote_ready` in scheduler/rest.py ends, with no due entry left.
use crytpo_data.Shared.{
  ℕ, zero, suc, ◌≤◌, ◌<◌, String, not, List, [], ◌∷◌, length, length-filter_by-le, List-cases,
  Option-cases, Bool-cases, inl, inr, leb, leb-false, lookup, str_eq, string_eq, arith,
}
use crytpo_data.Scheduler.Queue.{
  Entry, RestScheduler, complete_pending, remove_pending, expire, is_past, live_pending,
  promote_entry, promote, promote_ready,
}

-- The first entry of the heap is not due.
abbrev pub IsSettled : (now : ℕ) → List Entry → Type 0
IsSettled now [] = Unit
IsSettled now (e ∷ es) = now < e.key

remove_pending-length :
    (id : String) (s : RestScheduler) → length (remove_pending id s).future ≤ length s.future
unfolding remove_pending complete_pending
remove_pending-length id s = elim (Option-cases (lookup id s.jobs)) [
  | inl absent ↦ rw (absent, remove_pending) (omega arith)
  | inr (p, found) ↦
      rw (found, remove_pending) (length-filter_by-le (λ e. not (str_eq e.id id)) s.future)
]

promote_entry-length :
    (now : ℕ) (e : Entry) (s : RestScheduler)
    → length (promote_entry now e s).future ≤ length s.future
unfolding promote_entry expire
promote_entry-length now e s = elim (Option-cases (live_pending e s)) [
  | inl gone ↦ rw (gone, promote_entry) (omega arith)
  | inr (p, live) ↦ elim (Bool-cases (is_past now p.job)) [
    | inl past ↦ rw (live, past, promote_entry) (remove_pending-length p.job.id s)
    | inr open_still ↦ rw (live, open_still, promote_entry) (omega arith)
  ]
]

promote-IsSettled :
    (fuel now : ℕ) (s : RestScheduler)
    → length s.future ≤ fuel
    → IsSettled now (promote fuel now s).future
unfolding promote
promote-IsSettled zero now s few = elim (List-cases s.future) [
  | inl empty ↦ rw empty tt
  | inr (e, rest, from) ↦ let few' = rw from at few in absurd (omega (arith, few'))
]
promote-IsSettled (suc fuel) now s few = elim (List-cases s.future) [
  | inl empty ↦ simp (empty, promote) tt
  | inr (e, rest, from) ↦ elim (Bool-cases (leb e.key now)) [
    | inr later ↦ simp (from, later, promote) (leb-false _ _ later)
    | inl due ↦
        let few' = rw from at few in
        let less = promote_entry-length now e (record s { future = rest }) in
        simp (from, due, promote) (promote-IsSettled fuel now _ (omega (arith, less, few')))
  ]
]

-- As many rounds as the heap of future entries is long end the loop of `_promote_ready`: after it, the
-- heap is empty or its first entry is after now.
pub promote_ready-IsSettled :
    (now : ℕ) (s : RestScheduler) → IsSettled now (promote_ready now s).future
unfolding promote_ready
promote_ready-IsSettled now s = promote-IsSettled (length s.future) now s (omega arith)
