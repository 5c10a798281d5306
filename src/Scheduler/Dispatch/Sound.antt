-- ===== src/Scheduler/Dispatch/Sound.antt =====
-- The loop of `_next_ready` in scheduler/rest.py, and the whole call.
use crytpo_data.Shared.{
  ℕ, zero, suc, max, ◌≡◌, refl, ◌∙◌, subst, ◌⊎◌, Bool, true, false, Option, none, some, List, [],
  ◌∷◌, length, arith, inl, inr, List-cases, Error, Result, ok, err,
}
use crytpo_data.Scheduler.Job.{RestDispatch}
use crytpo_data.Scheduler.Queue.{Entry, RestScheduler, push, observe_now, expire_all, promote_ready}
use crytpo_data.Scheduler.Queue.Sound.{
  IsSound, Follows, Follows-refl, Follows-trans, Follows-part, IsReady, IsPart, All-push,
}
use crytpo_data.Scheduler.Queue.Keeps.{
  observe_now-IsSound, expire_all-Follows, promote_ready-Follows,
}
use crytpo_data.Scheduler.Dispatch.{
  Round, Turn, again, selected, raised, visit, scan, push_all, finish, prepare, first_round, select,
  unless_closed, next_ready,
}
use crytpo_data.Scheduler.Dispatch.Rounds.{
  AreHeld, Goes, IsSent, IsTurn, IsSent-before, after-IsTurn, visit-IsTurn,
}

-- How the loop ends, as a turn.
abbrev as_turn : Result (Option RestDispatch) × Round → Turn
as_turn (ok none, w) = again w
as_turn (ok (some d), w) = selected d w
as_turn (err e, w) = raised e w

Turn-cases :
    (t : Turn)
    → ((w : Round) × (t ≡ again w))
      ⊎ (((d : RestDispatch) × (w : Round) × (t ≡ selected d w))
          ⊎ ((e : Error) × (w : Round) × (t ≡ raised e w)))
Turn-cases (again w) = inl (w, refl)
Turn-cases (selected d w) = inr (inl (d, w, refl))
Turn-cases (raised e w) = inr (inr (e, w, refl))

scan-IsTurn :
    (fuel now : ℕ) (w : Round)
    → IsSound w.scheduler
    → AreHeld w.scheduler w.blocked
    → w.scheduler.last_now_ns ≡ now
    → IsTurn now w (as_turn (scan fuel now w))
unfolding scan IsTurn
scan-IsTurn zero now w v held at = record { follows = Follows-refl _ v; held = held }
scan-IsTurn (suc fuel) now w v held at = elim (List-cases w.scheduler.ready) [
  | inl empty ↦ simp (empty, scan) (record { follows = Follows-refl _ v; held = held })
  | inr (e, rest, from) ↦
      let (this, others) : IsReady w.scheduler.last_now_ns w.scheduler.sequence w.scheduler.jobs e
          × AreHeld w.scheduler rest =
        rw from at v.ready_entries in
      let w' = record w { scheduler = record w.scheduler { ready = rest } } in
      let f : Follows w.scheduler w'.scheduler =
        Follows-part w.scheduler w'.scheduler v v.dict (λ i p h. h) (omega arith) refl refl refl
          others v.future_entries v.few_expired v.few_evicted in
      let turn : IsTurn now w (visit now e w') =
        after-IsTurn now w w' _ f (visit-IsTurn now e w' f.sound held at this) in
      elim (Turn-cases (visit now e w')) [
        | inl (u, goes_on) ↦
            let goes : Goes now w u = rw goes_on at turn in
            simp (from, goes_on, scan)
              (after-IsTurn now w u _ goes.follows
                (scan-IsTurn fuel now u goes.follows.sound goes.held (goes.follows.same_now ∙ at)))
        | inr (inl (d, u, out)) ↦ simp (from, out, scan) (rw out at turn)
        | inr (inr (error, u, left)) ↦ simp (from, left, scan) (rw left at turn)
      ]
]

push_all-AreHeld :
    (s : RestScheduler) (es ready : List Entry)
    → AreHeld s es
    → AreHeld s ready
    → AreHeld s (push_all es ready)
unfolding push_all
push_all-AreHeld s [] ready h hs = hs
push_all-AreHeld s (e ∷ es) ready (h, hs) old =
    push_all-AreHeld s es (push e ready) hs (All-push _ e ready h old)

-- What a call of `next_ready` must come to.
IsNext : ℕ → RestScheduler → Result (Option RestDispatch) × RestScheduler → Type 0
IsNext now s (ok none, s') = IsSound s'
IsNext now s (ok (some d), s') = IsSound s' × IsSent now d s s'
IsNext now s (err e, s') = IsSound s'

finished-IsSound :
    (now : ℕ) (w w' : Round)
    → Goes now w w'
    → IsSound (record w'.scheduler {
      ready = push_all w'.blocked w'.scheduler.ready;
      next_budget_ready_ns = w'.next_budget_ready_ns;
    })
finished-IsSound now w w' goes =
    let v = goes.follows.sound in
    record {
      dict = v.dict;
      ready_entries =
          push_all-AreHeld w'.scheduler w'.blocked w'.scheduler.ready goes.held v.ready_entries;
      future_entries = v.future_entries;
      few_pending = v.few_pending;
      few_expired = v.few_expired;
      few_evicted = v.few_evicted;
    }

finish-IsNext :
    (now : ℕ) (w : Round) (x : Result (Option RestDispatch) × Round)
    → IsTurn now w (as_turn x)
    → IsNext now w.scheduler (finish x)
unfolding finish IsTurn IsNext
finish-IsNext now w (ok none, w') goes = finished-IsSound now w w' goes
finish-IsNext now w (ok (some d), w') (goes, sent) = (
  finished-IsSound now w w' goes,
  record {
    was_pending = sent.was_pending;
    due = sent.due;
    in_time = sent.in_time;
    at_now = sent.at_now;
    checked = sent.checked;
    gone = sent.gone;
  },
)
finish-IsNext now w (err e, w') v = v

prepare-Follows :
    (clock : ℕ) (s : RestScheduler) → IsSound s → Follows (observe_now clock s) (prepare clock s)
unfolding prepare
prepare-Follows clock s v =
    let s0 = observe_now clock s in
    let first = expire_all-Follows s0.last_now_ns s0 (observe_now-IsSound clock s v) in
    let s1 = (expire_all s0.last_now_ns s0).1 in
    Follows-trans s0 s1 _ first (
      subst (λ now. Follows s1 (promote_ready now s1)) first.same_now
        (promote_ready-Follows _ first.sound))

IsNext-before :
    (now : ℕ) (s t : RestScheduler) (x : Result (Option RestDispatch) × RestScheduler)
    → IsPart t.jobs s.jobs
    → IsNext now t x
    → IsNext now s x
unfolding IsNext
IsNext-before now s t (ok none, s') part v = v
IsNext-before now s t (ok (some d), s') part (v, sent) = (v, IsSent-before now d s t s' part sent)
IsNext-before now s t (err e, s') part v = v

select-IsNext : (s : RestScheduler) → IsSound s → IsNext s.last_now_ns s (select s)
unfolding select
select-IsNext s v =
    finish-IsNext s.last_now_ns (first_round s) _
      (scan-IsTurn (length s.ready) s.last_now_ns (first_round s) v tt refl)

unless_closed-IsNext :
    (shut : Bool) (clock : ℕ) (s : RestScheduler)
    → IsSound s
    → IsNext (max s.last_now_ns clock) s (unless_closed shut clock s)
unfolding unless_closed observe_now IsNext
unless_closed-IsNext true clock s v = v
unless_closed-IsNext false clock s v =
    let f = prepare-Follows clock s v in
    let t = prepare clock s in
    IsNext-before _ s t _ f.part
      (subst (λ now. IsNext now t (select t)) f.same_now (select-IsNext t f.sound))

next_ready-IsNext :
    (clock : ℕ) (s : RestScheduler)
    → IsSound s
    → IsNext (max s.last_now_ns clock) s (next_ready clock s)
unfolding next_ready
next_ready-IsNext clock s v = unless_closed-IsNext s.closed clock s v

-- If the scheduler satisfies the invariant, so does what `next_ready` leaves behind, whatever it
-- returns or raises.
pub next_ready-IsSound :
    (clock : ℕ) (s : RestScheduler) → IsSound s → IsSound (next_ready clock s).1
unfolding IsNext
next_ready-IsSound clock s v = go (next_ready clock s) (next_ready-IsNext clock s v)
  where
    go :
        (x : Result (Option RestDispatch) × RestScheduler)
        → IsNext (max s.last_now_ns clock) s x
        → IsSound x.1
    go (ok none, s') h = h
    go (ok (some d), s') (h, sent) = h
    go (err e, s') h = h

-- If the scheduler satisfies the invariant and `next_ready` returns a dispatch, then at the later
-- of the last instant and the clock's the job was pending before, its ready time has come, its
-- deadline is not past, the dispatch passes the checks of `RestDispatch` (one of the job's own
-- routes, on the egress of its generation source), and the job is pending no more.
pub next_ready-IsSent :
    (clock : ℕ) (s s' : RestScheduler) (d : RestDispatch)
    → IsSound s
    → next_ready clock s ≡ (ok (some d), s')
    → IsSent (max s.last_now_ns clock) d s s'
unfolding IsNext
next_ready-IsSent clock s s' d v e =
    (subst (IsNext (max s.last_now_ns clock) s) e (next_ready-IsNext clock s v)).1
