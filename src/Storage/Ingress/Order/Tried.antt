-- ===== src/Storage/Ingress/Order/Tried.antt =====
-- The outcomes of the whole of `try_accept` in storage/ingress.py.
use crytpo_data.Shared.{
  ℕ, ◌≡◌, refl, inl, inr, [], ◌∷◌, String, leb, Result, Error, err, Bool-cases, Result-cases,
}
use crytpo_data.Domain.Envelope.{SourceContext, NativeEventDraft}
use crytpo_data.Storage.Resident.{CapacityClass, normal, control, ResidentBudget, resident_bytes}
use crytpo_data.Storage.Record.{EnqueueResult}
use crytpo_data.Storage.Ingress.{Outside, RawIngress}
use crytpo_data.Storage.Ingress.Accept.{
  Candidate, candidate, overflow_result, overflowed, try_accept,
}
use crytpo_data.Storage.Ingress.Outcome.{
  Outcome, raised, full, entry, Reserves, entry_at, make_entry-Outcome,
}
use crytpo_data.Storage.Ingress.Views.{entry_result}
use crytpo_data.Storage.Ingress.Order.{accept_events, put}
use crytpo_data.Storage.Ingress.Sound.Accept.{candidate-next}

-- A call for a shard raises or finds the ingress superseded, and leaves it; or it counts an overflow;
-- or it enters a record with the next ordinal into the shard's queue.
pub data Tried (shard : String) (i : RawIngress) : Result EnqueueResult × RawIngress → Type 0 where
  untouched : (r : Result EnqueueResult) → accept_events shard r ≡ [] → Tried shard i (r, i)
  refused : (class : CapacityClass) → Tried shard i (overflow_result class i)
  taken :
      (c : Candidate) (b : ResidentBudget)
      → c.shard ≡ shard
      → c.identity.acceptance_ordinal ≡ i.next_acceptance_ordinal
      → Reserves c i b
      → Tried shard i (entry_at c i b)

Outcome-Tried :
    {c : Candidate} {i : RawIngress} {o : Result EnqueueResult × RawIngress} (shard : String)
    → c.shard ≡ shard
    → c.identity.acceptance_ordinal ≡ i.next_acceptance_ordinal
    → Outcome c i o
    → Tried shard i o
Outcome-Tried shard same numbered (raised e) = untouched (err e) refl
Outcome-Tried {c} shard same numbered full = refused c.capacity_class
Outcome-Tried {c} shard same numbered (entry b h _ _) = taken c b same numbered h

pub try_accept-Tried :
    (out : Outside) (d : NativeEventDraft) (source : SourceContext) (shard : String)
    (time_ns monotonic_ns : ℕ) (i : RawIngress)
    → Tried shard i (try_accept out d source shard time_ns monotonic_ns i)
unfolding try_accept
try_accept-Tried out d source shard time_ns monotonic_ns i = elim (Bool-cases i.superseded) [
  | inl over ↦ simp (over, try_accept) (untouched _ refl)
  | inr going ↦ elim (Result-cases (candidate out d source shard time_ns monotonic_ns i)) [
    | inl (e, bad) ↦ simp (going, bad, try_accept) (untouched (err e) refl)
    | inr (c, good) ↦
        simp (going, good, try_accept)
          (let (same, numbered) = candidate-next out d source shard time_ns monotonic_ns i c good in
            Outcome-Tried shard same numbered (make_entry-Outcome c i))
  ]
]

Tried-err :
    {shard : String} {i : RawIngress} {o : Result EnqueueResult × RawIngress} (e : Error)
    → Tried shard i o
    → o.0 ≡ err e
    → o.1 ≡ i
unfolding overflowed
Tried-err e (untouched r _) h = refl
Tried-err e (refused normal) h = cc
Tried-err e (refused control) h = cc
Tried-err e (taken c b _ _ _) h = cc

-- A call of `try_accept` that raises leaves the ingress, its budget and its counters as they were.
pub try_accept-err :
    (out : Outside) (d : NativeEventDraft) (source : SourceContext) (shard : String)
    (time_ns monotonic_ns : ℕ) (i : RawIngress) (e : Error)
    → (try_accept out d source shard time_ns monotonic_ns i).0 ≡ err e
    → (try_accept out d source shard time_ns monotonic_ns i).1 ≡ i
try_accept-err out d source shard time_ns monotonic_ns i e h =
    Tried-err e (try_accept-Tried out d source shard time_ns monotonic_ns i) h

-- The events of the three outcomes.
pub refused_events :
    (shard : String) (class : CapacityClass) (i : RawIngress)
    → accept_events shard (overflow_result class i).0 ≡ []
unfolding overflowed
refused_events shard normal i = refl
refused_events shard control i = refl

pub taken_events :
    (shard : String) (c : Candidate) (i : RawIngress) (b : ResidentBudget)
    → accept_events shard (entry_at c i b).0 ≡ put shard (entry_result c i b) ∷ []
taken_events shard c i b = elim (Bool-cases (leb i.high_water_bytes (resident_bytes b))) [
  | inl high ↦ rw high
  | inr low ↦ rw low
]
