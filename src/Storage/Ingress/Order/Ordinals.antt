-- ===== src/Storage/Ingress/Order/Ordinals.antt =====
-- The acceptance ordinals of `RawIngress` in storage/ingress.py.
use crytpo_data.Shared.{
  ℕ, ◌+◌, ◌≡◌, refl, sym, subst, ap, ◌∙◌, inl, inr, Option, some, List, [], ◌∷◌, ◌++◌, String, leb,
  Result, ok, raise_if, value_error, contract_error, Result-cases, ok-injective, >>=-eq-ok,
  >>-eq-ok,
}
use crytpo_data.Storage.Resident.{integer, normal, control}
use crytpo_data.Storage.Record.{AcceptedRecordIdentity, EnqueueResult}
use crytpo_data.Storage.Ingress.{RawIngress, nonempty, checked_sha256, new_ingress}
use crytpo_data.Storage.Ingress.Accept.{overflowed, entered}
use crytpo_data.Storage.Ingress.Drain.{drain_one, take_control_association}
use crytpo_data.Storage.Ingress.Replace.{
  is_busy, handed_on, make_replacement, replacement_for_config,
}
use crytpo_data.Storage.Ingress.Order.{Event, put, got, accept_events, drain_events, events, log}
use crytpo_data.Storage.Ingress.Order.Tried.{
  Tried, untouched, refused, taken, try_accept-Tried, taken_events,
}
use crytpo_data.Storage.Ingress.Sound.{IsSound}
use crytpo_data.Storage.Ingress.Sound.Drain.{Drained, nothing, head, drain_shard-Drained}
use crytpo_data.Storage.Ingress.Sound.Calls.{
  Step, accepting, draining, taking, releasing, superseding, replacing, Reach, here, next,
  Reach-IsSound_from,
}

-- The results put into any of the queues have the ordinals from one number on, up to another.
abbrev pub Counts : ℕ → List Event → ℕ → Type 0
Counts n [] m = m ≡ n
Counts n (put s r ∷ es) m =
    (a : AcceptedRecordIdentity) × (r.record_identity ≡ some a)
    × (a.acceptance_ordinal ≡ n)
    × Counts (n + 1) es m
Counts n (got s r ∷ es) m = Counts n es m

Counts-append :
    (n m l : ℕ) (es fs : List Event) → Counts n es m → Counts m fs l → Counts n (es ++ fs) l
Counts-append n m l [] fs h k = subst (λ x. Counts x fs l) h k
Counts-append n m l (put s r ∷ es) fs (a, has, numbered, h) k =
    (a, has, numbered, Counts-append (n + 1) m l es fs h k)
Counts-append n m l (got s r ∷ es) fs h k = Counts-append n m l es fs h k

abbrev Numbers : RawIngress → List Event → RawIngress → Type 0
Numbers i es j = Counts i.next_acceptance_ordinal es j.next_acceptance_ordinal

Tried-Numbers :
    {s : String} {i : RawIngress} {o : Result EnqueueResult × RawIngress}
    → Tried s i o
    → Numbers i (accept_events s o.0) o.1
unfolding overflowed entered
Tried-Numbers {s} {i} (untouched r quiet) = subst (λ es. Numbers i es i) (sym quiet) refl
Tried-Numbers (refused normal) = refl
Tried-Numbers (refused control) = refl
Tried-Numbers {s} {i} (taken c b _ numbered _) =
    subst (λ es. Counts i.next_acceptance_ordinal es (i.next_acceptance_ordinal + 1))
      (sym (taken_events s c i b)) (c.identity, refl, numbered, refl)

Drained-Numbers :
    {s : String} {i : RawIngress} {o : Result (Option EnqueueResult) × RawIngress} (t : String)
    → Drained s i o
    → Numbers i (drain_events t o.0) o.1
Drained-Numbers t (nothing _) = refl
Drained-Numbers t (head r rest m l _ _ _) = refl

drain_one-Numbers :
    (s : String) (i : RawIngress)
    → IsSound i
    → Numbers i (drain_events s (drain_one s i).0) (drain_one s i).1
unfolding drain_one
drain_one-Numbers s i v = elim (Result-cases (nonempty s)) [
  | inl (e, bad) ↦ simp (bad, drain_one) refl
  | inr (t, good) ↦ simp (good, drain_one) (Drained-Numbers s (drain_shard-Drained t i v))
]

make_replacement-next :
    (sha256 : String) (generation : ℕ) (i new : RawIngress)
    → make_replacement sha256 generation i ≡ ok new
    → new.next_acceptance_ordinal ≡ i.next_acceptance_ordinal
unfolding make_replacement handed_on
make_replacement-next sha256 generation i new h =
    let (s, _, h1) = >>=-eq-ok (checked_sha256 sha256) _ h in
    let (g, _, h2) = >>=-eq-ok (integer generation) _ h1 in
    let (_, h3) = >>-eq-ok (raise_if (leb g i.config_generation) value_error) _ h2 in
    let (_, h4) = >>-eq-ok (raise_if i.superseded contract_error) _ h3 in
    let (_, h5) = >>-eq-ok (raise_if (is_busy i) contract_error) _ h4 in
    let (j, _, h6) =
      >>=-eq-ok (new_ingress i.config i.worker_instance_id s g i.resident_budget) _ h5 in
    ap (λ (j : RawIngress). j.next_acceptance_ordinal) (sym (ok-injective h6))

replacement-next :
    (sha256 : String) (generation : ℕ) (i new : RawIngress)
    → (replacement_for_config sha256 generation i).0 ≡ ok new
    → new.next_acceptance_ordinal ≡ i.next_acceptance_ordinal
unfolding replacement_for_config
replacement-next sha256 generation i new h =
    elim (Result-cases (make_replacement sha256 generation i)) [
      | inl (e, bad) ↦ cc (rw (bad, replacement_for_config) at h)
      | inr (made, good) ↦
          make_replacement-next sha256 generation i new
            (good ∙ (rw (good, replacement_for_config) at h))
    ]

superseded-next :
    (sha256 : String) (generation : ℕ) (i : RawIngress)
    → (replacement_for_config sha256 generation i).1.next_acceptance_ordinal
      ≡ i.next_acceptance_ordinal
unfolding replacement_for_config
superseded-next sha256 generation i = elim (Result-cases (make_replacement sha256 generation i)) [
  | inl (e, bad) ↦ rw (bad, replacement_for_config)
  | inr (new, good) ↦ rw (good, replacement_for_config)
]

Step-Numbers : {i j : RawIngress} (s : Step i j) → IsSound i → Numbers i (events s) j
unfolding take_control_association
Step-Numbers (accepting out d source s time_ns monotonic_ns i) v =
    Tried-Numbers (try_accept-Tried out d source s time_ns monotonic_ns i)
Step-Numbers (draining s i) v = drain_one-Numbers s i v
Step-Numbers (taking a i) v = refl
Step-Numbers (releasing key i others) v = refl
Step-Numbers (superseding sha256 generation i) v = superseded-next sha256 generation i
Step-Numbers (replacing sha256 generation i new h) v = replacement-next sha256 generation i new h

-- From a sound state, over any calls, replacements of the ingress included: the records accepted,
-- whatever their shards, have the acceptance ordinals from the next one on, one after another with no
-- gap, and the next ordinal at the end follows the last of them.
pub Reach-Counts :
    {i j : RawIngress}
    → IsSound i
    → (r : Reach i j) → Counts i.next_acceptance_ordinal (log r) j.next_acceptance_ordinal
Reach-Counts v here = refl
Reach-Counts v (next r s) =
    Counts-append _ _ _ (log r) (events s) (Reach-Counts v r)
      (Step-Numbers s (Reach-IsSound_from v r))
