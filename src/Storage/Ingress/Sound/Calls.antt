-- ===== src/Storage/Ingress/Sound/Calls.antt =====
-- The calls of `RawIngress` in storage/ingress.py, one after another, and what the writer does to the
-- budget between them.
use crytpo_data.Shared.{
  ℕ, ◌<◌, ◌≡◌, refl, sym, subst, ap, ◌∙◌, inl, inr, not, some, [], String, leb, length, All, ok,
  contract_error, value_error, raise_if, lookup, string_eq, pair_eq, nat_eq, arith, Result-cases,
  >>=-eq-ok, >>-eq-ok, ok-injective,
}
use crytpo_data.Domain.Envelope.{SourceContext, NativeEventDraft}
use crytpo_data.Storage.Resident.{ChargeKey, ResidentCharge, ResidentBudget, release, integer}
use crytpo_data.Storage.Record.{AcceptedRecordIdentity}
use crytpo_data.Storage.Ingress.{
  IngressConfig, Outside, RawIngress, nonempty, or_no_queue, or_no_bytes, queue_of, bytes_of,
  first_of, new_ingress, fresh_ingress, checked_sha256, sequence_key_eq,
}
use crytpo_data.Storage.Ingress.Accept.{try_accept}
use crytpo_data.Storage.Ingress.Drain.{drain_one, take_control_association}
use crytpo_data.Storage.Ingress.Replace.{
  make_replacement, replacement_for_config, handed_on, is_busy,
}
use crytpo_data.Storage.Ingress.Outcome.{with_budget}
use crytpo_data.Storage.Ingress.Sound.{IsSound, Charged, Unnamed}
use crytpo_data.Storage.Ingress.Sound.Drain.{drain_shard-Drained, Drained-first, Drained-IsSound}
use crytpo_data.Storage.Ingress.Sound.Accept.{try_accept-IsSound}
use crytpo_data.Storage.Ingress.Sound.Release.{release-IsSound}
use crytpo_data.Storage.Resident.Calls.{new_budget-IsBalanced, new_budget-no_charges}
use crytpo_data.Storage.Resident.Balance.{IsBalanced}
use crytpo_data.Storage.Resident.{new_budget, matches_config}

-- The calls, and the release of a record that is queued no more.
pub data Step : RawIngress → RawIngress → Type 0 where
  accepting :
      (out : Outside) (d : NativeEventDraft) (source : SourceContext) (shard : String)
      (time_ns monotonic_ns : ℕ) (i : RawIngress)
      → Step i (try_accept out d source shard time_ns monotonic_ns i).1
  draining : (shard : String) (i : RawIngress) → Step i (drain_one shard i).1
  taking : (a : AcceptedRecordIdentity) (i : RawIngress) → Step i (take_control_association a i).1
  releasing :
      (key : ChargeKey) (i : RawIngress)
      → ((shard : String) → All (Unnamed key) (queue_of shard i))
      → Step i (with_budget (release key i.resident_budget).1 i)
  superseding :
      (sha256 : String) (generation : ℕ) (i : RawIngress)
      → Step i (replacement_for_config sha256 generation i).1
  replacing :
      (sha256 : String) (generation : ℕ) (i new : RawIngress)
      → (replacement_for_config sha256 generation i).0 ≡ ok new
      → Step i new

pub data Reach (i : RawIngress) : RawIngress → Type 0 where
  here : Reach i i
  next : {j k : RawIngress} → Reach i j → Step j k → Reach i k

drain_one-IsSound : (shard : String) (i : RawIngress) → IsSound i → IsSound (drain_one shard i).1
unfolding drain_one
drain_one-IsSound shard i v = elim (Result-cases (nonempty shard)) [
  | inl (e, bad) ↦ simp (bad, drain_one) v
  | inr (s, good) ↦ simp (good, drain_one) (Drained-IsSound (drain_shard-Drained s i v) v)
]

-- An ingress with nothing queued is sound if its budget is balanced and its charges have ordinals.
empty-IsSound :
    (i : RawIngress)
    → i.queues ≡ []
    → i.queued_bytes ≡ []
    → IsBalanced i.resident_budget
    → ((key : ChargeKey) (c : ResidentCharge)
        → lookup key i.resident_budget.charges ≡ some c
        → key.1 < i.next_acceptance_ordinal)
    → IsSound i
empty-IsSound i no_queues no_bytes balanced numbered =
    let q = λ (shard : String). ap (λ d. or_no_queue (lookup shard d)) no_queues in
    let n = λ (shard : String). ap (λ d. or_no_bytes (lookup shard d)) no_bytes in
    record {
      balanced = balanced;
      charged = λ shard.
          subst (λ q. Charged i.resident_budget.charges q (bytes_of shard i)) (sym (q shard))
            (n shard);
      short = λ shard. omega (arith, ap length (q shard));
      light = λ shard. omega (arith, n shard);
      numbered = numbered;
    }

-- What the constructor returns holds its arguments.
pub new_ingress-fresh_ingress :
    (config : IngressConfig) (worker sha256 : String) (generation : ℕ) (b : ResidentBudget)
    (i : RawIngress)
    → new_ingress config worker sha256 generation b ≡ ok i
    → (w s : String) × (g : ℕ) × (i ≡ fresh_ingress config w s g b)
unfolding new_ingress
new_ingress-fresh_ingress config worker sha256 generation b i h =
    let (_, h1) =
      >>-eq-ok
        (raise_if (not (matches_config config.worker_max_bytes config.control_reserve_bytes b))
          value_error)
        _ h in
    let (w, _, h2) = >>=-eq-ok (nonempty worker) _ h1 in
    let (s, _, h3) = >>=-eq-ok (checked_sha256 sha256) _ h2 in
    let (g, _, h4) = >>=-eq-ok (integer generation) _ h3 in (w, s, g, sym (ok-injective h4))

new_ingress-IsSound :
    (maximum reserve_bytes : ℕ) (config : IngressConfig) (worker sha256 : String) (generation : ℕ)
    (b : ResidentBudget) (i : RawIngress)
    → new_budget maximum reserve_bytes ≡ ok b
    → new_ingress config worker sha256 generation b ≡ ok i
    → IsSound i
new_ingress-IsSound maximum reserve_bytes config worker sha256 generation b i budget made =
    let (w, s, g, e) = new_ingress-fresh_ingress config worker sha256 generation b i made in
    subst IsSound (sym e) (
      empty-IsSound (fresh_ingress config w s g b) refl refl
        (new_budget-IsBalanced maximum reserve_bytes b budget)
        (λ key c found. cc (found, new_budget-no_charges maximum reserve_bytes b budget)))

make_replacement-IsSound :
    (sha256 : String) (generation : ℕ) (i new : RawIngress)
    → IsSound i
    → make_replacement sha256 generation i ≡ ok new
    → IsSound new
unfolding make_replacement handed_on
make_replacement-IsSound sha256 generation i new v h =
    let (s, _, h1) = >>=-eq-ok (checked_sha256 sha256) _ h in
    let (g, _, h2) = >>=-eq-ok (integer generation) _ h1 in
    let (_, h3) = >>-eq-ok (raise_if (leb g i.config_generation) value_error) _ h2 in
    let (_, h4) = >>-eq-ok (raise_if i.superseded contract_error) _ h3 in
    let (_, h5) = >>-eq-ok (raise_if (is_busy i) contract_error) _ h4 in
    let (j, made, h6) =
      >>=-eq-ok (new_ingress i.config i.worker_instance_id s g i.resident_budget) _ h5 in
    let (w, t, k, e) =
      new_ingress-fresh_ingress i.config i.worker_instance_id s g i.resident_budget j made in
    subst IsSound (ok-injective h6) (
      subst (λ j. IsSound (handed_on i j)) (sym e)
        (empty-IsSound (handed_on i (fresh_ingress i.config w t k i.resident_budget)) refl refl
          v.balanced v.numbered))

superseded-IsSound :
    (sha256 : String) (generation : ℕ) (i : RawIngress)
    → IsSound i
    → IsSound (replacement_for_config sha256 generation i).1
unfolding replacement_for_config
superseded-IsSound sha256 generation i v =
    elim (Result-cases (make_replacement sha256 generation i)) [
      | inl (e, bad) ↦ simp (bad, replacement_for_config) v
      | inr (new, good) ↦
          simp (good, replacement_for_config)
            (record {
              balanced = v.balanced;
              charged = v.charged;
              short = v.short;
              light = v.light;
              numbered = v.numbered;
            })
    ]

replacement-IsSound :
    (sha256 : String) (generation : ℕ) (i new : RawIngress)
    → IsSound i
    → (replacement_for_config sha256 generation i).0 ≡ ok new
    → IsSound new
unfolding replacement_for_config
replacement-IsSound sha256 generation i new v h =
    elim (Result-cases (make_replacement sha256 generation i)) [
      | inl (e, bad) ↦ cc (rw (bad, replacement_for_config) at h)
      | inr (made, good) ↦
          make_replacement-IsSound sha256 generation i new v
            (good ∙ (rw (good, replacement_for_config) at h))
    ]

Step-IsSound : {i j : RawIngress} → Step i j → IsSound i → IsSound j
unfolding take_control_association
Step-IsSound (accepting out d source shard time_ns monotonic_ns i) v =
    try_accept-IsSound out d source shard time_ns monotonic_ns i v
Step-IsSound (draining shard i) v = drain_one-IsSound shard i v
Step-IsSound (taking a i) v = record {
  balanced = v.balanced;
  charged = v.charged;
  short = v.short;
  light = v.light;
  numbered = v.numbered;
}
Step-IsSound (releasing key i others) v = release-IsSound key i others v
Step-IsSound (superseding sha256 generation i) v = superseded-IsSound sha256 generation i v
Step-IsSound (replacing sha256 generation i new h) v =
    replacement-IsSound sha256 generation i new v h

pub Reach-IsSound_from : {i j : RawIngress} → IsSound i → Reach i j → IsSound j
Reach-IsSound_from v here = v
Reach-IsSound_from v (next r s) = Step-IsSound s (Reach-IsSound_from v r)

-- After any calls of an ingress made with a new budget, replacements of it included, and releases of
-- records that are queued no more: the budget is balanced, the bytes of a shard are the sum of the
-- charges that the budget holds for its queued records, a queue is no longer and no heavier than the
-- configuration allows, and every charge has an ordinal already given.
pub Reach-IsSound :
    {i j : RawIngress} (maximum reserve_bytes : ℕ) (config : IngressConfig) (worker sha256 : String)
    (generation : ℕ) (b : ResidentBudget)
    → new_budget maximum reserve_bytes ≡ ok b
    → new_ingress config worker sha256 generation b ≡ ok i
    → Reach i j
    → IsSound j
Reach-IsSound maximum reserve_bytes config worker sha256 generation b budget made here =
    new_ingress-IsSound maximum reserve_bytes config worker sha256 generation b _ budget made
Reach-IsSound maximum reserve_bytes config worker sha256 generation b budget made (next r s) =
    Step-IsSound s
      (Reach-IsSound maximum reserve_bytes config worker sha256 generation b budget made r)

-- From a sound state, to drain a shard with a normalized name does not raise: it returns the first
-- result of the shard's queue, or nothing if the queue is empty.
pub drain_one-first :
    (shard s : String) (i : RawIngress)
    → nonempty shard ≡ ok s
    → IsSound i
    → (drain_one shard i).0 ≡ ok (first_of (queue_of s i))
unfolding drain_one
drain_one-first shard s i name v =
    simp (name, drain_one) (Drained-first (drain_shard-Drained s i v))
