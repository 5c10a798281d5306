-- ===== src/Storage/Ingress/Order/Fifo.antt =====
-- Each shard of `RawIngress` in storage/ingress.py is a queue: first in, first out, and nothing lost.
use crytpo_data.Shared.{
  ℕ, ◌≡◌, refl, sym, subst, ap, ◌∙◌, inl, inr, true, false, not, Option, List, [], ◌∷◌, ◌++◌,
  String, str_eq, if◌then◌else◌, leb, any, Result, ok, raise_if, value_error, contract_error, Dict,
  lookup, string_eq, arith, append-nil, append_assoc, Bool-cases, Result-cases, ok-injective,
  >>=-eq-ok, >>-eq-ok,
}
use crytpo_data.Storage.Resident.{integer, normal, control}
use crytpo_data.Storage.Record.{EnqueueResult}
use crytpo_data.Storage.Ingress.{
  RawIngress, nonempty, or_no_queue, queue_of, is_empty_queue, checked_sha256, new_ingress,
}
use crytpo_data.Storage.Ingress.Accept.{overflow_result, overflowed}
use crytpo_data.Storage.Ingress.Drain.{drain_one, drain_shard, take_control_association}
use crytpo_data.Storage.Ingress.Replace.{
  is_busy, handed_on, make_replacement, replacement_for_config,
}
use crytpo_data.Storage.Ingress.Outcome.{entry_at}
use crytpo_data.Storage.Ingress.Views.{entry_result, entry-queue, queue-insert}
use crytpo_data.Storage.Ingress.Order.{
  Event, put, got, accept_events, drain_events, events, log, puts, gots,
}
use crytpo_data.Storage.Ingress.Order.Tried.{
  Tried, untouched, refused, taken, try_accept-Tried, taken_events,
}
use crytpo_data.Storage.Ingress.Sound.{IsSound}
use crytpo_data.Storage.Ingress.Sound.Drain.{Drained, nothing, head, drain_shard-Drained}
use crytpo_data.Storage.Ingress.Sound.Calls.{
  Step, accepting, draining, taking, releasing, superseding, replacing, Reach, here, next,
  Reach-IsSound_from, new_ingress-fresh_ingress,
}
use crytpo_data.Storage.Ingress.Sound.Accept.{nonempty-same}

-- What was queued and what came in is what was taken and what is queued.
abbrev Flows : String → RawIngress → List Event → RawIngress → Type 0
Flows shard i es j = queue_of shard i ++ puts shard es ≡ gots shard es ++ queue_of shard j

same-Flows :
    (shard : String) (i j : RawIngress) → queue_of shard j ≡ queue_of shard i → Flows shard i [] j
same-Flows shard i j same = append-nil (queue_of shard i) ∙ sym same

-- A result at the end of one shard's queue.
end-Flows :
    (s t : String) (i : RawIngress) (r : EnqueueResult) (shard : String)
    → t ≡ s
    → (if str_eq shard t then queue_of t i ++ r ∷ [] else queue_of shard i)
      ≡ queue_of shard i ++ puts shard (put s r ∷ [])
end-Flows s t i r shard same =
    subst
      (λ t.
        (if str_eq shard t then queue_of t i ++ r ∷ [] else queue_of shard i)
        ≡ queue_of shard i ++ puts shard (put s r ∷ []))
      (sym same)
      (elim (Bool-cases (str_eq shard s)) [
        | inl here_put ↦
            rw here_put
              (ap (λ t. queue_of t i ++ r ∷ []) (sym ((string_eq.beq_iff shard s).0 here_put)))
        | inr other ↦ rw other (sym (append-nil (queue_of shard i)))
      ])

-- A result at the head of one shard's queue.
head-Flows :
    (s : String) (i : RawIngress) (r : EnqueueResult) (rest : List EnqueueResult) (shard : String)
    → queue_of s i ≡ r ∷ rest
    → queue_of shard i
      ≡ gots shard (got s r ∷ []) ++ (if str_eq shard s then rest else queue_of shard i)
head-Flows s i r rest shard q = elim (Bool-cases (str_eq shard s)) [
  | inl here_got ↦ rw here_got (ap (λ t. queue_of t i) ((string_eq.beq_iff shard s).0 here_got) ∙ q)
  | inr other ↦ rw other
]

Tried-Flows :
    {s : String} {i : RawIngress} {o : Result EnqueueResult × RawIngress} (shard : String)
    → Tried s i o
    → Flows shard i (accept_events s o.0) o.1
unfolding overflowed
Tried-Flows {s} {i} shard (untouched r quiet) =
    subst (λ es. Flows shard i es i) (sym quiet) (same-Flows shard i i refl)
Tried-Flows {s} {i} shard (refused normal) = same-Flows shard i (overflow_result normal i).1 refl
Tried-Flows {s} {i} shard (refused control) = same-Flows shard i (overflow_result control i).1 refl
Tried-Flows {s} {i} shard (taken c b same _ _) =
    subst (λ es. Flows shard i es (entry_at c i b).1) (sym (taken_events s c i b))
      (sym (entry-queue c i b shard ∙ end-Flows s c.shard i (entry_result c i b) shard same))

Drained-Flows :
    {s : String} {i : RawIngress} {o : Result (Option EnqueueResult) × RawIngress} (shard : String)
    → Drained s i o
    → Flows shard i (drain_events s o.0) o.1
Drained-Flows {s} {i} shard (nothing _) = same-Flows shard i i refl
Drained-Flows {s} {i} shard (head r rest m l q _ _) =
    append-nil (queue_of shard i)
    ∙ (head-Flows s i r rest shard q
        ∙ ap (λ q. gots shard (got s r ∷ []) ++ q) (sym (queue-insert shard s rest i.queues)))

drain_one-Flows :
    (s : String) (i : RawIngress) (shard : String)
    → IsSound i
    → Flows shard i (drain_events s (drain_one s i).0) (drain_one s i).1
unfolding drain_one
drain_one-Flows s i shard v = elim (Result-cases (nonempty s)) [
  | inl (e, bad) ↦ simp (bad, drain_one) (same-Flows shard i i refl)
  | inr (t, good) ↦
      let named = nonempty-same s t good in
      simp (good, drain_one)
        (subst (λ u. Flows shard i (drain_events u (drain_shard t i).0) (drain_shard t i).1) named
          (Drained-Flows shard (drain_shard-Drained t i v)))
]

-- A quiet ingress has empty queues.
no_queues :
    (shard : String) (d : Dict String (List EnqueueResult))
    → any (λ (_, q). not (is_empty_queue q)) d ≡ false
    → or_no_queue (lookup shard d) ≡ []
no_queues shard [] h = refl
no_queues shard ((s, []) ∷ d) h = elim (Bool-cases (str_eq shard s)) [
  | inl same ↦ rw same
  | inr other ↦ rw other (no_queues shard d h)
]
no_queues shard ((s, r ∷ q) ∷ d) h = cc

replaced-Flows :
    (sha256 : String) (generation : ℕ) (i new : RawIngress) (shard : String)
    → make_replacement sha256 generation i ≡ ok new
    → Flows shard i [] new
unfolding make_replacement handed_on is_busy
replaced-Flows sha256 generation i new shard h =
    let (s, _, h1) = >>=-eq-ok (checked_sha256 sha256) _ h in
    let (g, _, h2) = >>=-eq-ok (integer generation) _ h1 in
    let (_, h3) = >>-eq-ok (raise_if (leb g i.config_generation) value_error) _ h2 in
    let (_, h4) = >>-eq-ok (raise_if i.superseded contract_error) _ h3 in
    let (quiet, h5) = >>-eq-ok (raise_if (is_busy i) contract_error) _ h4 in
    let (j, made, h6) =
      >>=-eq-ok (new_ingress i.config i.worker_instance_id s g i.resident_budget) _ h5 in
    let (w, t, k, e) =
      new_ingress-fresh_ingress i.config i.worker_instance_id s g i.resident_budget j made in
    let idle : any (λ (_, q). not (is_empty_queue q)) i.queues ≡ false = ground (arith, quiet) in
    same-Flows shard i new (
      ap (queue_of shard) (sym (ok-injective h6) ∙ ap (handed_on i) e)
      ∙ sym (no_queues shard i.queues idle))

replacement-Flows :
    (sha256 : String) (generation : ℕ) (i new : RawIngress) (shard : String)
    → (replacement_for_config sha256 generation i).0 ≡ ok new
    → Flows shard i [] new
unfolding replacement_for_config
replacement-Flows sha256 generation i new shard h =
    elim (Result-cases (make_replacement sha256 generation i)) [
      | inl (e, bad) ↦ cc (rw (bad, replacement_for_config) at h)
      | inr (made, good) ↦
          replaced-Flows sha256 generation i new shard
            (good ∙ (rw (good, replacement_for_config) at h))
    ]

superseded-Flows :
    (sha256 : String) (generation : ℕ) (i : RawIngress) (shard : String)
    → Flows shard i [] (replacement_for_config sha256 generation i).1
unfolding replacement_for_config
superseded-Flows sha256 generation i shard =
    elim (Result-cases (make_replacement sha256 generation i)) [
      | inl (e, bad) ↦ simp (bad, replacement_for_config) (same-Flows shard i i refl)
      | inr (new, good) ↦
          simp (good, replacement_for_config)
            (same-Flows shard i (record i { superseded = true }) refl)
    ]

Step-Flows :
    {i j : RawIngress} (shard : String) (s : Step i j) → IsSound i → Flows shard i (events s) j
unfolding take_control_association
Step-Flows shard (accepting out d source s time_ns monotonic_ns i) v =
    Tried-Flows shard (try_accept-Tried out d source s time_ns monotonic_ns i)
Step-Flows shard (draining s i) v = drain_one-Flows s i shard v
Step-Flows shard (taking a i) v = append-nil (queue_of shard i)
Step-Flows shard (releasing key i others) v = append-nil (queue_of shard i)
Step-Flows shard (superseding sha256 generation i) v = superseded-Flows sha256 generation i shard
Step-Flows shard (replacing sha256 generation i new h) v =
    replacement-Flows sha256 generation i new shard h

puts-append :
    (shard : String) (es fs : List Event) → puts shard (es ++ fs) ≡ puts shard es ++ puts shard fs
puts-append shard [] fs = refl
puts-append shard (put s r ∷ es) fs = ground (arith, puts-append shard es fs)
puts-append shard (got s r ∷ es) fs = puts-append shard es fs

gots-append :
    (shard : String) (es fs : List Event) → gots shard (es ++ fs) ≡ gots shard es ++ gots shard fs
gots-append shard [] fs = refl
gots-append shard (put s r ∷ es) fs = gots-append shard es fs
gots-append shard (got s r ∷ es) fs = ground (arith, gots-append shard es fs)

-- From a sound state, over any calls: what a shard's queue held and then got, in this order, is what
-- was taken from it and what it holds. So a shard hands on its records in the order of their
-- acceptance, each once, replacements of the ingress included.
pub Reach-fifo :
    {i j : RawIngress} (shard : String)
    → IsSound i
    → (r : Reach i j)
    → queue_of shard i ++ puts shard (log r) ≡ gots shard (log r) ++ queue_of shard j
Reach-fifo {i} shard v here = append-nil (queue_of shard i)
Reach-fifo {i} {j} shard v (next {j = m} r s) =
    let before = Reach-fifo shard v r in
    let after = Step-Flows shard s (Reach-IsSound_from v r) in
    cc (
      before,
      after,
      puts-append shard (log r) (events s),
      gots-append shard (log r) (events s),
      append_assoc (queue_of shard i) (puts shard (log r)) (puts shard (events s)),
      append_assoc (gots shard (log r)) (queue_of shard m) (puts shard (events s)),
      append_assoc (gots shard (log r)) (gots shard (events s)) (queue_of shard j),
    )
