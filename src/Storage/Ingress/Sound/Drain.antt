-- ===== src/Storage/Ingress/Sound/Drain.antt =====
-- `drain_one` of storage/ingress.py in a sound state.
use crytpo_data.Shared.{
  ℕ, ◌+◌, ◌-◌, ◌≤◌, ◌<◌, ◌≡◌, sym, subst, ap, ◌∙◌, inl, inr, false, Option, none, some, List, [],
  ◌∷◌, String, str_eq, ltb, length, Result, ok, lookup, insert, string_eq, pair_eq, nat_eq, arith,
  Bool-cases, Option-cases, List-cases,
}
use crytpo_data.Storage.Resident.{charge_of}
use crytpo_data.Storage.Record.{EnqueueResult}
use crytpo_data.Storage.Ingress.{RawIngress, or_no_queue, queue_of, or_no_bytes, bytes_of, first_of}
use crytpo_data.Storage.Ingress.Drain.{take_bytes, charge_of_result, account_drained, drain_shard}
use crytpo_data.Storage.Ingress.Views.{queue-insert, bytes-insert}
use crytpo_data.Storage.Ingress.Sound.{IsCharged, Charged, IsSound}

-- A shard with another queue and other bytes.
abbrev pub with_shard : String → List EnqueueResult → ℕ → RawIngress → RawIngress
with_shard s q n i = record i {
  queues = insert s q i.queues;
  queued_bytes = insert s n i.queued_bytes;
}

-- Either nothing is queued, or the head of the queue is taken with its charge.
pub data Drained (s : String) (i : RawIngress)
    : Result (Option EnqueueResult) × RawIngress → Type 0 where
  nothing : queue_of s i ≡ [] → Drained s i (ok none, i)
  head :
      (r : EnqueueResult) (rest : List EnqueueResult) (m l : ℕ)
      → queue_of s i ≡ r ∷ rest
      → bytes_of s i ≡ m + l
      → Charged i.resident_budget.charges rest l
      → Drained s i (ok (some r), with_shard s rest l i)

charge_of_result-charged :
    (i : RawIngress) (r : EnqueueResult) (m : ℕ)
    → IsCharged i.resident_budget.charges r m
    → charge_of_result r i.resident_budget ≡ ok m
unfolding charge_of_result charge_of
charge_of_result-charged i r m h =
    simp (h.has_record, h.has_identity, h.charged, charge_of_result, charge_of)

take_bytes-ok :
    (s : String) (m l : ℕ) (i : RawIngress) → bytes_of s i ≡ m + l → 0 < m → take_bytes s m i ≡ ok l
unfolding take_bytes
take_bytes-ok s m l i sum positive = elim (Option-cases (lookup s i.queued_bytes)) [
  | inl absent ↦ let zero_sum = sym (ap or_no_bytes absent) ∙ sum in ground (arith, zero_sum)
  | inr (n, found) ↦
      let n_sum : n ≡ m + l = sym (ap or_no_bytes found) ∙ sum in
      let enough : ltb n m ≡ false = ground arith in
      let left : n - m ≡ l = omega arith in rw (found, enough, take_bytes) (ap ok left)
]

drain_nonempty :
    (s : String) (i : RawIngress) (r : EnqueueResult) (rest : List EnqueueResult)
    → IsSound i
    → lookup s i.queues ≡ some (r ∷ rest)
    → Drained s i (drain_shard s i)
unfolding drain_shard account_drained
drain_nonempty s i r rest v found =
    let q : queue_of s i ≡ r ∷ rest = ap or_no_queue found in
    let (m, l, first, sum, others) =
      subst (λ q. Charged i.resident_budget.charges q (bytes_of s i)) q (v.charged s) in
    let charge = charge_of_result-charged i r m first in
    let bytes =
      take_bytes-ok s m l (record i { queues = insert s rest i.queues }) sum first.positive in
    simp (found, charge, bytes, drain_shard, account_drained) (head r rest m l q sum others)

pub drain_shard-Drained : (s : String) (i : RawIngress) → IsSound i → Drained s i (drain_shard s i)
unfolding drain_shard
drain_shard-Drained s i v = elim (Option-cases (lookup s i.queues)) [
  | inl absent ↦ simp (absent, drain_shard) (nothing (ap or_no_queue absent))
  | inr (q, found) ↦ elim (List-cases q) [
    | inl none_left ↦
        let found' = found ∙ ap some none_left in
        simp (found', drain_shard) (nothing (ap or_no_queue found'))
    | inr (r, rest, some_left) ↦ drain_nonempty s i r rest v (found ∙ ap some some_left)
  ]
]

-- The result of a drain is the head of the queue, if there is one, and the state stays sound.
pub Drained-first :
    {s : String} {i : RawIngress} {o : Result (Option EnqueueResult) × RawIngress}
    → Drained s i o
    → o.0 ≡ ok (first_of (queue_of s i))
Drained-first (nothing q) = ap (λ q. ok (first_of q)) (sym q)
Drained-first (head r rest m l q _ _) = ap (λ q. ok (first_of q)) (sym q)

pub Drained-IsSound :
    {s : String} {i : RawIngress} {o : Result (Option EnqueueResult) × RawIngress}
    → Drained s i o
    → IsSound i
    → IsSound o.1
Drained-IsSound (nothing q) v = v
Drained-IsSound {s} {i} (head r rest m l q sum others) v = record {
  balanced = v.balanced;
  charged = λ shard.
      subst (λ q. Charged i.resident_budget.charges q (bytes_of shard (with_shard s rest l i)))
        (sym (queue-insert shard s rest i.queues))
        (subst (Charged i.resident_budget.charges _) (sym (bytes-insert shard s l i.queued_bytes))
          (elim (Bool-cases (str_eq shard s)) [
            | inl same ↦ rw same others
            | inr other ↦ rw other (v.charged shard)
          ]));
  short = λ shard.
      subst (λ q. length q ≤ i.config.shard_max_records) (sym (queue-insert shard s rest i.queues))
        (elim (Bool-cases (str_eq shard s)) [
          | inl same ↦ rw same (omega (arith, v.short s, ap length q))
          | inr other ↦ rw other (v.short shard)
        ]);
  light = λ shard.
      subst (λ n. n ≤ i.config.shard_max_bytes) (sym (bytes-insert shard s l i.queued_bytes))
        (elim (Bool-cases (str_eq shard s)) [
          | inl same ↦ rw same (omega (arith, v.light s, sum))
          | inr other ↦ rw other (v.light shard)
        ]);
  numbered = v.numbered;
}
