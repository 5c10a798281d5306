-- ===== src/Storage/Ingress/Outcome.antt =====
-- The outcomes of `try_accept` in storage/ingress.py.
use crytpo_data.Shared.{
  ◌+◌, ◌≤◌, ◌<◌, ◌≡◌, sym, subst, ap, inl, inr, true, false, [], ◌∷◌, ◌++◌, leb, length, Result,
  Error, ok, err, insert, string_eq, pair_eq, nat_eq, arith, Bool-cases, Result-cases,
}
use crytpo_data.Storage.Resident.{
  ResidentCharge, ResidentBudget, count_in, check_reserve, fits, reserve,
}
use crytpo_data.Storage.Resident.Calls.{release-reserve}
use crytpo_data.Storage.Record.{EnqueueResult, check_result}
use crytpo_data.Storage.Ingress.{RawIngress, queue_of, bytes_of, charge_key}
use crytpo_data.Storage.Ingress.Accept.{
  Candidate, overflow_result, put_nowait, entered, status_at, result_of, rollback, enqueue_reserved,
  reserve_and_enqueue, shard_is_full, make_entry,
}

-- The ingress with another budget.
abbrev pub with_budget : ResidentBudget → RawIngress → RawIngress
with_budget b i = record i { resident_budget = b }

abbrev pub Reserves : Candidate → RawIngress → ResidentBudget → Type 0
Reserves c i b =
    reserve (charge_key c.identity) c.capacity_class c.charge_bytes i.resident_budget ≡ (ok tt, b)

abbrev pub entry_at : Candidate → RawIngress → ResidentBudget → Result EnqueueResult × RawIngress
entry_at c i b =
    let i' = with_budget b i in
    let r = result_of c (status_at i') in
    (ok r, entered c (status_at i') (queue_of c.shard i ++ r ∷ []) i')

-- What can come of a candidate: an error that leaves the ingress as it was, an overflow that is
-- counted, or an entry at the end of its shard's queue, where there was room.
pub data Outcome (c : Candidate) (i : RawIngress) : Result EnqueueResult × RawIngress → Type 0 where
  raised : (e : Error) → Outcome c i (err e, i)
  full : Outcome c i (overflow_result c.capacity_class i)
  entry :
      (b : ResidentBudget)
      → Reserves c i b
      → length (queue_of c.shard i) < i.config.shard_max_records
      → bytes_of c.shard i + c.charge_bytes ≤ i.config.shard_max_bytes
      → Outcome c i (entry_at c i b)

rollback-back :
    (c : Candidate) (i : RawIngress) (b : ResidentBudget)
    → Reserves c i b
    → rollback c (with_budget b i) ≡ i
unfolding rollback
rollback-back c i b h =
    ap (λ (p : Result (Unit {0}) × ResidentBudget). with_budget p.1 i)
      (release-reserve (charge_key c.identity) c.capacity_class c.charge_bytes i.resident_budget b
        h)

enqueue-Outcome :
    (c : Candidate) (i : RawIngress) (b : ResidentBudget)
    → Reserves c i b
    → length (queue_of c.shard i) < i.config.shard_max_records
    → bytes_of c.shard i + c.charge_bytes ≤ i.config.shard_max_bytes
    → Outcome c i (enqueue_reserved c (with_budget b i))
unfolding enqueue_reserved put_nowait
enqueue-Outcome c i b h short light =
    let i' = with_budget b i in
    let r = result_of c (status_at i') in
    let not_full : leb i.config.shard_max_records (length (queue_of c.shard i)) ≡ false =
      ground arith in
    elim (Result-cases (check_result r)) [
      | inl (e, bad) ↦
          simp (bad, enqueue_reserved)
            (subst (λ j. Outcome c i (err e, j)) (sym (rollback-back c i b h)) (raised e))
      | inr (_, good) ↦ simp (good, not_full, enqueue_reserved, put_nowait) (entry b h short light)
    ]

reserve-Outcome :
    (c : Candidate) (i : RawIngress)
    → length (queue_of c.shard i) < i.config.shard_max_records
    → bytes_of c.shard i + c.charge_bytes ≤ i.config.shard_max_bytes
    → Outcome c i (reserve_and_enqueue c i)
unfolding reserve_and_enqueue reserve
reserve-Outcome c i short light =
    elim (Result-cases
      (check_reserve (charge_key c.identity) c.capacity_class c.charge_bytes i.resident_budget)) [
        | inl (e, bad) ↦ simp (bad, reserve_and_enqueue, reserve) (raised e)
        | inr (charge, good) ↦
            let entry' : ResidentCharge = record {
              capacity_class = c.capacity_class;
              charge_bytes = charge;
            } in
            let b = count_in c.capacity_class charge (record i.resident_budget {
              charges = insert (charge_key c.identity) entry' i.resident_budget.charges;
            }) in
            let h : Reserves c i b = rw (good, reserve) in
            simp (h, reserve_and_enqueue) (enqueue-Outcome c i b h short light)
      ]

pub make_entry-Outcome : (c : Candidate) (i : RawIngress) → Outcome c i (make_entry c i)
unfolding make_entry
make_entry-Outcome c i = elim (Bool-cases (shard_is_full c i)) [
  | inl is_full ↦ simp (is_full, make_entry) full
  | inr room ↦
      let short : length (queue_of c.shard i) < i.config.shard_max_records = ground arith in
      let light : bytes_of c.shard i + c.charge_bytes ≤ i.config.shard_max_bytes = ground arith in
      elim (Result-cases (fits c.capacity_class c.charge_bytes i.resident_budget)) [
        | inl (e, bad) ↦ simp (room, bad, make_entry) (raised e)
        | inr (false, tight) ↦ simp (room, tight, make_entry) full
        | inr (true, fit) ↦ simp (room, fit, make_entry) (reserve-Outcome c i short light)
      ]
]
