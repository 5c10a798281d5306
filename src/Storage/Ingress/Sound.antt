-- ===== src/Storage/Ingress/Sound.antt =====
-- When the state of a `RawIngress` of storage/ingress.py is sound, and what an entry does to that.
pub mod Accept
pub mod Drain
pub mod Release
pub mod Calls
use crytpo_data.Shared.{
  ℕ, ◌+◌, ◌≤◌, ◌<◌, ◌≡◌, ◌≢◌, refl, sym, subst, ap, ◌∙◌, inl, inr, Bool, true, false, Option, none,
  some, List, [], ◌∷◌, ◌++◌, String, str_eq, if◌then◌else◌, length, length-append, All, Result, ok,
  err, Dict, lookup, insert, erase, Eq, string_eq, pair_eq, nat_eq, arith, Bool-cases, Option-cases,
  Result-cases, lookup-insert, lookup-insert_self, lookup-insert_ne, lookup-erase_ne,
}
use crytpo_data.Storage.Resident.{
  CapacityClass, ResidentCharge, ChargeKey, ResidentBudget, check_reserve, count_in, reserve,
  normal, control,
}
use crytpo_data.Storage.Resident.Balance.{IsBalanced, check_reserve-ok, reserve-IsBalanced}
use crytpo_data.Storage.Record.{
  AcceptedRecord, AcceptedRecordIdentity, EnqueueResult, EnqueueStatus,
}
use crytpo_data.Storage.Ingress.{RawIngress, queue_of, bytes_of, charge_key}
use crytpo_data.Storage.Ingress.Accept.{Candidate, entered, status_at, result_of}
use crytpo_data.Storage.Ingress.Views.{entry_result, entry-queue, entry-bytes}
use crytpo_data.Storage.Ingress.Outcome.{with_budget, Reserves, entry_at}

abbrev pub Charges : Type 0
Charges = Dict ChargeKey ResidentCharge

-- A queued result has a record and an identity, and the budget holds its charge.
pub record IsCharged (d : Charges) (r : EnqueueResult) (n : ℕ) : Type 0 where
  pub accepted_record : AcceptedRecord
  pub identity : AcceptedRecordIdentity
  pub class : CapacityClass
  pub has_record : r.record_of ≡ some accepted_record
  pub has_identity : r.record_identity ≡ some identity
  pub charged :
      lookup (charge_key identity) d ≡ some (record { capacity_class = class; charge_bytes = n })
  pub positive : 0 < n

-- The results of a queue are charged, and the number is the sum of the charges.
abbrev pub Charged : Charges → List EnqueueResult → ℕ → Type 0
Charged d [] n = n ≡ 0
Charged d (r ∷ q) n = (m : ℕ) × (l : ℕ) × IsCharged d r m × (n ≡ m + l) × Charged d q l

pub record IsSound (i : RawIngress) : Type 0 where
  pub balanced : IsBalanced i.resident_budget
  pub charged :
      (shard : String) → Charged i.resident_budget.charges (queue_of shard i) (bytes_of shard i)
  pub short : (shard : String) → length (queue_of shard i) ≤ i.config.shard_max_records
  pub light : (shard : String) → bytes_of shard i ≤ i.config.shard_max_bytes
  pub numbered :
      (key : ChargeKey) (c : ResidentCharge)
      → lookup key i.resident_budget.charges ≡ some c
      → key.1 < i.next_acceptance_ordinal

Charged-append :
    (d : Charges) (q : List EnqueueResult) (n : ℕ) (r : EnqueueResult) (m : ℕ)
    → Charged d q n
    → IsCharged d r m
    → Charged d (q ++ r ∷ []) (n + m)
Charged-append d [] n r m h new = (m, 0, new, omega (arith, h), refl)
Charged-append d (s ∷ q) n r m (k, l, first, sum, rest) new =
    (k, l + m, first, omega (arith, sum), Charged-append d q l r m rest new)

keep-IsCharged :
    {d d' : Charges} {r : EnqueueResult} {n : ℕ} (h : IsCharged d r n)
    → lookup (charge_key h.identity) d' ≡ lookup (charge_key h.identity) d
    → IsCharged d' r n
keep-IsCharged h same = record {
  accepted_record = h.accepted_record;
  identity = h.identity;
  class = h.class;
  has_record = h.has_record;
  has_identity = h.has_identity;
  charged = same ∙ h.charged;
  positive = h.positive;
}

-- A charge that is new takes no other away.
Charged-insert :
    (d : Charges) (key : ChargeKey) (c : ResidentCharge) (q : List EnqueueResult) (n : ℕ)
    → lookup key d ≡ none
    → Charged d q n
    → Charged (insert key c d) q n
Charged-insert d key c [] n new h = h
Charged-insert d key c (r ∷ q) n new (m, l, first, sum, rest) =
    let other : charge_key first.identity ≢ key =
      λ same. cc (first.charged, new, ap (λ k. lookup k d) same) in
    (
      m,
      l,
      keep-IsCharged first (lookup-insert_ne (charge_key first.identity) key c d other),
      sum,
      Charged-insert d key c q l new rest,
    )

-- No result of a queue has the key.
abbrev pub Unnamed : ChargeKey → EnqueueResult → Type 0
Unnamed key r = (a : AcceptedRecordIdentity) → r.record_identity ≡ some a → charge_key a ≢ key

pub Charged-erase :
    (d : Charges) (key : ChargeKey) (q : List EnqueueResult) (n : ℕ)
    → All (Unnamed key) q
    → Charged d q n
    → Charged (erase key d) q n
Charged-erase d key [] n others h = h
Charged-erase d key (r ∷ q) n (other, others) (m, l, first, sum, rest) = (
  m,
  l,
  keep-IsCharged first
      (lookup-erase_ne (charge_key first.identity) key d (other first.identity first.has_identity)),
  sum,
  Charged-erase d key q l others rest,
)

count_in-charges :
    (class : CapacityClass) (n : ℕ) (b : ResidentBudget) → (count_in class n b).charges ≡ b.charges
unfolding count_in
count_in-charges normal n b = refl
count_in-charges control n b = refl

-- What a reservation that was granted did.
pub Reserves-charges :
    (key : ChargeKey) (class : CapacityClass) (n : ℕ) (b b' : ResidentBudget)
    → reserve key class n b ≡ (ok tt, b')
    → (lookup key b.charges ≡ none)
      × (0 < n)
      × (b'.charges ≡ insert key (record { capacity_class = class; charge_bytes = n }) b.charges)
unfolding reserve count_in
Reserves-charges key class n b b' h = elim (Result-cases (check_reserve key class n b)) [
  | inl (e, bad) ↦ cc (rw (bad, reserve) at h)
  | inr (charge, good) ↦
      let (new, same, _, positive) = check_reserve-ok key b class n charge good in
      let put =
        ap (λ (p : Result (Unit {0}) × ResidentBudget). p.1.charges) (rw (good, reserve) at h) in
      let counted = count_in-charges class charge (record b {
        charges = insert key (record { capacity_class = class; charge_bytes = charge }) b.charges;
      }) in
      (
        new,
        positive,
        (sym put ∙ counted)
            ∙ ap (λ m. insert key (record { capacity_class = class; charge_bytes = m }) b.charges)
                same,
      )
]

-- An entry of a candidate with the next ordinal keeps the state sound.
module _ (c : Candidate) (i : RawIngress) (b : ResidentBudget) (v : IsSound i) (h : Reserves c i b)
    (next : c.identity.acceptance_ordinal ≡ i.next_acceptance_ordinal) where
  entry_charge : ResidentCharge
  entry_charge = record { capacity_class = c.capacity_class; charge_bytes = c.charge_bytes }

  abbrev entry_facts :
      (lookup (charge_key c.identity) i.resident_budget.charges ≡ none)
      × (0 < c.charge_bytes)
      × (b.charges
          ≡ insert
              (charge_key c.identity)
              (record { capacity_class = c.capacity_class; charge_bytes = c.charge_bytes })
              i.resident_budget.charges)
  entry_facts =
      Reserves-charges (charge_key c.identity) c.capacity_class c.charge_bytes i.resident_budget b h

  kept-Charged : (shard : String) → Charged b.charges (queue_of shard i) (bytes_of shard i)
  kept-Charged shard =
      let (new, _, put) = entry_facts in
      subst (λ d. Charged d (queue_of shard i) (bytes_of shard i)) (sym put)
        (Charged-insert i.resident_budget.charges (charge_key c.identity) _ (queue_of shard i)
          (bytes_of shard i) new (v.charged shard))

  entry-IsCharged : IsCharged b.charges (entry_result c i b) c.charge_bytes
  entry-IsCharged =
      let (_, positive, put) = entry_facts in
      record {
        accepted_record = c.accepted_record;
        identity = c.identity;
        class = c.capacity_class;
        has_record = refl;
        has_identity = refl;
        charged =
            ap (lookup (charge_key c.identity)) put
            ∙ lookup-insert_self (charge_key c.identity) _ i.resident_budget.charges;
        positive = positive;
      }

  entry-Charged :
      (shard : String)
      → Charged b.charges (queue_of shard (entry_at c i b).1) (bytes_of shard (entry_at c i b).1)
  entry-Charged shard =
      subst (λ q. Charged b.charges q (bytes_of shard (entry_at c i b).1))
        (sym (entry-queue c i b shard))
        (subst (Charged b.charges _) (sym (entry-bytes c i b shard))
          (elim (Bool-cases (str_eq shard c.shard)) [
            | inl same ↦ rw same (
                Charged-append b.charges (queue_of c.shard i) (bytes_of c.shard i) _ _
                  (kept-Charged c.shard) entry-IsCharged)
            | inr other ↦ rw other (kept-Charged shard)
          ]))

  entry-numbered :
      (key : ChargeKey) (k : ResidentCharge)
      → lookup key b.charges ≡ some k
      → key.1 < i.next_acceptance_ordinal + 1
  entry-numbered key k found =
      let (_, _, put) = entry_facts in
      let here = charge_key c.identity in
      let found' =
        sym (lookup-insert key here _ i.resident_budget.charges)
        ∙ (sym (ap (lookup key) put) ∙ found) in
      elim (Bool-cases (pair_eq.beq key here)) [
        | inl same ↦
            let e = ap (λ (k : ChargeKey). k.1) ((pair_eq.beq_iff key here).0 same) in
            omega (arith, e, next)
        | inr other ↦ omega (arith, v.numbered key k (rw other at found'))
      ]

  pub entry-IsSound :
      length (queue_of c.shard i) < i.config.shard_max_records
      → bytes_of c.shard i + c.charge_bytes ≤ i.config.shard_max_bytes
      → IsSound (entry_at c i b).1
  unfolding entered
  entry-IsSound room small = record {
    balanced = subst IsBalanced (ap (λ (p : Result (Unit {0}) × ResidentBudget). p.1) h) (
        reserve-IsBalanced (charge_key c.identity) c.capacity_class c.charge_bytes i.resident_budget
          v.balanced);
    charged = entry-Charged;
    short = λ shard.
        subst (λ q. length q ≤ i.config.shard_max_records) (sym (entry-queue c i b shard))
          (elim (Bool-cases (str_eq shard c.shard)) [
            | inl same ↦
                rw same (
                  omega (arith, room, length-append (queue_of c.shard i) (entry_result c i b ∷ [])))
            | inr other ↦ rw other (v.short shard)
          ]);
    light = λ shard.
        subst (λ n. n ≤ i.config.shard_max_bytes) (sym (entry-bytes c i b shard))
          (elim (Bool-cases (str_eq shard c.shard)) [
            | inl same ↦ rw same small
            | inr other ↦ rw other (v.light shard)
          ]);
    numbered = entry-numbered;
  }
