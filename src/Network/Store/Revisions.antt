-- ===== src/Network/Store/Revisions.antt =====
-- The revisions of the quota states of network/state_store.py, and the probes that they make stale.
use crytpo_data.Shared.{
  ℕ, ◌≤◌, ◌<◌, ◌≡◌, refl, sym, subst, inl, inr, Option, none, some, List, String, lookup, insert,
  nat_eq, string_eq, pair_eq, ◌>>◌, raise_if, str_eq, value_error, arith, Bool-cases, Option-cases,
  Result-cases, lookup-insert,
}
use crytpo_data.Shared.Decimal.{Decimal}
use crytpo_data.Network.Bucket.{DecimalInput}
use crytpo_data.Network.Egress.{Egress}
use crytpo_data.Network.Health.{
  EgressHealthKey, quota, transport, ProbeAdmission, admission_key, QuotaState,
}
use crytpo_data.Network.Store.{
  EgressStateStore, check_key, awaits_quota_probe, Column, ban_until_ns, cooldown_until_ns,
  restricted, record_quota_restriction, check_probe, recovered_quota, update_quota,
  record_quota_probe_success, multiplied, checked_rate, awaits_transport_probe, set_rate_multiplier,
  record_transport_failure, update_egress, record_transport_probe_success, close_store,
}
use crytpo_data.Network.Store.Admission.{admit_health, collect_checked, admitted_health}

-- The revision of a row; a row that is not there has revision 0.
abbrev pub row_revision : Option QuotaState → ℕ
row_revision none = 0
row_revision (some q) = q.restriction_revision

abbrev pub revision : EgressHealthKey → EgressStateStore → ℕ
revision key s = row_revision (lookup key s.quota_state)

-- The calls of a store.
pub data Step : EgressStateStore → EgressStateStore → Type 0 where
  restriction :
      (key : EgressHealthKey) (column : Column) (t : ℕ) (reason : String) (s : EgressStateStore)
      → Step s (record_quota_restriction key column t reason s).1
  quota_probed :
      (a : ProbeAdmission) (observed : ℕ) (s : EgressStateStore)
      → Step s (record_quota_probe_success a observed s).1
  rate :
      (key : EgressHealthKey) (m : DecimalInput) (s : EgressStateStore)
      → Step s (set_rate_multiplier key m s).1
  failure :
      (key : EgressHealthKey) (reason : String) (t : ℕ) (s : EgressStateStore)
      → Step s (record_transport_failure key reason t s).1
  transport_probed :
      (a : ProbeAdmission) (observed unix_ns latency : ℕ) (s : EgressStateStore)
      → Step s (record_transport_probe_success a observed unix_ns latency s).1
  admission :
      (exchange : String) (egresses : List Egress) (unix_ns monotonic_ns : ℕ) (s : EgressStateStore)
      → Step s (admit_health exchange egresses unix_ns monotonic_ns s).1
  closing : (s : EgressStateStore) → Step s (close_store s)

pub data Reach (s : EgressStateStore) : EgressStateStore → Type 0 where
  here : Reach s s
  next : {t u : EgressStateStore} → Reach s t → Step t u → Reach s u

-- No revision goes back.
abbrev pub Ascends : EgressStateStore → EgressStateStore → Type 0
Ascends s t = (key : EgressHealthKey) → revision key s ≤ revision key t

same-Ascends : (s t : EgressStateStore) → t.quota_state ≡ s.quota_state → Ascends s t
same-Ascends s t same key = rw same (omega arith)

insert-Ascends :
    (s : EgressStateStore) (k : EgressHealthKey) (q : QuotaState)
    → revision k s ≤ q.restriction_revision
    → Ascends s (record s { quota_state = insert k q s.quota_state })
insert-Ascends s k q up key =
    subst (λ o. revision key s ≤ row_revision o) (sym (lookup-insert key k q s.quota_state))
      (elim (Bool-cases (pair_eq.beq key k)) [
        | inl same ↦
            let e : key ≡ k = (pair_eq.beq_iff key k).0 same in
            rw same (subst (λ j. revision j s ≤ q.restriction_revision) (sym e) up)
        | inr other ↦ rw other (omega arith)
      ])

pub restricted-lt :
    (column : Column) (t : ℕ) (reason : String) (o : Option QuotaState)
    → row_revision o < (restricted column t reason o).restriction_revision
unfolding restricted
restricted-lt ban_until_ns t reason none = omega arith
restricted-lt cooldown_until_ns t reason none = omega arith
restricted-lt ban_until_ns t reason (some q) = omega arith
restricted-lt cooldown_until_ns t reason (some q) = omega arith

multiplied-le :
    (m : Decimal) (o : Option QuotaState) → row_revision o ≤ (multiplied m o).restriction_revision
unfolding multiplied
multiplied-le m none = omega arith
multiplied-le m (some q) = omega arith

restriction-Ascends :
    (key : EgressHealthKey) (column : Column) (t : ℕ) (reason : String) (s : EgressStateStore)
    → Ascends s (record_quota_restriction key column t reason s).1
unfolding record_quota_restriction
restriction-Ascends key column t reason s =
    elim (Result-cases (check_key key >> raise_if (str_eq reason "") value_error)) [
      | inl (e, bad) ↦ rw (bad, record_quota_restriction) (same-Ascends s s refl)
      | inr (_, good) ↦
          rw (good, record_quota_restriction)
            (insert-Ascends s key _
              (omega (arith, restricted-lt column t reason (lookup key s.quota_state))))
    ]

update_quota-Ascends : (a : ProbeAdmission) (s : EgressStateStore) → Ascends s (update_quota a s).1
unfolding update_quota
update_quota-Ascends a s = elim (Option-cases (lookup (admission_key a) s.quota_state)) [
  | inl absent ↦ rw (absent, update_quota) (same-Ascends s s refl)
  | inr (q, found) ↦ elim (Bool-cases (awaits_quota_probe a.claims.restriction_revision q)) [
    | inl waits ↦
        rw (found, waits, update_quota)
          (insert-Ascends s (admission_key a) (recovered_quota q) (rw found (omega arith)))
    | inr not_so ↦ rw (found, not_so, update_quota) (same-Ascends s s refl)
  ]
]

quota_probed-Ascends :
    (a : ProbeAdmission) (observed : ℕ) (s : EgressStateStore)
    → Ascends s (record_quota_probe_success a observed s).1
unfolding record_quota_probe_success
quota_probed-Ascends a observed s = elim (Result-cases (check_probe quota a observed s)) [
  | inl (e, bad) ↦ rw (bad, record_quota_probe_success) (same-Ascends s s refl)
  | inr (_, good) ↦ rw (good, record_quota_probe_success) (update_quota-Ascends a s)
]

set_rate_multiplier-Ascends :
    (key : EgressHealthKey) (m : DecimalInput) (s : EgressStateStore)
    → Ascends s (set_rate_multiplier key m s).1
unfolding set_rate_multiplier
set_rate_multiplier-Ascends key m s = elim (Result-cases (checked_rate key m)) [
  | inl (e, bad) ↦ rw (bad, set_rate_multiplier) (same-Ascends s s refl)
  | inr (d, good) ↦
      rw (good, set_rate_multiplier)
        (insert-Ascends s key _ (multiplied-le d (lookup key s.quota_state)))
]

record_transport_failure-same :
    (key : EgressHealthKey) (reason : String) (t : ℕ) (s : EgressStateStore)
    → (record_transport_failure key reason t s).1.quota_state ≡ s.quota_state
unfolding record_transport_failure
record_transport_failure-same key reason t s =
    elim (Result-cases (check_key key >> raise_if (str_eq reason "") value_error)) [
      | inl (e, bad) ↦ rw (bad, record_transport_failure)
      | inr (_, good) ↦ rw (good, record_transport_failure)
    ]

update_egress-same :
    (a : ProbeAdmission) (unix_ns latency : ℕ) (s : EgressStateStore)
    → (update_egress a unix_ns latency s).1.quota_state ≡ s.quota_state
unfolding update_egress
update_egress-same a unix_ns latency s =
    elim (Option-cases (lookup (admission_key a) s.egress_state)) [
      | inl absent ↦ rw (absent, update_egress)
      | inr (h, found) ↦
          elim (Bool-cases (awaits_transport_probe a.claims.restriction_revision h)) [
            | inl waits ↦ rw (found, waits, update_egress)
            | inr not_so ↦ rw (found, not_so, update_egress)
          ]
    ]

transport_probed-same :
    (a : ProbeAdmission) (observed unix_ns latency : ℕ) (s : EgressStateStore)
    → (record_transport_probe_success a observed unix_ns latency s).1.quota_state ≡ s.quota_state
unfolding record_transport_probe_success
transport_probed-same a observed unix_ns latency s =
    elim (Result-cases (check_probe transport a observed s)) [
      | inl (e, bad) ↦ rw (bad, record_transport_probe_success)
      | inr (_, good) ↦
          rw (good, record_transport_probe_success) (update_egress-same a unix_ns latency s)
    ]

admit_health-same :
    (exchange : String) (egresses : List Egress) (unix_ns monotonic_ns : ℕ) (s : EgressStateStore)
    → (admit_health exchange egresses unix_ns monotonic_ns s).1.quota_state ≡ s.quota_state
unfolding admit_health
admit_health-same exchange egresses unix_ns monotonic_ns s =
    elim (Result-cases (collect_checked exchange egresses unix_ns monotonic_ns s)) [
      | inl (e, bad) ↦ rw (bad, admit_health)
      | inr (c, good) ↦ elim (Result-cases (admitted_health c)) [
        | inl (e, refused) ↦ rw (good, refused, admit_health)
        | inr (h, made) ↦ rw (good, made, admit_health)
      ]
    ]

Step-Ascends : {s t : EgressStateStore} → Step s t → Ascends s t
unfolding close_store
Step-Ascends (restriction key column t reason s) = restriction-Ascends key column t reason s
Step-Ascends (quota_probed a observed s) = quota_probed-Ascends a observed s
Step-Ascends (rate key m s) = set_rate_multiplier-Ascends key m s
Step-Ascends (failure key reason t s) =
    same-Ascends s (record_transport_failure key reason t s).1
      (record_transport_failure-same key reason t s)
Step-Ascends (transport_probed a observed unix_ns latency s) =
    same-Ascends s (record_transport_probe_success a observed unix_ns latency s).1
      (transport_probed-same a observed unix_ns latency s)
Step-Ascends (admission exchange egresses unix_ns monotonic_ns s) =
    same-Ascends s (admit_health exchange egresses unix_ns monotonic_ns s).1
      (admit_health-same exchange egresses unix_ns monotonic_ns s)
Step-Ascends (closing s) = same-Ascends s (close_store s) refl

-- Over any calls of a store, whatever they return or raise, no quota group's revision is lower at the
-- end than at the start.
pub Reach-Ascends : {s t : EgressStateStore} → Reach s t → Ascends s t
Reach-Ascends here key = omega arith
Reach-Ascends (next r st) key = omega (arith, Reach-Ascends r key, Step-Ascends st key)
