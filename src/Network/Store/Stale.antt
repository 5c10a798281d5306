-- ===== src/Network/Store/Stale.antt =====
-- Quota probes of network/state_store.py that have become stale.
use crytpo_data.Shared.{
  ℕ, ◌≤◌, ◌<◌, ◌≡◌, ap, inl, inr, false, String, Result, Error, ok, err, lookup, string_eq, pair_eq,
  ◌>>◌, raise_if, str_eq, value_error, stale_probe, arith, Bool-cases, Option-cases, Result-cases,
  lookup-insert_self,
}
use crytpo_data.Network.Health.{quota, ProbeAdmission, admission_key}
use crytpo_data.Network.Store.{
  EgressStateStore, check_key, Column, restricted, awaits_quota_probe, record_quota_restriction,
  check_probe, recovered_quota, update_quota, record_quota_probe_success,
}
use crytpo_data.Network.Store.Revisions.{
  row_revision, revision, Reach, Reach-Ascends, restricted-lt,
}

-- A probe whose revision is in the past fails, and changes nothing.
old_probe-fails :
    (a : ProbeAdmission) (observed : ℕ) (s : EgressStateStore)
    → a.claims.restriction_revision < revision (admission_key a) s
    → (e : Error) × (record_quota_probe_success a observed s ≡ (err e, s))
unfolding record_quota_probe_success update_quota
old_probe-fails a observed s old = elim (Result-cases (check_probe quota a observed s)) [
  | inl (e, bad) ↦ (e, rw (bad, record_quota_probe_success))
  | inr (_, good) ↦ elim (Option-cases (lookup (admission_key a) s.quota_state)) [
    | inl absent ↦ (stale_probe, rw (good, absent, record_quota_probe_success, update_quota))
    | inr (q, found) ↦
        let older : a.claims.restriction_revision < q.restriction_revision = rw found at old in
        let not_so : awaits_quota_probe a.claims.restriction_revision q ≡ false = ground arith in
        (stale_probe, rw (good, found, not_so, record_quota_probe_success, update_quota))
  ]
]

-- What ends a probe's use: its own success, or a restriction of its quota group that is recorded
-- when the store is at the probe's revision or past it.
pub data Superseded (a : ProbeAdmission) (s s' : EgressStateStore) : Type 0 where
  succeeded :
      (observed : ℕ) → record_quota_probe_success a observed s ≡ (ok tt, s') → Superseded a s s'
  restricted_again :
      (column : Column) (t : ℕ) (reason : String)
      → a.claims.restriction_revision ≤ revision (admission_key a) s
      → record_quota_restriction (admission_key a) column t reason s ≡ (ok tt, s')
      → Superseded a s s'

update_quota-lt :
    (a : ProbeAdmission) (s s' : EgressStateStore)
    → update_quota a s ≡ (ok tt, s')
    → a.claims.restriction_revision < revision (admission_key a) s'
unfolding update_quota
update_quota-lt a s s' h = elim (Option-cases (lookup (admission_key a) s.quota_state)) [
  | inl absent ↦ cc (rw (absent, update_quota) at h)
  | inr (q, found) ↦ elim (Bool-cases (awaits_quota_probe a.claims.restriction_revision q)) [
    | inr not_so ↦ cc (rw (found, not_so, update_quota) at h)
    | inl waits ↦
        let put =
          ap (λ (p : Result (Unit {0}) × EgressStateStore). revision (admission_key a) p.1)
            (rw (found, waits, update_quota) at h) in
        let row =
          ap row_revision
            (lookup-insert_self (admission_key a) (recovered_quota q) s.quota_state) in
        let same : q.restriction_revision ≡ a.claims.restriction_revision = ground arith in
        omega (arith, put, row, same)
  ]
]

Superseded-lt :
    (a : ProbeAdmission) (s s' : EgressStateStore)
    → Superseded a s s'
    → a.claims.restriction_revision < revision (admission_key a) s'
unfolding record_quota_probe_success record_quota_restriction
Superseded-lt a s s' (succeeded observed h) = elim (Result-cases (check_probe quota a observed s)) [
  | inl (e, bad) ↦ cc (rw (bad, record_quota_probe_success) at h)
  | inr (_, good) ↦ update_quota-lt a s s' (rw (good, record_quota_probe_success) at h)
]
Superseded-lt a s s' (restricted_again column t reason known h) =
    elim (Result-cases (check_key (admission_key a) >> raise_if (str_eq reason "") value_error)) [
      | inl (e, bad) ↦ cc (rw (bad, record_quota_restriction) at h)
      | inr (_, good) ↦
          let key = admission_key a in
          let q = restricted column t reason (lookup key s.quota_state) in
          let put =
            ap (λ (p : Result (Unit {0}) × EgressStateStore). revision key p.1)
              (rw (good, record_quota_restriction) at h) in
          let row = ap row_revision (lookup-insert_self key q s.quota_state) in
          omega (arith, put, row, known, restricted-lt column t reason (lookup key s.quota_state))
    ]

-- Once a quota probe has succeeded, or its quota group has been restricted again at or past the
-- probe's revision, the probe can clear no restriction any more: after any further calls of the
-- store, reporting its success raises and changes nothing.
pub Superseded-fails :
    (a : ProbeAdmission) (s s' t : EgressStateStore) (observed : ℕ)
    → Superseded a s s'
    → Reach s' t
    → (e : Error) × (record_quota_probe_success a observed t ≡ (err e, t))
Superseded-fails a s s' t observed over later =
    old_probe-fails a observed t
      (omega (arith, Superseded-lt a s s' over, Reach-Ascends later (admission_key a)))
