-- ===== src/Network/Health.antt =====
-- network/health.py: snapshots of the health of egresses, and the admissions of probes. The classes
-- of quota probes and transport probes are one record with a kind; `subject` is the quota group or
-- the egress. The identity of an object, which `id` and `is` read, stands as a number.
use crytpo_data.Shared.{
  ℕ, max, Bool, true, false, ◌&&◌, ◌||◌, not, Option, none, some, List, [], ◌∷◌, String, str_eq,
  leb, ◌==◌, filter_by, find_first, any, map, contains, Result, ok, value_error, ◌>>◌, raise_if,
  string_eq, pair_eq,
}
use crytpo_data.Shared.Decimal.{Decimal, of_int}

-- Exchange and egress; the keys of quota states have the same shape.
abbrev pub EgressHealthKey : Type 0
EgressHealthKey = String × String

pub record HealthSnapshot : Type 0 where
  pub unavailable : List EgressHealthKey
  pub probe_eligible : List EgressHealthKey

-- `HealthSnapshot.__post_init__`
unfoldable pub new_snapshot :
    (unavailable probe_eligible : List EgressHealthKey) → Result HealthSnapshot
new_snapshot unavailable probe_eligible = do
  raise_if (any (λ k. not (contains unavailable k)) probe_eligible) value_error
  ok (record { unavailable = unavailable; probe_eligible = probe_eligible })

unfoldable pub is_available : (exchange egress_id : String) → HealthSnapshot → Bool
is_available exchange egress_id h = not (contains h.unavailable (exchange, egress_id))

unfoldable pub may_probe : (exchange egress_id : String) → HealthSnapshot → Bool
may_probe exchange egress_id h = contains h.probe_eligible (exchange, egress_id)

pub data ProbeKind : Type 0 where
  quota transport : ProbeKind

abbrev kind_beq : ProbeKind → ProbeKind → Bool
kind_beq quota quota = true
kind_beq transport transport = true
kind_beq _ _ = false

-- `_quota_probe_claims` and `_transport_probe_claims`
pub record ProbeClaims : Type 0 where
  pub kind : ProbeKind
  pub exchange : String
  pub subject : String
  pub restriction_revision : ℕ
  pub probe_after_monotonic_ns : ℕ

-- `_claim_values_match`
unfoldable pub claim_values_match : ProbeClaims → ProbeClaims → Bool
claim_values_match a b =
    kind_beq a.kind b.kind
    && (str_eq a.exchange b.exchange
        && (str_eq a.subject b.subject
            && (a.restriction_revision == b.restriction_revision
                && a.probe_after_monotonic_ns == b.probe_after_monotonic_ns)))

-- `_AdmissionMint`
pub record AdmissionMint : Type 0 where
  pub store_identity : ℕ
  pub claims : ProbeClaims

pub record ProbeAdmission : Type 0 where
  pub object_identity : ℕ
  pub claims : ProbeClaims
  pub mint : AdmissionMint

-- `__post_init__` of the two classes
unfoldable pub check_admission : ProbeAdmission → Result (Unit {0})
unfolding claim_values_match
check_admission a = do
  raise_if (str_eq a.claims.exchange "" || str_eq a.claims.subject "") value_error
  raise_if (not (claim_values_match a.mint.claims a.claims)) value_error

-- `_belongs_to`
unfoldable pub belongs_to : (store_identity : ℕ) → ProbeAdmission → Bool
unfolding claim_values_match
belongs_to store_identity a =
    claim_values_match a.mint.claims a.claims && a.mint.store_identity == store_identity

-- `_minted`
unfoldable pub minted :
    (object_identity : ℕ) → ProbeClaims → (store_identity : ℕ) → Result ProbeAdmission
unfolding check_admission
minted object_identity claims store_identity =
    let a : ProbeAdmission = record {
      object_identity = object_identity;
      claims = claims;
      mint = record { store_identity = store_identity; claims = claims };
    } in
    check_admission a >> ok a

-- `AdmittedHealth`. Its own mint is over what its fields hold, and only `_minted` makes one that is
-- not empty.
pub record AdmittedHealth : Type 0 where
  pub probe_after_monotonic_ns : List (EgressHealthKey × ℕ)
  pub quota_probe_admissions : List ProbeAdmission
  pub transport_probe_admissions : List ProbeAdmission

abbrev pub distinct_keys : List EgressHealthKey → Bool
distinct_keys [] = true
distinct_keys (k ∷ ks) = not (contains ks k) && distinct_keys ks

abbrev is_empty_key : EgressHealthKey → Bool
is_empty_key (e, s) = str_eq e "" || str_eq s ""

abbrev pub admission_key : ProbeAdmission → EgressHealthKey
admission_key a = (a.claims.exchange, a.claims.subject)

-- `AdmittedHealth.__post_init__`
unfoldable pub check_admitted : AdmittedHealth → Result (Unit {0})
check_admitted h = do
  raise_if (any (λ (k, _). is_empty_key k) h.probe_after_monotonic_ns) value_error
  raise_if (not (distinct_keys (map (λ (k, _). k) h.probe_after_monotonic_ns))) value_error
  raise_if (not (distinct_keys (map admission_key h.quota_probe_admissions))) value_error
  raise_if (not (distinct_keys (map admission_key h.transport_probe_admissions))) value_error

-- `AdmittedHealth.snapshot`
unfoldable pub snapshot_at : (now_monotonic_ns : ℕ) → AdmittedHealth → Result HealthSnapshot
unfolding new_snapshot
snapshot_at now h =
    new_snapshot (map (λ (k, _). k) h.probe_after_monotonic_ns)
      (map (λ (k, _). k) (filter_by (λ (_, d). leb d now) h.probe_after_monotonic_ns))

abbrev is_for : (exchange subject : String) → ProbeAdmission → Bool
is_for exchange subject a = str_eq a.claims.exchange exchange && str_eq a.claims.subject subject

unfoldable pub quota_probe :
    (exchange quota_group : String) → AdmittedHealth → Option ProbeAdmission
quota_probe exchange quota_group h =
    find_first (is_for exchange quota_group) h.quota_probe_admissions

unfoldable pub transport_probe :
    (exchange egress_id : String) → AdmittedHealth → Option ProbeAdmission
transport_probe exchange egress_id h =
    find_first (is_for exchange egress_id) h.transport_probe_admissions

-- `QuotaState` and `EgressHealthState`, whose keys stand beside them
pub record QuotaState : Type 0 where
  pub ban_until_unix_ns : ℕ
  pub cooldown_until_unix_ns : ℕ
  pub current_rate_multiplier : Decimal
  pub last_reason : Option String
  pub restriction_revision : ℕ

abbrev pub unrestricted : QuotaState
unrestricted = record {
  ban_until_unix_ns = 0;
  cooldown_until_unix_ns = 0;
  current_rate_multiplier = of_int 1;
  last_reason = none;
  restriction_revision = 0;
}

abbrev pub restriction_until_unix_ns : QuotaState → ℕ
restriction_until_unix_ns q = max q.ban_until_unix_ns q.cooldown_until_unix_ns

abbrev pub quota_requires_probe : QuotaState → Bool
quota_requires_probe q = elim q.last_reason [ none ↦ false | some _ ↦ true ]

pub record EgressHealthState : Type 0 where
  pub consecutive_transport_failures : ℕ
  pub cooldown_until_unix_ns : ℕ
  pub last_success_unix_ns : Option ℕ
  pub last_latency_ns : Option ℕ
  pub last_reason : Option String
  pub restriction_revision : ℕ

abbrev pub healthy : EgressHealthState
healthy = record {
  consecutive_transport_failures = 0;
  cooldown_until_unix_ns = 0;
  last_success_unix_ns = none;
  last_latency_ns = none;
  last_reason = none;
  restriction_revision = 0;
}

abbrev pub transport_requires_probe : EgressHealthState → Bool
transport_requires_probe h = not (h.consecutive_transport_failures == 0)
