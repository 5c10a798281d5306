-- ===== src/Network/Store.antt =====
-- `EgressStateStore` of network/state_store.py. The two tables are dictionaries by their primary
-- keys, and a statement of SQL is the change of a row that it describes; the database runs it whole
-- or not at all. A method returns the store as it left it. Numbers past 64 bits, which the database
-- refuses, are outside the model.
pub mod Revisions
pub mod Admission
pub mod Stale
use crytpo_data.Shared.{
  ℕ, ◌+◌, ◌-◌, max, Bool, true, false, ◌&&◌, ◌||◌, not, Option, none, some, List, [], ◌∷◌, ◌++◌,
  String, str_eq, leb, ltb, ◌==◌, if◌then◌else◌, map, contains, Result, Error, ok, err, value_error,
  stale_probe, ◌>>=◌, ◌>>◌, raise_if, Dict, lookup, insert, Eq, nat_eq, string_eq, pair_eq,
}
use crytpo_data.Shared.Decimal.{Decimal, of_int, decimal_leb}
use crytpo_data.Network.Bucket.{DecimalInput, decimal_input}
use crytpo_data.Network.Health.{
  EgressHealthKey, ProbeKind, quota, transport, ProbeClaims, claim_values_match, ProbeAdmission,
  belongs_to, minted, AdmittedHealth, check_admitted, admission_key, QuotaState, unrestricted,
  restriction_until_unix_ns, quota_requires_probe, EgressHealthState, healthy,
  transport_requires_probe,
}

-- `issued` holds the claims of the probe admissions handed out, by the identity of the object;
-- `next_object` is an identity that no object has yet.
pub record EgressStateStore : Type 0 where
  pub identity : ℕ
  pub quota_state : Dict EgressHealthKey QuotaState
  pub egress_state : Dict EgressHealthKey EgressHealthState
  pub issued : Dict ℕ ProbeClaims
  pub next_object : ℕ

abbrev pub Call : Type 0 → Type 0
Call A = EgressStateStore → Result A × EgressStateStore

-- `_nonempty`, twice
unfoldable pub check_key : EgressHealthKey → Result (Unit {0})
check_key (exchange, subject) = raise_if (str_eq exchange "" || str_eq subject "") value_error

abbrev pub or_default {ℓ} : {A : Type ℓ} → A → Option A → A
or_default d none = d
or_default d (some a) = a

abbrev pub quota_at : EgressHealthKey → EgressStateStore → QuotaState
quota_at key s = or_default unrestricted (lookup key s.quota_state)

abbrev pub egress_at : EgressHealthKey → EgressStateStore → EgressHealthState
egress_at key s = or_default healthy (lookup key s.egress_state)

unfoldable pub load_quota : EgressHealthKey → EgressStateStore → Result QuotaState
unfolding check_key
load_quota key s = check_key key >> ok (quota_at key s)

unfoldable pub load_egress : EgressHealthKey → EgressStateStore → Result EgressHealthState
unfolding check_key
load_egress key s = check_key key >> ok (egress_at key s)

-- The column that a restriction sets.
pub data Column : Type 0 where
  ban_until_ns cooldown_until_ns : Column

abbrev raised_column : Column → ℕ → QuotaState → QuotaState
raised_column ban_until_ns t q = record q { ban_until_unix_ns = max q.ban_until_unix_ns t }
raised_column cooldown_until_ns t q = record q {
  cooldown_until_unix_ns = max q.cooldown_until_unix_ns t;
}

-- The upsert of `_record_quota_restriction`: an inserted row has revision 1, an updated one the
-- next.
unfoldable pub restricted : Column → ℕ → String → Option QuotaState → QuotaState
restricted column t reason none = record (raised_column column t unrestricted) {
  last_reason = some reason;
  restriction_revision = 1;
}
restricted column t reason (some q) = record (raised_column column t q) {
  last_reason = some reason;
  restriction_revision = q.restriction_revision + 1;
}

-- `_record_quota_restriction`, which `record_ban` and `record_cooldown` call with their columns
unfoldable pub record_quota_restriction :
    EgressHealthKey → Column → (until_unix_ns : ℕ) → (reason : String) → Call (Unit {0})
unfolding check_key restricted
record_quota_restriction key column t reason s =
    elim (check_key key >> raise_if (str_eq reason "") value_error) [
      | err e ↦ (err e, s)
      | ok _ ↦ (
        ok tt,
        record s {
          quota_state =
              insert key (restricted column t reason (lookup key s.quota_state)) s.quota_state;
        },
      )
    ]

-- `__is_issued_probe_admission`; who passes an admission holds it, so it has not been collected.
unfoldable pub is_issued : ProbeAdmission → EgressStateStore → Bool
unfolding claim_values_match
is_issued a s = elim (lookup a.object_identity s.issued) [
  | none ↦ false
  | some claims ↦ claim_values_match claims a.claims
]

abbrev is_kind : ProbeKind → ProbeKind → Bool
is_kind quota quota = true
is_kind transport transport = true
is_kind _ _ = false

-- The checks of the two `record_…_probe_success`. The first is of the admission's class, which
-- raises a TypeError.
unfoldable pub check_probe :
    ProbeKind → ProbeAdmission → (observed : ℕ) → EgressStateStore → Result (Unit {0})
unfolding belongs_to is_issued
check_probe kind a observed s = do
  raise_if (not (is_kind kind a.claims.kind)) value_error
  raise_if (not (belongs_to s.identity a)) value_error
  raise_if (not (is_issued a s)) value_error
  raise_if (ltb observed a.claims.probe_after_monotonic_ns) value_error

-- The rows that the UPDATE finds.
abbrev pub awaits_quota_probe : ℕ → QuotaState → Bool
awaits_quota_probe revision q = q.restriction_revision == revision && quota_requires_probe q

abbrev pub recovered_quota : QuotaState → QuotaState
recovered_quota q = record q {
  ban_until_unix_ns = 0;
  cooldown_until_unix_ns = 0;
  last_reason = none;
  restriction_revision = q.restriction_revision + 1;
}

unfoldable pub update_quota : ProbeAdmission → Call (Unit {0})
update_quota a s = elim (lookup (admission_key a) s.quota_state) [
  | none ↦ (err stale_probe, s)
  | some q ↦
      if awaits_quota_probe a.claims.restriction_revision q
      then (
        ok tt,
        record s { quota_state = insert (admission_key a) (recovered_quota q) s.quota_state },
      )
      else (err stale_probe, s)
]

unfoldable pub record_quota_probe_success :
    ProbeAdmission → (observed_monotonic_ns : ℕ) → Call (Unit {0})
unfolding check_probe update_quota
record_quota_probe_success a observed s = elim (check_probe quota a observed s) [
  | err e ↦ (err e, s)
  | ok _ ↦ update_quota a s
]

unfoldable pub multiplied : Decimal → Option QuotaState → QuotaState
multiplied m none = record unrestricted { current_rate_multiplier = m }
multiplied m (some q) = record q { current_rate_multiplier = m }

-- The checks of `set_rate_multiplier`: a multiplier above 0 and at most 1.
unfoldable pub checked_rate : EgressHealthKey → DecimalInput → Result Decimal
unfolding check_key decimal_input
checked_rate key multiplier = do
  check_key key
  m ← decimal_input multiplier false
  raise_if (not (decimal_leb m (of_int 1))) value_error
  ok m

unfoldable pub set_rate_multiplier : EgressHealthKey → DecimalInput → Call (Unit {0})
unfolding checked_rate multiplied
set_rate_multiplier key multiplier s = elim (checked_rate key multiplier) [
  | err e ↦ (err e, s)
  | ok m ↦ (
    ok tt,
    record s { quota_state = insert key (multiplied m (lookup key s.quota_state)) s.quota_state },
  )
]

-- The upsert of `record_transport_failure`
unfoldable pub failed : ℕ → String → Option EgressHealthState → EgressHealthState
failed t reason none = record healthy {
  consecutive_transport_failures = 1;
  cooldown_until_unix_ns = t;
  last_reason = some reason;
  restriction_revision = 1;
}
failed t reason (some h) = record h {
  consecutive_transport_failures = h.consecutive_transport_failures + 1;
  cooldown_until_unix_ns = max h.cooldown_until_unix_ns t;
  last_reason = some reason;
  restriction_revision = h.restriction_revision + 1;
}

unfoldable pub record_transport_failure :
    EgressHealthKey → (reason : String) → (cooldown_until_unix_ns : ℕ) → Call (Unit {0})
unfolding check_key failed
record_transport_failure key reason t s =
    elim (check_key key >> raise_if (str_eq reason "") value_error) [
      | err e ↦ (err e, s)
      | ok _ ↦ (
        ok tt,
        record s {
          egress_state = insert key (failed t reason (lookup key s.egress_state)) s.egress_state;
        },
      )
    ]

abbrev pub awaits_transport_probe : ℕ → EgressHealthState → Bool
awaits_transport_probe revision h = h.restriction_revision == revision && transport_requires_probe h

abbrev pub recovered_egress :
    (observed_unix_ns latency_ns : ℕ) → EgressHealthState → EgressHealthState
recovered_egress observed_unix_ns latency_ns h = record h {
  consecutive_transport_failures = 0;
  cooldown_until_unix_ns = 0;
  last_success_unix_ns = some observed_unix_ns;
  last_latency_ns = some latency_ns;
  last_reason = none;
  restriction_revision = h.restriction_revision + 1;
}

unfoldable pub update_egress : ProbeAdmission → (observed_unix_ns latency_ns : ℕ) → Call (Unit {0})
update_egress a observed_unix_ns latency_ns s = elim (lookup (admission_key a) s.egress_state) [
  | none ↦ (err stale_probe, s)
  | some h ↦
      if awaits_transport_probe a.claims.restriction_revision h
      then (
        ok tt,
        record s {
          egress_state =
              insert (admission_key a) (recovered_egress observed_unix_ns latency_ns h)
                s.egress_state;
        },
      )
      else (err stale_probe, s)
]

unfoldable pub record_transport_probe_success :
    ProbeAdmission → (observed_monotonic_ns observed_unix_ns latency_ns : ℕ) → Call (Unit {0})
unfolding check_probe update_egress
record_transport_probe_success a observed observed_unix_ns latency_ns s =
    elim (check_probe transport a observed s) [
      | err e ↦ (err e, s)
      | ok _ ↦ update_egress a observed_unix_ns latency_ns s
    ]

-- `close` forgets the admissions handed out. It then closes the connection to the database, after which
-- the database's library refuses every statement; that is input and output, and outside the model.
unfoldable pub close_store : EgressStateStore → EgressStateStore
close_store s = record s { issued = [] }
