-- ===== src/Examples/Store.antt =====
-- The state store at concrete inputs.
use crytpo_data.Shared.{◌≡◌, ◌≤◌, refl, some, [], ◌∷◌, Error, ok, err}
use crytpo_data.Network.Egress.{Egress}
use crytpo_data.Network.Health.{
  EgressHealthKey, quota, ProbeClaims, ProbeAdmission, QuotaState, unrestricted,
}
use crytpo_data.Network.Store.{
  EgressStateStore, load_quota, load_egress, ban_until_ns, record_quota_restriction,
  record_quota_probe_success, recovered_quota,
}
use crytpo_data.Network.Store.Admission.{admit_health}
use crytpo_data.Network.Store.Revisions.{revision, restriction, here, next, Reach-Ascends}
use crytpo_data.Network.Store.Stale.{succeeded, Superseded-fails}

abbrev group : EgressHealthKey
group = ("exchange", "quota")

abbrev banned : QuotaState
banned = record unrestricted {
  ban_until_unix_ns = 500;
  last_reason = some "http 418";
  restriction_revision = 1;
}

abbrev store : EgressStateStore
store = record {
  identity = 7;
  quota_state = (group, banned) ∷ [];
  egress_state = [];
  issued = [];
  next_object = 0;
}

abbrev claims : ProbeClaims
claims = record {
  kind = quota;
  exchange = "exchange";
  subject = "quota";
  restriction_revision = 1;
  probe_after_monotonic_ns = 1_400;
}

abbrev admitted_probe : ProbeAdmission
admitted_probe = record {
  object_identity = 0;
  claims = claims;
  mint = record { store_identity = 7; claims = claims };
}

abbrev egress : Egress
egress = record {
  id = "egress";
  quota_group = "quota";
  max_ws_connections = 2;
  max_http_concurrency = 4;
}

abbrev store_with_probe : EgressStateStore
store_with_probe = record store { issued = (0, claims) ∷ []; next_object = 1 }

-- At 100 on the wall clock and 1,000 on the monotonic one the ban has 400 nanoseconds left.
admit-banned : admit_health "exchange" (egress ∷ []) 100 1_000 store ≡ (
  ok (record {
    probe_after_monotonic_ns = (("exchange", "egress"), 1_400) ∷ [];
    quota_probe_admissions = admitted_probe ∷ [];
    transport_probe_admissions = [];
  }),
  store_with_probe,
)
unfolding admit_health load_quota load_egress
admit-banned = refl

abbrev recovered : EgressStateStore
recovered = record store_with_probe { quota_state = (group, recovered_quota banned) ∷ [] }

probe-accepted :
    record_quota_probe_success admitted_probe 1_400 store_with_probe ≡ (ok tt, recovered)
unfolding record_quota_probe_success
probe-accepted = refl

Superseded-fails_example :
    (e : Error) × (record_quota_probe_success admitted_probe 1_500
        (record_quota_restriction group ban_until_ns 900 "http 429" recovered).1
      ≡ (err e, (record_quota_restriction group ban_until_ns 900 "http 429" recovered).1))
Superseded-fails_example =
    Superseded-fails admitted_probe store_with_probe recovered
      (record_quota_restriction group ban_until_ns 900 "http 429" recovered).1 1_500
      (succeeded 1_400 probe-accepted)
      (next here (restriction group ban_until_ns 900 "http 429" recovered))

Reach-Ascends_example :
    revision group recovered
    ≤ revision group (record_quota_restriction group ban_until_ns 900 "http 429" recovered).1
Reach-Ascends_example =
    Reach-Ascends (next here (restriction group ban_until_ns 900 "http 429" recovered)) group
