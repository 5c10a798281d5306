-- ===== src/Network/Store/Admission.antt =====
-- `admit_health` of network/state_store.py: the restrictions that are pending become probe admissions
-- on the monotonic clock.
use crytpo_data.Shared.{
  ℕ, ◌+◌, ◌-◌, max, Bool, true, ◌&&◌, not, Option, none, some, List, [], ◌∷◌, ◌++◌, String, str_eq,
  if◌then◌else◌, map, contains, Result, ok, err, value_error, ◌>>=◌, ◌>>◌, raise_if, Dict, lookup,
  insert, nat_eq, string_eq, pair_eq,
}
use crytpo_data.Network.Egress.{Egress}
use crytpo_data.Network.Health.{
  EgressHealthKey, quota, transport, ProbeClaims, ProbeAdmission, minted, AdmittedHealth,
  check_admitted, QuotaState, restriction_until_unix_ns, quota_requires_probe, EgressHealthState,
  transport_requires_probe,
}
use crytpo_data.Network.Store.{EgressStateStore, Call, load_quota, load_egress}

-- What the loop collects. The two dictionaries hold the admissions by their keys.
pub record Collected : Type 0 where
  pub deadlines : List (EgressHealthKey × ℕ)
  pub quota_probes : Dict EgressHealthKey ProbeAdmission
  pub transport_probes : Dict EgressHealthKey ProbeAdmission
  pub next_object : ℕ

-- A wall instant on the monotonic clock, not before now.
abbrev pub deadline : (now_monotonic_ns now_unix_ns until_unix_ns : ℕ) → ℕ
deadline now_monotonic_ns now_unix_ns until_unix_ns =
    now_monotonic_ns + (until_unix_ns - now_unix_ns)

-- The deadline of a restriction, if one is pending.
unfoldable pub quota_deadline : (now_monotonic_ns now_unix_ns : ℕ) → QuotaState → Option ℕ
quota_deadline now_monotonic_ns now_unix_ns q =
    if quota_requires_probe q
    then some (deadline now_monotonic_ns now_unix_ns (restriction_until_unix_ns q))
    else none

unfoldable pub transport_deadline :
    (now_monotonic_ns now_unix_ns : ℕ) → EgressHealthState → Option ℕ
transport_deadline now_monotonic_ns now_unix_ns h =
    if transport_requires_probe h
    then some (deadline now_monotonic_ns now_unix_ns h.cooldown_until_unix_ns)
    else none

-- `dict.setdefault`
abbrev set_default :
    EgressHealthKey
    → ProbeAdmission
    → Dict EgressHealthKey ProbeAdmission
    → Dict EgressHealthKey ProbeAdmission
set_default key a d = elim (lookup key d) [ none ↦ insert key a d | some _ ↦ d ]

unfoldable pub collect_quota :
    (store_identity : ℕ)
    → EgressHealthKey
    → (revision : ℕ) → Option ℕ
    → Collected
    → Result Collected
unfolding minted
collect_quota store_identity key revision none c = ok c
collect_quota store_identity (exchange, subject) revision (some at) c =
    let claims : ProbeClaims = record {
      kind = quota;
      exchange = exchange;
      subject = subject;
      restriction_revision = revision;
      probe_after_monotonic_ns = at;
    } in
    minted c.next_object claims store_identity >>= λ a. ok (record c {
      quota_probes = set_default (exchange, subject) a c.quota_probes;
      next_object = c.next_object + 1;
    })

unfoldable pub collect_transport :
    (store_identity : ℕ)
    → EgressHealthKey
    → (revision : ℕ) → Option ℕ
    → Collected
    → Result Collected
unfolding minted
collect_transport store_identity key revision none c = ok c
collect_transport store_identity (exchange, subject) revision (some at) c =
    let claims : ProbeClaims = record {
      kind = transport;
      exchange = exchange;
      subject = subject;
      restriction_revision = revision;
      probe_after_monotonic_ns = at;
    } in
    minted c.next_object claims store_identity >>= λ a. ok (record c {
      transport_probes = insert (exchange, subject) a c.transport_probes;
      next_object = c.next_object + 1;
    })

-- The later of the pending deadlines.
abbrev pub latest : Option ℕ → Option ℕ → Option ℕ
latest none b = b
latest (some a) none = some a
latest (some a) (some b) = some (max a b)

unfoldable pub collect_deadline : EgressHealthKey → Option ℕ → Collected → Collected
collect_deadline key none c = c
collect_deadline key (some at) c = record c { deadlines = c.deadlines ++ (key, at) ∷ [] }

-- One round of the loop of `_admit_health_in_transaction`
unfoldable pub collect :
    (exchange : String)
    → (now_unix_ns now_monotonic_ns : ℕ) → EgressStateStore
    → Egress
    → Collected
    → Result Collected
unfolding quota_deadline transport_deadline collect_quota collect_transport collect_deadline
collect exchange now_unix_ns now_monotonic_ns s e c = do
  q ← load_quota (exchange, e.quota_group) s
  h ← load_egress (exchange, e.id) s
  let by_quota = quota_deadline now_monotonic_ns now_unix_ns q
  let by_transport = transport_deadline now_monotonic_ns now_unix_ns h
  c' ← collect_quota s.identity (exchange, e.quota_group) q.restriction_revision by_quota c
  c'' ← collect_transport s.identity (exchange, e.id) h.restriction_revision by_transport c'
  ok (collect_deadline (exchange, e.id) (latest by_quota by_transport) c'')

unfoldable pub collect_all :
    (exchange : String)
    → (now_unix_ns now_monotonic_ns : ℕ) → EgressStateStore
    → List Egress
    → Collected
    → Result Collected
unfolding collect
collect_all exchange now_unix_ns now_monotonic_ns s [] c = ok c
collect_all exchange now_unix_ns now_monotonic_ns s (e ∷ es) c =
    collect exchange now_unix_ns now_monotonic_ns s e c
    >>= collect_all exchange now_unix_ns now_monotonic_ns s es

abbrev pub distinct : List String → Bool
distinct [] = true
distinct (x ∷ xs) = not (contains xs x) && distinct xs

unfoldable pub admitted_health : Collected → Result AdmittedHealth
unfolding check_admitted
admitted_health c =
    let h : AdmittedHealth = record {
      probe_after_monotonic_ns = c.deadlines;
      quota_probe_admissions = map (λ (_, a). a) c.quota_probes;
      transport_probe_admissions = map (λ (_, a). a) c.transport_probes;
    } in
    check_admitted h >> ok h

-- `__remember_probe_admission`, for each of a list
unfoldable pub remember : List ProbeAdmission → Dict ℕ ProbeClaims → Dict ℕ ProbeClaims
remember [] issued = issued
remember (a ∷ as') issued = remember as' (insert a.object_identity a.claims issued)

-- The checks of `admit_health`, and then its transaction.
unfoldable pub collect_checked :
    (exchange : String)
    → (egresses : List Egress) → (now_unix_ns now_monotonic_ns : ℕ) → EgressStateStore
    → Result Collected
unfolding collect_all
collect_checked exchange egresses now_unix_ns now_monotonic_ns s = do
  raise_if (str_eq exchange "") value_error
  raise_if (not (distinct (map (λ e. e.id) egresses))) value_error
  collect_all exchange now_unix_ns now_monotonic_ns s egresses (record {
    deadlines = [];
    quota_probes = [];
    transport_probes = [];
    next_object = s.next_object;
  })

unfoldable pub admit_health :
    (exchange : String)
    → (egresses : List Egress) → (now_unix_ns now_monotonic_ns : ℕ) → Call AdmittedHealth
unfolding collect_checked admitted_health remember
admit_health exchange egresses now_unix_ns now_monotonic_ns s =
    elim (collect_checked exchange egresses now_unix_ns now_monotonic_ns s) [
      | err e ↦ (err e, s)
      | ok c ↦ elim (admitted_health c) [
        | err e ↦ (err e, s)
        | ok h ↦ (
          ok h,
          record s {
            issued =
                remember h.transport_probe_admissions (remember h.quota_probe_admissions s.issued);
            next_object = c.next_object;
          },
        )
      ]
    ]
