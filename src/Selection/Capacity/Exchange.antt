-- ===== src/Selection/Capacity/Exchange.antt =====
-- `admit_exchange_capacity` of selection/capacity.py: the connections of an exchange among the demands
-- of its scopes. An allocation stands beside its demand, since the scopes are distinct.
pub mod Rounds
pub mod Shares
pub mod Checks
pub mod Within
use crytpo_data.Shared.{
  ℕ, zero, suc, ◌+◌, ◌-◌, ◌*◌, ◌/◌, ◌^◌, Bool, true, false, ◌&&◌, ◌||◌, not, Option, none, some,
  List, [], ◌∷◌, String, str_eq, str_leb, str_ltb, ltb, ◌==◌, if◌then◌else◌, map, filter_by, any,
  length, take, drop, count, sum_by, sort_by, repeats, contains, same_members, Dict, lookup, Result,
  ok, err, value_error, capacity_error, assertion_error, key_error, or_raise, raise_if, ◌>>=◌, ◌>>◌,
  string_eq, pair_eq,
}
use crytpo_data.Storage.Ingress.{checked_sha256}
use crytpo_data.Selection.Capacity.{
  CapacityCandidate, CapacityPolicy, CapacityAdmission, AdmissionPolicy, uniform, mixed,
  degrade_low_priority_with_warning, fail, bounded_integer, is_fixed, is_unranked, keys_of,
  admission_order, admitted_before, admit,
}

-- `CatalogScope`, by the values of its two enumerations; also `_scope_key`
abbrev pub CatalogScope : Type 0
CatalogScope = String × String

abbrev pub scope_leb : CatalogScope → CatalogScope → Bool
scope_leb (e, m) (e', m') = str_ltb e e' || str_eq e e' && str_leb m m'

pub record ScopedCapacityDemand : Type 0 where
  pub scope : CatalogScope
  pub candidates : List CapacityCandidate
  pub instruments_per_connection : ℕ
  pub policies : Dict String CapacityPolicy

abbrev pub policy_keys : Dict String CapacityPolicy → List String
policy_keys policies = map (λ (p : String × CapacityPolicy). p.0) policies

-- `ScopedCapacityDemand.__init__`
unfoldable pub new_demand :
    CatalogScope
    → List CapacityCandidate
    → (instruments_per_connection : ℕ) → Dict String CapacityPolicy
    → Result ScopedCapacityDemand
new_demand scope candidates per_connection policies = do
  raise_if (repeats (keys_of candidates)) value_error
  bounded_integer 1 per_connection
  raise_if (any (λ key. str_eq key "") (policy_keys policies)) value_error
  raise_if (not (same_members (policy_keys policies) (keys_of candidates))) value_error
  ok (record {
    scope = scope;
    candidates = candidates;
    instruments_per_connection = per_connection;
    policies =
        sort_by (λ (p : String × CapacityPolicy). λ (q : String × CapacityPolicy). str_leb p.0 q.0)
          policies;
  })

abbrev pub Allocation : Type 0
Allocation = ScopedCapacityDemand × ℕ

-- The connections that the fixed candidates of a demand need.
abbrev pub fixed_connections : ScopedCapacityDemand → ℕ
fixed_connections d =
    (count is_fixed d.candidates + d.instruments_per_connection - 1) / d.instruments_per_connection

-- `_connection_chunk`
abbrev pub connection_chunk : Allocation → List CapacityCandidate
connection_chunk (d, allocated) =
    take d.instruments_per_connection
      (drop (allocated * d.instruments_per_connection) (sort_by admitted_before d.candidates))

abbrev pub sentinel : ℕ × ℕ × String
sentinel = (3, 2 ^ 63, "")

abbrev pub order_ltb : ℕ × ℕ × String → ℕ × ℕ × String → Bool
order_ltb (a, n, k) (b, m, l) = ltb a b || a == b && (ltb n m || n == m && str_ltb k l)

abbrev pub order_eq : ℕ × ℕ × String → ℕ × ℕ × String → Bool
order_eq (a, n, k) (b, m, l) = a == b && (n == m && str_eq k l)

-- `a < b` on the padded keys, with the scope after them; a list that is at its end goes on with the
-- sentinel.
abbrev pub keys_ltb : (scope_before : Bool) → (a b : List (ℕ × ℕ × String)) → Bool
keys_ltb scope_before [] [] = scope_before
keys_ltb scope_before [] (y ∷ ys) =
    order_ltb sentinel y || order_eq sentinel y && keys_ltb scope_before [] ys
keys_ltb scope_before (x ∷ xs) [] =
    order_ltb x sentinel || order_eq x sentinel && keys_ltb scope_before xs []
keys_ltb scope_before (x ∷ xs) (y ∷ ys) =
    order_ltb x y || order_eq x y && keys_ltb scope_before xs ys

abbrev pub option_ltb : Allocation → Allocation → Bool
option_ltb (d, n) (e, m) =
    keys_ltb (scope_leb d.scope e.scope && not (scope_leb e.scope d.scope))
      (map admission_order (connection_chunk (d, n)))
      (map admission_order (connection_chunk (e, m)))

-- `min(options, key=key)`: the first of the least.
abbrev pub least_option : Allocation → List Allocation → Allocation
least_option best [] = best
least_option best (o ∷ os) = least_option (if option_ltb o best then o else best) os

-- `_best_connection_scope`, where there is an option
abbrev pub best_connection_scope : List Allocation → Option CatalogScope
best_connection_scope [] = none
best_connection_scope (o ∷ os) = some ((least_option o os).0).scope

abbrev pub is_none_left : List CapacityCandidate → Bool
is_none_left [] = true
is_none_left (_ ∷ _) = false

-- `allocations[scope] += 1`
abbrev pub allocate_one : CatalogScope → List Allocation → List Allocation
allocate_one scope [] = []
allocate_one (e, m) ((d, n) ∷ rest) =
    if str_eq e (d.scope).0 && str_eq m (d.scope).1
    then (d, n + 1) ∷ rest
    else (d, n) ∷ allocate_one (e, m) rest

abbrev pub is_option : Allocation → Bool
is_option o = not (is_none_left (connection_chunk o))

-- The loop over the remaining connections, which ends where no scope has a candidate left.
unfoldable pub allocate : (remaining : ℕ) → List Allocation → List Allocation
allocate zero allocations = allocations
allocate (suc remaining) allocations =
    elim (best_connection_scope (filter_by is_option allocations)) [
      | none ↦ allocations
      | some scope ↦ allocate remaining (allocate_one scope allocations)
    ]

abbrev pub is_fail : CapacityPolicy → Bool
is_fail fail = true
is_fail degrade_low_priority_with_warning = false

-- Whether `rejected_fail` has a member.
abbrev pub any_fail : Dict String CapacityPolicy → (rejected : List String) → Result Bool
any_fail policies [] = ok false
any_fail policies (key ∷ rest) = or_raise (lookup key policies) key_error >>= λ policy.
    (any_fail policies rest >>= λ others. ok (is_fail policy || others))

-- `report_policy`
abbrev pub report_policy : List CapacityPolicy → AdmissionPolicy
report_policy [] = mixed
report_policy (p ∷ ps) =
    if any is_fail (p ∷ ps) && any (λ q. not (is_fail q)) (p ∷ ps) then mixed else uniform p

abbrev pub with_policy : AdmissionPolicy → CapacityAdmission → CapacityAdmission
with_policy policy a = record {
  admitted = a.admitted;
  rejected = a.rejected;
  required_slots = a.required_slots;
  available_slots = a.available_slots;
  policy = policy;
  config_sha256 = a.config_sha256;
  warning = a.warning;
}

-- The last loop, over the demands with their connections.
unfoldable pub admit_scopes :
    (digest : String) → List Allocation → Result (Dict CatalogScope CapacityAdmission)
admit_scopes digest [] = ok []
admit_scopes digest ((d, n) ∷ rest) =
    admit d.candidates (n * d.instruments_per_connection) digest degrade_low_priority_with_warning
    >>= λ admission.
        (any_fail d.policies admission.rejected >>= λ failed.
        (raise_if failed capacity_error
          >> (admit_scopes digest rest >>= λ others. ok (
              (
                d.scope,
                with_policy (report_policy (map (λ (p : String × CapacityPolicy). p.1) d.policies))
                    admission,
              )
              ∷ others))))

pub record ExchangeCapacityAdmission : Type 0 where
  pub connections_available : ℕ
  pub connections_used : ℕ
  pub connections_by_scope : Dict CatalogScope ℕ
  pub admissions : Dict CatalogScope CapacityAdmission

abbrev pub connections : List Allocation → ℕ
connections allocations = sum_by (λ (o : Allocation). o.1) allocations

-- The check of each value of `connections_by_scope`.
abbrev pub check_connections : Dict CatalogScope ℕ → Result (Unit {0})
check_connections [] = ok tt
check_connections ((_, n) ∷ rest) = bounded_integer 0 n >> check_connections rest

abbrev pub scopes_of : {A : Type 0} → Dict CatalogScope A → List CatalogScope
scopes_of d = map (λ (p : CatalogScope × _). p.0) d

-- `ExchangeCapacityAdmission.__post_init__`, on mappings that are in the order of their scopes
unfoldable pub checked_result : ExchangeCapacityAdmission → Result ExchangeCapacityAdmission
checked_result r = do
  bounded_integer 0 r.connections_available
  bounded_integer 0 r.connections_used
  raise_if (ltb r.connections_available r.connections_used) value_error
  raise_if (not (same_members (scopes_of r.connections_by_scope) (scopes_of r.admissions)))
      value_error
  check_connections r.connections_by_scope
  raise_if
      (not (sum_by (λ (p : CatalogScope × ℕ). p.1) r.connections_by_scope == r.connections_used))
      value_error
  ok r

-- `connections_by_scope` of the result
abbrev pub by_scope : List Allocation → Dict CatalogScope ℕ
by_scope allocations = map (λ (o : Allocation). ((o.0).scope, o.1)) allocations

abbrev pub one_exchange : List ScopedCapacityDemand → Bool
one_exchange [] = true
one_exchange (d ∷ ds) =
    not (any (λ (e : ScopedCapacityDemand). not (str_eq (e.scope).0 (d.scope).0)) ds)

abbrev pub has_unranked : ScopedCapacityDemand → Bool
has_unranked d = any is_unranked d.candidates

abbrev pub in_order : List ScopedCapacityDemand → List ScopedCapacityDemand
in_order demands =
    sort_by (λ (d : ScopedCapacityDemand). λ (e : ScopedCapacityDemand). scope_leb d.scope e.scope)
      demands

-- The demands in the order of their scopes, each with the connections of its fixed candidates.
abbrev pub fixed_allocations : List ScopedCapacityDemand → List Allocation
fixed_allocations demands =
    map (λ (d : ScopedCapacityDemand). (d, fixed_connections d)) (in_order demands)

unfoldable pub admit_exchange_capacity :
    List ScopedCapacityDemand
    → (ws_connections : ℕ) → (config_sha256 : String) → Result ExchangeCapacityAdmission
admit_exchange_capacity demands available config_sha256 = do
  bounded_integer 0 available
  digest ← checked_sha256 config_sha256
  raise_if (repeats (map (λ (d : ScopedCapacityDemand). d.scope) demands)) value_error
  raise_if (not (one_exchange demands)) value_error
  raise_if (ltb available (connections (fixed_allocations demands))) capacity_error
  raise_if (ltb (connections (fixed_allocations demands)) available && any has_unranked demands)
      assertion_error
  let allocations =
      allocate (available - connections (fixed_allocations demands)) (fixed_allocations demands)
  admissions ← admit_scopes digest allocations
  checked_result (record {
    connections_available = available;
    connections_used = connections allocations;
    connections_by_scope = by_scope allocations;
    admissions = admissions;
  })
