-- ===== src/Examples/Capacity.antt =====
-- The admission of candidates at concrete inputs.
use crytpo_data.Shared.{
  ◌*◌, ◌≤◌, ◌<◌, ◌↔◌, Dict, ◌⊎◌, ◌≡◌, refl, none, some, List, [], ◌∷◌, String, ok, err, length,
  count, capacity_error, value_error, arith, string_eq,
}
use crytpo_data.Network.Egress.{Egress}
use crytpo_data.Storage.Ingress.{checked_sha256}
use crytpo_data.Selection.Capacity.{
  CapacityCandidate, CapacityAdmission, top_n, new_listing, fixed,
  degrade_low_priority_with_warning, fail, new_candidate, admit, mixed, whole_admission, degraded,
  is_fixed, removable, rejected_keys,
}
use crytpo_data.Selection.Capacity.Admits.{Admits, admit-Admits, admit-err}
use crytpo_data.Selection.Capacity.Lowest.{RejectsLowest, admit-lowest}
use crytpo_data.Selection.Capacity.Exchange.{
  CatalogScope, ScopedCapacityDemand, ExchangeCapacityAdmission, admit_scopes, allocate,
  with_policy, admit_exchange_capacity, connections,
}
use crytpo_data.Selection.Capacity.Exchange.Rounds.{demands_of}
use crytpo_data.Selection.Capacity.Exchange.Shares.{IsDemand, Refuses}
use crytpo_data.Selection.Capacity.Exchange.Within.{
  final_allocations, IsDivided, admit_exchange_capacity-IsDivided,
}
use crytpo_data.Selection.Capacity.Egress.{
  EgressCapacity, calculate_egress_capacity, calculate_egress_capacity-fits,
}

abbrev digest : String
digest = "0123456789abcdef0123456789abcdef0123456789abcdef0123456789abcdef"

abbrev first_of_top : CapacityCandidate
first_of_top = record {
  instrument_key = "ETH";
  priority = top_n;
  first_seen_ns = 5;
  top_n_rank = some 1;
}

abbrev third_of_top : CapacityCandidate
third_of_top = record {
  instrument_key = "DOGE";
  priority = top_n;
  first_seen_ns = 4;
  top_n_rank = some 3;
}

abbrev listed : CapacityCandidate
listed = record {
  instrument_key = "NEW";
  priority = new_listing;
  first_seen_ns = 9;
  top_n_rank = none;
}

abbrev fixed_pair : CapacityCandidate
fixed_pair = record {
  instrument_key = "BTC";
  priority = fixed;
  first_seen_ns = 1;
  top_n_rank = none;
}

abbrev candidates : List CapacityCandidate
candidates = first_of_top ∷ third_of_top ∷ listed ∷ fixed_pair ∷ []

test-candidate : new_candidate "ETH" top_n 5 none ≡ err value_error
unfolding new_candidate
test-candidate = refl

digest-valid : checked_sha256 digest ≡ ok digest
unfolding checked_sha256
digest-valid = refl

-- Two slots for four: the two of the top go, the third of them first.
test-rejected : rejected_keys 2 candidates ≡ "DOGE" ∷ "ETH" ∷ []
unfolding rejected_keys removable
test-rejected = refl

test-admitted : (degraded candidates 2 digest).admitted ≡ "BTC" ∷ "NEW" ∷ []
unfolding degraded rejected_keys removable
test-admitted = refl

admit-Admits_example :
    (a : CapacityAdmission) × (admit candidates 2 digest degrade_low_priority_with_warning ≡ ok a)
    × Admits candidates 2 a
admit-Admits_example = admit-Admits candidates 2 digest refl digest-valid refl refl (omega arith)

admit-err_example :
    (admit candidates 2 digest fail ≡ err capacity_error)
    ↔ ((2 < count is_fixed candidates) ⊎ ((2 < length candidates) × (fail ≡ fail)))
admit-err_example = admit-err candidates 2 digest refl digest-valid refl fail

admitted :
    admit candidates 2 digest degrade_low_priority_with_warning ≡ ok (degraded candidates 2 digest)
unfolding admit checked_sha256
admitted = refl

admit-lowest_example : RejectsLowest candidates (degraded candidates 2 digest)
admit-lowest_example =
    admit-lowest candidates 2 digest degrade_low_priority_with_warning
      (degraded candidates 2 digest) admitted

abbrev egress_a : Egress
egress_a = record {
  id = "a";
  quota_group = "group";
  max_ws_connections = 2;
  max_http_concurrency = 1;
}

abbrev egress_b : Egress
egress_b = record {
  id = "b";
  quota_group = "group";
  max_ws_connections = 3;
  max_http_concurrency = 1;
}

calculate_egress_capacity-fits_example :
    (c : EgressCapacity) × (calculate_egress_capacity "okx"
        (egress_b ∷ egress_a ∷ [])
        ("b" ∷ "a" ∷ [])
        10
        3
      ≡ ok c)
    × (c.healthy_egress_ids ≡ "a" ∷ "b" ∷ [])
    × (c.instrument_slots * c.subscriptions_per_instrument ≤ c.ws_subscription_slots)
calculate_egress_capacity-fits_example =
    calculate_egress_capacity-fits "okx" (egress_b ∷ egress_a ∷ []) ("b" ∷ "a" ∷ []) 10 3 refl refl
      refl refl refl refl

abbrev spot_demand : ScopedCapacityDemand
spot_demand = record {
  scope = ("okx", "spot");
  candidates = candidates;
  instruments_per_connection = 2;
  policies =
      ("BTC", fail)
      ∷ ("DOGE", degrade_low_priority_with_warning)
      ∷ ("ETH", degrade_low_priority_with_warning)
      ∷ ("NEW", degrade_low_priority_with_warning)
      ∷ [];
}

abbrev swap_demand : ScopedCapacityDemand
swap_demand = record {
  scope = ("okx", "perpetual");
  candidates = first_of_top ∷ [];
  instruments_per_connection = 1;
  policies = ("ETH", degrade_low_priority_with_warning) ∷ [];
}

abbrev demands : List ScopedCapacityDemand
demands = spot_demand ∷ swap_demand ∷ []

-- Of two connections the spot scope has one for its fixed pair. The first candidates of both scopes are
-- then equal, and spot gets the other, since it has a second one.
test-allocations : final_allocations demands 2 ≡ (swap_demand, 0) ∷ (spot_demand, 2) ∷ []
unfolding allocate
test-allocations = refl

abbrev admissions : Dict CatalogScope CapacityAdmission
admissions =
    (("okx", "perpetual"), degraded (first_of_top ∷ []) 0 digest)
    ∷ (
      ("okx", "spot"),
      with_policy mixed (whole_admission candidates 4 digest degrade_low_priority_with_warning),
    )
    ∷ []

admitted-scopes : admit_scopes digest (final_allocations demands 2) ≡ ok admissions
unfolding admit_scopes allocate admit checked_sha256 degraded whole_admission rejected_keys
    removable
admitted-scopes = refl

spot-IsDemand : IsDemand 2 spot_demand
spot-IsDemand = record {
  keys_differ = refl;
  all_ranked = refl;
  some_slots = omega arith;
  in_range = omega arith;
  covered = refl;
}

swap-IsDemand : IsDemand 2 swap_demand
swap-IsDemand = record {
  keys_differ = refl;
  all_ranked = refl;
  some_slots = omega arith;
  in_range = omega arith;
  covered = refl;
}

admit_exchange_capacity-IsDivided_example :
    ((r : ExchangeCapacityAdmission) × (admit_exchange_capacity demands 2 digest ≡ ok r)
      × IsDivided (swap_demand ∷ spot_demand ∷ []) 2 r)
    ⊎ ((admit_exchange_capacity demands 2 digest ≡ err capacity_error)
        × (demands_of (final_allocations demands 2) ≡ swap_demand ∷ spot_demand ∷ [])
        × (connections (final_allocations demands 2) ≤ 2)
        × Refuses digest (final_allocations demands 2))
admit_exchange_capacity-IsDivided_example =
    admit_exchange_capacity-IsDivided demands 2 digest refl digest-valid refl refl
      (spot-IsDemand, (swap-IsDemand, tt)) (omega arith)
