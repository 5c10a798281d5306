-- ===== src/Selection/Capacity.antt =====
-- selection/capacity.py: the candidates of a selection, the capacity of healthy egresses, and which
-- candidates `admit` takes when there are more of them than slots.
pub mod Counts
pub mod Admits
pub mod Lowest
pub mod Egress
pub mod Exchange
use crytpo_data.Shared.{
  ℕ, ◌+◌, ◌-◌, ◌*◌, ◌/◌, ◌^◌, Bool, true, false, ◌&&◌, ◌||◌, not, Option, none, some, List, [], ◌∷◌,
  String, str_eq, str_leb, leb, ltb, ◌==◌, if◌then◌else◌, map, filter_by, any, length, take, count,
  sum_by, sort_by, repeats, contains, Result, ok, err, value_error, capacity_error, assertion_error,
  ◌>>=◌, ◌>>◌, raise_if, string_eq,
}
use crytpo_data.Storage.Ingress.{checked_sha256}

-- `AdmissionPriority`
pub data AdmissionPriority : Type 0 where
  top_n new_listing fixed : AdmissionPriority

-- `CapacityPolicy` and `AdmissionPolicy`
pub data CapacityPolicy : Type 0 where
  degrade_low_priority_with_warning fail : CapacityPolicy

pub data AdmissionPolicy : Type 0 where
  uniform : CapacityPolicy → AdmissionPolicy
  mixed : AdmissionPolicy

-- `_integer`
abbrev pub bounded_integer : (minimum value : ℕ) → Result (Unit {0})
bounded_integer minimum value = raise_if (ltb value minimum || not (ltb value (2 ^ 63))) value_error

pub record CapacityCandidate : Type 0 where
  pub instrument_key : String
  pub priority : AdmissionPriority
  pub first_seen_ns : ℕ
  pub top_n_rank : Option ℕ

abbrev pub is_top_n : AdmissionPriority → Bool
is_top_n top_n = true
is_top_n _ = false

abbrev pub is_fixed_priority : AdmissionPriority → Bool
is_fixed_priority fixed = true
is_fixed_priority _ = false

abbrev pub is_fixed : CapacityCandidate → Bool
is_fixed c = is_fixed_priority c.priority

abbrev pub check_rank : Option ℕ → Result (Unit {0})
check_rank none = ok tt
check_rank (some rank) = bounded_integer 1 rank

abbrev pub is_missing : Option ℕ → Bool
is_missing none = true
is_missing (some _) = false

-- `CapacityCandidate.__init__`
unfoldable pub new_candidate :
    (instrument_key : String)
    → AdmissionPriority
    → (first_seen_ns : ℕ) → (top_n_rank : Option ℕ) → Result CapacityCandidate
new_candidate instrument_key priority first_seen_ns top_n_rank = do
  raise_if (str_eq instrument_key "") value_error
  bounded_integer 0 first_seen_ns
  check_rank top_n_rank
  raise_if (is_top_n priority && is_missing top_n_rank) value_error
  raise_if (not (is_top_n priority) && not (is_missing top_n_rank)) value_error
  ok (record {
    instrument_key = instrument_key;
    priority = priority;
    first_seen_ns = first_seen_ns;
    top_n_rank = top_n_rank;
  })

pub record CapacityWarning : Type 0 where
  pub rejected : List String
  pub required_slots : ℕ
  pub available_slots : ℕ
  pub config_sha256 : String

pub record CapacityAdmission : Type 0 where
  pub admitted : List String
  pub rejected : List String
  pub required_slots : ℕ
  pub available_slots : ℕ
  pub policy : AdmissionPolicy
  pub config_sha256 : String
  pub warning : Option CapacityWarning

abbrev pub keys_of : List CapacityCandidate → List String
keys_of cs = map (λ (c : CapacityCandidate). c.instrument_key) cs

-- The assertion of the two orders fails at a candidate of the top that has no rank.
abbrev pub is_unranked : CapacityCandidate → Bool
is_unranked c = is_top_n c.priority && is_missing c.top_n_rank

abbrev pub rank_of : Option ℕ → ℕ
rank_of none = 0
rank_of (some rank) = rank

-- `_admission_order`
abbrev pub admission_order : CapacityCandidate → ℕ × ℕ × String
admission_order c = elim c.priority [
  | fixed ↦ (0, 0, c.instrument_key)
  | new_listing ↦ (1, c.first_seen_ns, c.instrument_key)
  | top_n ↦ (2, rank_of c.top_n_rank, c.instrument_key)
]

abbrev pub order_leb : ℕ × ℕ × String → ℕ × ℕ × String → Bool
order_leb (a, n, k) (b, m, l) = ltb a b || a == b && (ltb n m || n == m && str_leb k l)

abbrev pub admitted_before : CapacityCandidate → CapacityCandidate → Bool
admitted_before c d = order_leb (admission_order c) (admission_order d)

-- `_eviction_order`, with the number in the middle before its sign is changed
abbrev pub eviction_order : CapacityCandidate → ℕ × ℕ × String
eviction_order c = elim c.priority [
  | top_n ↦ (0, rank_of c.top_n_rank, c.instrument_key)
  | new_listing ↦ (1, c.first_seen_ns, c.instrument_key)
  | fixed ↦ (2, 0, c.instrument_key)
]

abbrev pub eviction_leb : ℕ × ℕ × String → ℕ × ℕ × String → Bool
eviction_leb (a, n, k) (b, m, l) = ltb a b || a == b && (ltb m n || n == m && str_leb k l)

abbrev pub evicted_before : CapacityCandidate → CapacityCandidate → Bool
evicted_before c d = eviction_leb (eviction_order c) (eviction_order d)

-- `removable` and `rejected_keys` of `admit`
unfoldable pub removable : List CapacityCandidate → List CapacityCandidate
removable cs = sort_by evicted_before (filter_by (λ c. not (is_fixed c)) cs)

unfoldable pub rejected_keys : (available : ℕ) → List CapacityCandidate → List String
rejected_keys available cs = keys_of (take (length cs - available) (removable cs))

unfoldable pub degraded :
    List CapacityCandidate → (available : ℕ) → (config_sha256 : String) → CapacityAdmission
degraded cs available config_sha256 =
    let out = rejected_keys available cs in
    record {
      admitted = keys_of (
          filter_by (λ (c : CapacityCandidate). not (contains out c.instrument_key))
            (sort_by admitted_before cs));
      rejected = out;
      required_slots = length cs;
      available_slots = available;
      policy = uniform degrade_low_priority_with_warning;
      config_sha256 = config_sha256;
      warning = some (record {
        rejected = out;
        required_slots = length cs;
        available_slots = available;
        config_sha256 = config_sha256;
      });
    }

unfoldable pub whole_admission :
    List CapacityCandidate
    → (available : ℕ) → (config_sha256 : String) → CapacityPolicy
    → CapacityAdmission
whole_admission cs available config_sha256 policy = record {
  admitted = keys_of (sort_by admitted_before cs);
  rejected = [];
  required_slots = length cs;
  available_slots = available;
  policy = uniform policy;
  config_sha256 = config_sha256;
  warning = none;
}

abbrev pub shortfall :
    List CapacityCandidate
    → (available : ℕ) → (config_sha256 : String) → CapacityPolicy
    → Result CapacityAdmission
shortfall cs available config_sha256 fail = err capacity_error
shortfall cs available config_sha256 degrade_low_priority_with_warning =
    raise_if (any is_unranked cs) assertion_error >> ok (degraded cs available config_sha256)

-- `admit`
unfoldable pub admit :
    List CapacityCandidate
    → (slots : ℕ) → (config_sha256 : String) → CapacityPolicy
    → Result CapacityAdmission
unfolding whole_admission
admit cs slots config_sha256 policy = do
  bounded_integer 0 slots
  digest ← checked_sha256 config_sha256
  raise_if (repeats (keys_of cs)) value_error
  raise_if (ltb slots (count is_fixed cs)) capacity_error
  if leb (length cs) slots
      then raise_if (any is_unranked cs) assertion_error
        >> ok (whole_admission cs slots digest policy)
      else shortfall cs slots digest policy
