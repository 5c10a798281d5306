-- ===== src/Network/Budgets.antt =====
-- `BudgetRegistry` of network/rate_limit.py: the buckets by exchange, quota group and endpoint. A
-- method returns the registry as it left it, also when it raises.
pub mod First
use crytpo_data.Shared.{
  ℕ, Bool, true, false, ◌&&◌, ◌||◌, not, Option, none, some, List, [], ◌∷◌, String, str_eq, ◌==◌,
  if◌then◌else◌, Result, ok, err, value_error, key_error, Dict, lookup, insert, contains, Eq,
  string_eq, pair_eq,
}
use crytpo_data.Network.Bucket.{
  TokenBucket, DecimalInput, new_bucket, try_acquire, ready_at_ns, observe_available, shrink,
  set_refill_multiplier,
}

-- Exchange, quota group and endpoint.
abbrev pub BudgetKey : Type 0
BudgetKey = String × (String × String)

abbrev pub Registry : Type 0
Registry = Dict BudgetKey TokenBucket

abbrev pub Call : Type 0 → Type 0
Call A = Registry → Result A × Registry

-- `_validate_key`: no part is empty.
abbrev pub is_valid_key : BudgetKey → Bool
is_valid_key (e, (q, p)) = not (str_eq e "") && (not (str_eq q "") && not (str_eq p ""))

-- `BudgetRegistry.add`
unfoldable pub add :
    BudgetKey → (capacity refill_per_second : DecimalInput) → (clock : ℕ) → Call TokenBucket
add key capacity refill_per_second clock r =
    if not (is_valid_key key) then (err value_error, r) else elim (lookup key r) [
      | some _ ↦ (err value_error, r)
      | none ↦ elim (new_bucket capacity refill_per_second clock) [
        | err e ↦ (err e, r)
        | ok b ↦ (ok b, insert key b r)
      ]
    ]

-- `BudgetRegistry.bucket`
unfoldable pub bucket : BudgetKey → Registry → Result TokenBucket
bucket key r =
    if not (is_valid_key key)
    then err value_error
    else elim (lookup key r) [ none ↦ err key_error | some b ↦ ok b ]

-- A call of a method of `self.bucket(key)`.
unfoldable pub with_bucket :
    {A : Type 0} → BudgetKey → (TokenBucket → Result A × TokenBucket) → Call A
unfolding bucket
with_bucket key method r = elim (bucket key r) [
  | err e ↦ (err e, r)
  | ok b ↦ let (x, b') = method b in (x, insert key b' r)
]

abbrev pub or_else : Option DecimalInput → DecimalInput → DecimalInput
or_else none d = d
or_else (some x) _ = x

-- `BudgetRegistry.try_acquire`
unfoldable pub registry_try_acquire :
    BudgetKey
    → (cost : DecimalInput) → (default_capacity default_refill_per_second : Option DecimalInput)
    → (clock : ℕ) → (now_ns : Option ℕ) → Call Bool
unfolding with_bucket add
registry_try_acquire key cost default_capacity default_refill clock now_ns r =
    if not (is_valid_key key) then (err value_error, r) else elim (lookup key r) [
      | some _ ↦ with_bucket key (try_acquire cost clock now_ns) r
      | none ↦ elim default_capacity [
        | none ↦ (err key_error, r)
        | some capacity ↦
            let (made, r') = add key capacity (or_else default_refill capacity) clock r in
            elim made [
              | err e ↦ (err e, r')
              | ok _ ↦ with_bucket key (try_acquire cost clock now_ns) r'
            ]
      ]
    ]

-- `BudgetRegistry.ready_at_ns`, `observe_available`, `shrink` and `set_refill_multiplier`
unfoldable pub registry_ready_at_ns :
    BudgetKey → (cost : DecimalInput) → (clock : ℕ) → (now_ns : Option ℕ) → Call (Option ℕ)
registry_ready_at_ns key cost clock now_ns = with_bucket key (ready_at_ns cost clock now_ns)

unfoldable pub registry_observe_available : BudgetKey → (raw : List ℕ) → (clock : ℕ) → Call Bool
registry_observe_available key raw clock =
    with_bucket key (λ b. let (seen, b') = observe_available raw clock b in (ok seen, b'))

unfoldable pub registry_shrink :
    BudgetKey → (multiplier floor : DecimalInput) → (clock : ℕ) → Call (Unit {0})
registry_shrink key multiplier floor clock = with_bucket key (shrink multiplier floor clock)

unfoldable pub registry_set_refill_multiplier :
    BudgetKey → (multiplier floor : DecimalInput) → (clock : ℕ) → Call (Unit {0})
registry_set_refill_multiplier key multiplier floor clock =
    with_bucket key (set_refill_multiplier multiplier floor clock)

-- The loop of `try_acquire_one`; `seen` holds the keys tried before.
unfoldable pub acquire_first :
    (cost : DecimalInput)
    → (clock : ℕ) → (now_ns : Option ℕ) → (seen keys : List BudgetKey) → Call (Option BudgetKey)
unfolding with_bucket
acquire_first cost clock now_ns seen [] r = (ok none, r)
acquire_first cost clock now_ns seen (key ∷ keys) r = elim (is_valid_key key) [
  | false ↦ (err value_error, r)
  | true ↦ elim (contains seen key) [
    | true ↦ acquire_first cost clock now_ns seen keys r
    | false ↦
        let (x, r') = with_bucket key (try_acquire cost clock now_ns) r in
        elim x [
          | err e ↦ (err e, r')
          | ok true ↦ (ok (some key), r')
          | ok false ↦ acquire_first cost clock now_ns (key ∷ seen) keys r'
        ]
  ]
]

-- `BudgetRegistry.try_acquire_one`
unfoldable pub try_acquire_one :
    (keys : List BudgetKey)
    → (cost : DecimalInput) → (clock : ℕ) → (now_ns : Option ℕ) → Call (Option BudgetKey)
unfolding acquire_first
try_acquire_one [] cost clock now_ns r = (err value_error, r)
try_acquire_one (key ∷ keys) cost clock now_ns r = acquire_first cost clock now_ns [] (key ∷ keys) r
