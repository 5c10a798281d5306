-- ===== src/Scheduler/Job.antt =====
-- The REST jobs of scheduler/models.py. The scheduler only compares control contexts, so a context
-- stands as a text that names its class under Python's `==`: two contexts have the same text exactly
-- when they are equal mappings, where 1, True and Decimal("1.0") are equal values.
use crytpo_data.Domain.Envelope.{SourceContext}
use crytpo_data.Shared.{
  ℕ, Bool, true, false, ◌&&◌, ◌||◌, not, Option, none, some, List, [], ◌∷◌, String, str_eq, ◌==◌,
  ltb, length, Result, ok, err, value_error, ◌>>◌, raise_if, ◌=?◌, string_eq, pair_eq, list_eq,
  nat_eq, contains, any, map, filter_by, list_beq,
}
use crytpo_data.Shared.Decimal.{Decimal, decimal_leb}
use crytpo_data.Network.Budgets.{BudgetKey, is_valid_key}

pub data RestPriority : Type 0 where
  live_bootstrap catalog_status_time core_derivative deep_snapshot reference_data : RestPriority

-- `int(priority)`
abbrev pub rank : RestPriority → ℕ
rank live_bootstrap = 0
rank catalog_status_time = 1
rank core_derivative = 2
rank deep_snapshot = 3
rank reference_data = 4

pub record RestBudgetRoute : Type 0 where
  pub egress_id : String
  pub budget_key : BudgetKey

pub record RestIntervalContext : Type 0 where
  pub requested_interval_ns : ℕ
  pub effective_interval_ns : ℕ
  pub change_event_id : Option String

pub record RestJob : Type 0 where
  pub id : String
  pub priority : RestPriority
  pub routes : List RestBudgetRoute
  pub endpoint_cost : Decimal
  pub ready_monotonic_ns : ℕ
  pub deadline_ns : Option ℕ
  pub interval : Option RestIntervalContext
  pub generation_source : Option SourceContext
  pub attempt : ℕ
  pub logical_key : Option (List String)
  pub replaceable : Bool
  pub scheduled_ns : ℕ
  pub control_context : String

-- `RestIntervalContext.__post_init__`
abbrev is_empty_text : Option String → Bool
is_empty_text none = false
is_empty_text (some s) = str_eq s ""

unfoldable pub check_interval : RestIntervalContext → Result (Unit {0})
check_interval i = do
  raise_if (i.requested_interval_ns == 0 || i.effective_interval_ns == 0) value_error
  raise_if (ltb i.effective_interval_ns i.requested_interval_ns) value_error
  raise_if (is_empty_text i.change_event_id) value_error

abbrev pub egress_ids : RestJob → List String
egress_ids job = map (λ r. r.egress_id) job.routes

abbrev pub all_distinct : List String → Bool
all_distinct [] = true
all_distinct (x ∷ xs) = not (contains xs x) && all_distinct xs

-- All routes have the exchange and the endpoint of the first.
abbrev same_scope : RestBudgetRoute → RestBudgetRoute → Bool
same_scope a b = str_eq a.budget_key.0 b.budget_key.0 && str_eq a.budget_key.1.1 b.budget_key.1.1

abbrev one_scope : List RestBudgetRoute → Bool
one_scope [] = true
one_scope (r ∷ rs) = not (any (λ s. not (same_scope r s)) rs)

-- `source.egress_id == egress_id`
abbrev pub names_egress : SourceContext → String → Bool
names_egress source id = elim source.egress_id [ none ↦ false | some e ↦ str_eq e id ]

-- The rules on the generation source.
unfoldable pub check_source : RestJob → Result (Unit {0})
check_source job = elim job.generation_source [
  | none ↦ elim job.priority [ live_bootstrap ↦ err value_error | _ ↦ ok tt ]
  | some source ↦ elim source.connection_id [
    | none ↦ err value_error
    | some _ ↦ raise_if (not (any (names_egress source) (egress_ids job))) value_error
  ]
]

abbrev may_be_replaceable : RestPriority → Bool
may_be_replaceable deep_snapshot = true
may_be_replaceable reference_data = true
may_be_replaceable _ = false

abbrev is_none {ℓ} : {A : Type ℓ} → Option A → Bool
is_none none = true
is_none (some _) = false

abbrev has_empty : Option (List String) → Bool
has_empty none = false
has_empty (some []) = true
has_empty (some (x ∷ xs)) = any (λ s. str_eq s "") (x ∷ xs)

-- `RestJob.__post_init__`, and that of each route
unfoldable pub check_job : RestJob → Result (Unit {0})
unfolding check_source
check_job job = do
  raise_if (str_eq job.id "") value_error
  raise_if (length job.routes == 0) value_error
  raise_if (any (λ r. str_eq r.egress_id "" || not (is_valid_key r.budget_key)) job.routes)
      value_error
  raise_if (not (all_distinct (egress_ids job))) value_error
  raise_if (not (one_scope job.routes)) value_error
  raise_if (job.endpoint_cost.coeff == 0) value_error
  check_source job
  raise_if (job.attempt == 0) value_error
  raise_if (has_empty job.logical_key) value_error
  raise_if (job.replaceable && (is_none job.logical_key || not (may_be_replaceable job.priority)))
      value_error

-- `==` of two jobs, field by field.
module _ {A : Type 0} where
  abbrev option_beq : (A → A → Bool) → Option A → Option A → Bool
  option_beq f none none = true
  option_beq f (some a) (some b) = f a b
  option_beq f _ _ = false

abbrev decimal_beq : Decimal → Decimal → Bool
decimal_beq a b = decimal_leb a b && decimal_leb b a

abbrev route_beq : RestBudgetRoute → RestBudgetRoute → Bool
route_beq a b = str_eq a.egress_id b.egress_id && a.budget_key =? b.budget_key

abbrev routes_beq : List RestBudgetRoute → List RestBudgetRoute → Bool
routes_beq [] [] = true
routes_beq (a ∷ as') (b ∷ bs) = route_beq a b && routes_beq as' bs
routes_beq _ _ = false

abbrev interval_beq : RestIntervalContext → RestIntervalContext → Bool
interval_beq a b =
    a.requested_interval_ns == b.requested_interval_ns
    && (a.effective_interval_ns == b.effective_interval_ns
        && option_beq str_eq a.change_event_id b.change_event_id)

abbrev source_beq : SourceContext → SourceContext → Bool
source_beq a b =
    option_beq str_eq a.connection_id b.connection_id
    && (option_beq ◌==◌ a.connection_generation b.connection_generation
        && option_beq str_eq a.egress_id b.egress_id)

abbrev bool_beq : Bool → Bool → Bool
bool_beq true b = b
bool_beq false b = not b

unfoldable pub job_beq : RestJob → RestJob → Bool
job_beq a b =
    str_eq a.id b.id
    && (rank a.priority == rank b.priority
        && (routes_beq a.routes b.routes
            && (decimal_beq a.endpoint_cost b.endpoint_cost
                && (a.ready_monotonic_ns == b.ready_monotonic_ns
                    && (option_beq ◌==◌ a.deadline_ns b.deadline_ns
                        && (option_beq interval_beq a.interval b.interval
                            && (option_beq source_beq a.generation_source b.generation_source
                                && (a.attempt == b.attempt
                                    && (option_beq list_beq a.logical_key b.logical_key
                                        && (bool_beq a.replaceable b.replaceable
                                            && (a.scheduled_ns == b.scheduled_ns
                                                && str_eq a.control_context
                                                    b.control_context)))))))))))

-- `tuple(dict.fromkeys(keys))`: each key once, at its first place.
abbrev without_repeats : List BudgetKey → List BudgetKey → List BudgetKey
without_repeats seen [] = []
without_repeats seen (k ∷ ks) = elim (contains seen k) [
  | true ↦ without_repeats seen ks
  | false ↦ k ∷ without_repeats (k ∷ seen) ks
]

-- `eligible_egress_ids` is `egress_ids`; `budget_keys` of the job, and of a part of its routes
unfoldable pub route_keys : List RestBudgetRoute → List BudgetKey
route_keys routes = without_repeats [] (map (λ r. r.budget_key) routes)

-- `RestScheduler._eligible_routes`
unfoldable pub eligible_routes : RestJob → List RestBudgetRoute
eligible_routes job = elim job.generation_source [
  | none ↦ job.routes
  | some source ↦ filter_by (λ r. names_egress source r.egress_id) job.routes
]

pub record RestDispatch : Type 0 where
  pub job : RestJob
  pub route : RestBudgetRoute
  pub dispatched_monotonic_ns : ℕ

-- `RestDispatch.__post_init__`
unfoldable pub check_dispatch : RestDispatch → Result (Unit {0})
check_dispatch d = do
  raise_if (not (any (route_beq d.route) d.job.routes)) value_error
  elim d.job.generation_source [
    | none ↦ ok tt
    | some source ↦ raise_if (not (names_egress source d.route.egress_id)) value_error
  ]
