-- ===== src/Scheduler/Interval.antt =====
-- `solve_interval` of scheduler/rest.py: the interval at which the jobs fit the token rate.
pub mod Least
use crytpo_data.Shared.{
  ℕ, ◌*◌, max, Bool, true, false, Option, none, some, ltb, ◌==◌, if◌then◌else◌, Result, ok, err,
  value_error, capacity_error, ◌>>=◌, ◌>>◌, raise_if,
}
use crytpo_data.Shared.Decimal.{Decimal, den}
use crytpo_data.Network.Bucket.{DecimalInput, decimal_input, ceil_ratio}

-- `OverloadPolicy`
pub data OverloadPolicy : Type 0 where
  stretch_with_warning fail : OverloadPolicy

pub record IntervalWarning : Type 0 where
  pub requested_ns : ℕ
  pub effective_ns : ℕ
  pub affected_symbols : ℕ

pub record IntervalPlan : Type 0 where
  pub requested_ns : ℕ
  pub effective_ns : ℕ
  pub warning : Option IntervalWarning

abbrev pub unchanged : ℕ → IntervalPlan
unchanged requested = record { requested_ns = requested; effective_ns = requested; warning = none }

-- The interval that the token rate allows.
unfoldable pub required_ns : (jobs : ℕ) (cost available : Decimal) → ℕ
required_ns jobs cost available =
    ceil_ratio (jobs * cost.coeff * den available * 1_000_000_000) (den cost * available.coeff)

-- The end of `solve_interval`, from the required interval on.
unfoldable pub fit_interval :
    (requested jobs required maximum : ℕ) → OverloadPolicy → Result IntervalPlan
fit_interval requested jobs required maximum policy =
    let effective = max requested required in
    if ltb maximum effective
    then err capacity_error
    else if effective == requested
    then ok (unchanged requested)
    else elim policy [
      | fail ↦ err capacity_error
      | stretch_with_warning ↦ ok (record {
        requested_ns = requested;
        effective_ns = effective;
        warning = some (record {
          requested_ns = requested;
          effective_ns = effective;
          affected_symbols = jobs;
        });
      })
    ]

-- `solve_interval`, once the arguments are accepted.
unfoldable pub solve_accepted :
    (requested_ns jobs : ℕ)
    → (cost available : Decimal) → OverloadPolicy
    → (max_effective_ns : ℕ) → Result IntervalPlan
solve_accepted requested_ns jobs cost available policy max_effective_ns =
    if jobs == 0
    then ok (unchanged requested_ns)
    else if available.coeff == 0
    then err capacity_error
    else fit_interval requested_ns jobs (required_ns jobs cost available) max_effective_ns policy

unfoldable pub solve_interval :
    (requested_ns jobs : ℕ)
    → (cost available_tokens_per_second : DecimalInput) → OverloadPolicy
    → (max_effective_ns : ℕ) → Result IntervalPlan
unfolding decimal_input
solve_interval requested_ns jobs cost available_tokens_per_second policy max_effective_ns = do
  raise_if (requested_ns == 0) value_error
  normalized_cost ← decimal_input cost false
  available ← decimal_input available_tokens_per_second true
  raise_if (max_effective_ns == 0) value_error
  raise_if (ltb max_effective_ns requested_ns) capacity_error
  solve_accepted requested_ns jobs normalized_cost available policy max_effective_ns
