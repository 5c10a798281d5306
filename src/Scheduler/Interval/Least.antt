-- ===== src/Scheduler/Interval/Least.antt =====
-- The intervals that `solve_interval` of scheduler/rest.py may return.
use native.Mathlib.Nat.{mul-pos}
use crytpo_data.Shared.{
  ℕ, ◌*◌, ◌≤◌, ◌<◌, ◌≡◌, refl, ap, ◌↔◌, ◌⊎◌, max, inl, inr, true, false, none, Result, Error, ok,
  err, capacity_error, arith, ltb, ltb→lt, ltb-false, ◌==◌, Bool-cases,
}
use crytpo_data.Shared.Decimal.{
  Decimal, den, den-pos, of_int, Le, times, coeff-times, den-times, den-of_int,
}
use crytpo_data.Network.Bucket.{finite, replenished}
use crytpo_data.Network.Bucket.Ready.{ceil_ratio-le_iff, coeff-replenished, den-replenished}
use crytpo_data.Scheduler.Interval.{
  OverloadPolicy, stretch_with_warning, fail, IntervalPlan, unchanged, required_ns, fit_interval,
  solve_accepted, solve_interval,
}

-- The jobs of one interval cost no more than the tokens that come in during it.
abbrev pub Fits : (jobs : ℕ) (cost rate : Decimal) → ℕ → Type 0
Fits jobs cost rate interval = Le (times (of_int jobs) cost) (replenished rate interval)

-- The required interval is within a bound exactly when that bound fits.
required_ns-le_iff :
    (jobs : ℕ) (cost rate : Decimal) (e : ℕ)
    → 0 < rate.coeff
    → (required_ns jobs cost rate ≤ e) ↔ Fits jobs cost rate e
unfolding required_ns
required_ns-le_iff jobs cost rate e pos =
    let q =
      ceil_ratio-le_iff (jobs * cost.coeff * den rate * 1_000_000_000) (den cost * rate.coeff) e
        (mul-pos (den-pos cost) pos) in
    simp (coeff-times, den-times, den-of_int, coeff-replenished, den-replenished)
      (λ p. let r = q.0 p in omega arith, λ p. q.1 (omega arith))

billion-pos : 0 < 1_000_000_000
billion-pos = omega arith

-- With no tokens coming in, no work fits.
not-Fits_zero :
    (jobs : ℕ) (cost rate : Decimal) (e : ℕ)
    → 0 < jobs
    → 0 < cost.coeff
    → rate.coeff ≡ 0
    → ¬ Fits jobs cost rate e
not-Fits_zero jobs cost rate e pj pc z h =
    let p = mul-pos (mul-pos (mul-pos pj pc) (den-pos rate)) billion-pos in
    let w = simp (coeff-times, den-times, den-of_int, coeff-replenished, den-replenished) at h in
    let none_left = ap (λ (y : ℕ). y * e * (1 * den cost)) z in omega arith

Fits-none : (cost rate : Decimal) (e : ℕ) → Fits 0 cost rate e
Fits-none cost rate e = simp (coeff-times) (omega arith)

-- A plan is the least interval that fits, from the requested one up to the maximum, and it warns
-- exactly when it stretches.
abbrev pub IsLeast :
    (requested jobs : ℕ) (cost rate : Decimal) (maximum : ℕ) → IntervalPlan → Type 0
IsLeast requested jobs cost rate maximum plan =
    (requested ≤ plan.effective_ns)
    × (plan.effective_ns ≤ maximum)
    × Fits jobs cost rate plan.effective_ns
    × ((e : ℕ) → requested ≤ e → Fits jobs cost rate e → plan.effective_ns ≤ e)
    × ((plan.warning ≡ none) ↔ (plan.effective_ns ≡ requested))

fit_interval-ok :
    (requested jobs required maximum : ℕ) (policy : OverloadPolicy) (plan : IntervalPlan)
    → fit_interval requested jobs required maximum policy ≡ ok plan
    → (plan.effective_ns ≡ max requested required)
      × (plan.effective_ns ≤ maximum)
      × ((plan.warning ≡ none) ↔ (plan.effective_ns ≡ requested))
unfolding fit_interval
fit_interval-ok requested jobs required maximum policy plan h = ground arith

fit_interval-err :
    (requested jobs required maximum : ℕ) (policy : OverloadPolicy) (error : Error)
    → fit_interval requested jobs required maximum policy ≡ err error
    → (error ≡ capacity_error)
      × ((policy ≡ fail) × (requested < required) ⊎ (maximum < max requested required))
unfolding fit_interval
fit_interval-err requested jobs required maximum stretch_with_warning error h = ground arith
fit_interval-err requested jobs required maximum fail error h = ground arith

-- What a refusal means: nothing up to the maximum fits, or the policy forbids to stretch.
abbrev pub Unsolvable :
    (requested jobs : ℕ) (cost rate : Decimal) (maximum : ℕ) → OverloadPolicy → Type 0
Unsolvable requested jobs cost rate maximum policy =
    (policy ≡ fail) × ¬ Fits jobs cost rate requested
    ⊎ ((e : ℕ) → e ≤ maximum → ¬ Fits jobs cost rate e)

module _ (requested jobs : ℕ) (cost rate : Decimal) (policy : OverloadPolicy) (maximum : ℕ)
    (paid : 0 < cost.coeff) (allowed : requested ≤ maximum) where
  fit_interval-IsLeast :
      (plan : IntervalPlan)
      → 0 < rate.coeff
      → fit_interval requested jobs (required_ns jobs cost rate) maximum policy ≡ ok plan
      → IsLeast requested jobs cost rate maximum plan
  fit_interval-IsLeast plan pos h =
      let (e, small, warns) = fit_interval-ok requested jobs _ maximum policy plan h in
      let q = λ (n : ℕ). required_ns-le_iff jobs cost rate n pos in
      (
        omega arith,
        small,
        (q plan.effective_ns).0 (omega arith),
        λ n r f. let w = (q n).1 f in omega arith,
        warns,
      )

  solve_accepted-IsLeast :
      (plan : IntervalPlan)
      → solve_accepted requested jobs cost rate policy maximum ≡ ok plan
      → IsLeast requested jobs cost rate maximum plan
  unfolding solve_accepted
  solve_accepted-IsLeast plan h = elim (Bool-cases (jobs == 0)) [
    | inl idle ↦
        let none_left : jobs ≡ 0 = ground arith in
        let same : unchanged requested ≡ plan = cc (rw (idle, solve_accepted) at h) in
        rw (← same, none_left)
          (omega arith, allowed, Fits-none cost rate requested, λ n r f. r, (λ p. refl, λ p. refl))
    | inr busy ↦ elim (Bool-cases (rate.coeff == 0)) [
      | inl dry ↦ cc (rw (busy, dry, solve_accepted) at h)
      | inr wet ↦ fit_interval-IsLeast plan (ground arith) (rw (busy, wet, solve_accepted) at h)
    ]
  ]

  solve_accepted-Unsolvable :
      (error : Error)
      → solve_accepted requested jobs cost rate policy maximum ≡ err error
      → (error ≡ capacity_error) × Unsolvable requested jobs cost rate maximum policy
  unfolding solve_accepted
  solve_accepted-Unsolvable error h = elim (Bool-cases (jobs == 0)) [
    | inl idle ↦ cc (rw (idle, solve_accepted) at h)
    | inr busy ↦ elim (Bool-cases (rate.coeff == 0)) [
      | inl dry ↦ (
        cc (rw (busy, dry, solve_accepted) at h),
        inr (λ n le. not-Fits_zero jobs cost rate n (ground arith) paid (ground arith)),
      )
      | inr wet ↦
          let pos : 0 < rate.coeff = ground arith in
          let q = λ (n : ℕ). required_ns-le_iff jobs cost rate n pos in
          let (e, why) =
            fit_interval-err requested jobs _ maximum policy error
              (rw (busy, wet, solve_accepted) at h) in
          (
            e,
            elim why [
              | inl (p, short) ↦ inl (p, λ f. let w = (q requested).1 f in omega arith)
              | inr over ↦ inr (λ n le f. let w = (q n).1 f in omega arith)
            ],
          )
    ]
  ]

module _ (requested jobs : ℕ) (cost rate : Decimal) (policy : OverloadPolicy) (maximum : ℕ)
    (pr : 0 < requested) (pc : 0 < cost.coeff) (pm : 0 < maximum) where
  solve_interval-over :
      ltb maximum requested ≡ true
      → solve_interval requested jobs (finite cost) (finite rate) policy maximum
        ≡ err capacity_error
  unfolding solve_interval
  solve_interval-over h = ground arith

  solve_interval-within :
      ltb maximum requested ≡ false
      → solve_interval requested jobs (finite cost) (finite rate) policy maximum
        ≡ solve_accepted requested jobs cost rate policy maximum
  unfolding solve_interval
  solve_interval-within h = ground arith

-- What `solve_interval` may answer.
abbrev pub Solves :
    (requested jobs : ℕ) (cost rate : Decimal) (policy : OverloadPolicy) (maximum : ℕ)
    → Result IntervalPlan
    → Type 0
Solves requested jobs cost rate policy maximum (ok plan) =
    IsLeast requested jobs cost rate maximum plan
Solves requested jobs cost rate policy maximum (err error) =
    (error ≡ capacity_error)
    × ((maximum < requested) ⊎ Unsolvable requested jobs cost rate maximum policy)

-- For a positive requested interval, cost and maximum, a plan is the least interval that fits
-- between the requested one and the maximum, and warns exactly when it stretches; a refusal is a
-- CapacityError, and then the requested interval passes the maximum, or no interval up to the
-- maximum fits, or the policy forbids to stretch and the requested interval does not fit.
pub solve_interval-Solves :
    (requested jobs : ℕ) (cost rate : Decimal) (policy : OverloadPolicy) (maximum : ℕ)
    → 0 < requested
    → 0 < cost.coeff
    → 0 < maximum
    → Solves requested jobs cost rate policy maximum
        (solve_interval requested jobs (finite cost) (finite rate) policy maximum)
solve_interval-Solves requested jobs cost rate policy maximum pr pc pm =
    elim (Bool-cases (ltb maximum requested)) [
      | inl over ↦
          rw (solve_interval-over requested jobs cost rate policy maximum pr pc pm over)
            (refl, inl (ltb→lt _ _ over))
      | inr within ↦
          rw (solve_interval-within requested jobs cost rate policy maximum pr pc pm within) (
            solves (solve_accepted requested jobs cost rate policy maximum) refl
              (ltb-false _ _ within))
    ]
  where
    solves :
        (r : Result IntervalPlan)
        → solve_accepted requested jobs cost rate policy maximum ≡ r
        → requested ≤ maximum
        → Solves requested jobs cost rate policy maximum r
    solves (ok plan) e allowed =
        solve_accepted-IsLeast requested jobs cost rate policy maximum pc allowed plan e
    solves (err error) e allowed =
        let (c, why) =
          solve_accepted-Unsolvable requested jobs cost rate policy maximum pc allowed error e in
        (c, inr why)
