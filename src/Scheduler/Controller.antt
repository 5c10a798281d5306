-- ===== src/Scheduler/Controller.antt =====
-- `IntervalController` of scheduler/rest.py: proposals for the effective interval, and their
-- activation. A method takes the controller and returns it with its result. `published` is what the
-- publisher's `publish` does: it returns, or it raises.
pub mod Recovery
pub mod Freshness
pub mod Once
use crytpo_data.Shared.{
  ℕ, ◌+◌, ◌-◌, ◌*◌, min, max, Bool, true, false, ◌&&◌, ◌||◌, not, Option, none, some, leb, ltb,
  ◌==◌, if◌then◌else◌, Result, Error, ok, err, value_error, runtime_error, ◌>>=◌, ◌>>◌, raise_if,
}
use crytpo_data.Shared.Decimal.{Decimal, den, of_int, decimal_leb}
use crytpo_data.Network.Bucket.{DecimalInput, decimal_input, ceil_ratio}

pub record IntervalController : Type 0 where
  pub current_ns : ℕ
  pub recovery_step : Decimal
  pub healthy_refreshes : ℕ
  pub healthy_refreshes_required : ℕ
  pub last_refresh_id : Option ℕ
  pub revision : ℕ
  pub activation_in_progress : Bool

pub record IntervalProposal : Type 0 where
  pub controller_revision : ℕ
  pub previous_effective_ns : ℕ
  pub effective_ns : ℕ
  pub healthy_refreshes : ℕ
  pub refresh_id : Option ℕ
  pub recovery_target_ns : Option ℕ

-- The fields of an `IntervalChange` that `activate` reads.
pub record IntervalChange : Type 0 where
  pub previous_effective_ns : ℕ
  pub effective_ns : ℕ

-- `IntervalController.__init__`; a float step has been read as the decimal that it prints as.
unfoldable pub new_controller :
    (current_ns : ℕ)
    → (recovery_step : DecimalInput) → (healthy_refreshes_required : ℕ) → Result IntervalController
unfolding decimal_input
new_controller current_ns recovery_step healthy_refreshes_required = do
  raise_if (current_ns == 0) value_error
  step ← decimal_input recovery_step false
  raise_if (not (decimal_leb step (of_int 1))) value_error
  raise_if (healthy_refreshes_required == 0) value_error
  ok (record {
    current_ns = current_ns;
    recovery_step = step;
    healthy_refreshes = 0;
    healthy_refreshes_required = healthy_refreshes_required;
    last_refresh_id = none;
    revision = 0;
    activation_in_progress = false;
  })

abbrev pub Call : Type 0 → Type 0
Call A = IntervalController → Result A × IntervalController

unfoldable pub mark_unhealthy : Call (Unit {0})
mark_unhealthy c =
    if c.activation_in_progress
    then (err runtime_error, c)
    else (ok tt, record c { healthy_refreshes = 0; revision = c.revision + 1 })

unfoldable pub propose_interval : (effective_ns : ℕ) → IntervalController → Result IntervalProposal
propose_interval effective_ns c = do
  raise_if (effective_ns == 0) value_error
  raise_if (ltb effective_ns c.current_ns) value_error
  ok (record {
    controller_revision = c.revision;
    previous_effective_ns = c.current_ns;
    effective_ns = effective_ns;
    healthy_refreshes = 0;
    refresh_id = none;
    recovery_target_ns = none;
  })

-- The interval one recovery step below the current one, rounded up.
unfoldable pub rounded_step : IntervalController → ℕ
rounded_step c =
    ceil_ratio (c.current_ns * (den c.recovery_step - c.recovery_step.coeff)) (den c.recovery_step)

-- `_recovery_transition`
unfoldable pub recovery_transition : (target_ns : ℕ) → IntervalController → ℕ × ℕ
recovery_transition target_ns c =
    let refreshes = min (c.healthy_refreshes + 1) c.healthy_refreshes_required in
    if leb c.current_ns target_ns
    then (c.current_ns, 0)
    else if ltb refreshes c.healthy_refreshes_required
    then (c.current_ns, refreshes)
    else (max target_ns (min (c.current_ns - 1) (rounded_step c)), refreshes)

-- `last is not None and refresh <= last`
abbrev pub is_old : ℕ → Option ℕ → Bool
is_old refresh none = false
is_old refresh (some last) = leb refresh last

unfoldable pub propose_toward :
    (target_ns refresh_id : ℕ) → IntervalController → Result IntervalProposal
propose_toward target_ns refresh_id c = do
  raise_if (target_ns == 0) value_error
  raise_if (is_old refresh_id c.last_refresh_id) value_error
  let (candidate, refreshes) = recovery_transition target_ns c
  ok (record {
    controller_revision = c.revision;
    previous_effective_ns = c.current_ns;
    effective_ns = candidate;
    healthy_refreshes = refreshes;
    refresh_id = some refresh_id;
    recovery_target_ns = some target_ns;
  })

abbrev is_old_proposal : Option ℕ → Option ℕ → Bool
is_old_proposal none last = false
is_old_proposal (some refresh) last = is_old refresh last

abbrev is_some : Option ℕ → Bool
is_some none = false
is_some (some _) = true

-- The last part of `_validate_proposal`, on the recovery target.
unfoldable pub validate_target :
    Option ℕ → IntervalProposal → IntervalController → Result (Unit {0})
validate_target none p c =
    raise_if
      (is_some p.refresh_id || (not (p.healthy_refreshes == 0) || ltb p.effective_ns c.current_ns))
      value_error
validate_target (some target) p c = do
  raise_if (not (is_some p.refresh_id)) value_error
  let (effective, refreshes) = recovery_transition target c
  raise_if (not (p.effective_ns == effective) || not (p.healthy_refreshes == refreshes)) value_error

-- `_validate_proposal`
unfoldable pub validate_proposal : IntervalProposal → IntervalController → Result (Unit {0})
unfolding validate_target
validate_proposal p c = do
  raise_if
      (not (p.controller_revision == c.revision) || not (p.previous_effective_ns == c.current_ns))
      value_error
  raise_if (ltb c.healthy_refreshes_required p.healthy_refreshes) value_error
  raise_if (is_old_proposal p.refresh_id c.last_refresh_id) value_error
  validate_target p.recovery_target_ns p c

abbrev newer : Option ℕ → Option ℕ → Option ℕ
newer none last = last
newer (some refresh) last = some refresh

-- `_apply_proposal`; the interval of a proposal is positive by its constructor.
unfoldable pub apply_proposal : IntervalProposal → IntervalController → IntervalController
apply_proposal p c = record c {
  current_ns = p.effective_ns;
  healthy_refreshes = p.healthy_refreshes;
  last_refresh_id = newer p.refresh_id c.last_refresh_id;
  revision = c.revision + 1;
}

-- The checks of `commit` and those of `activate`, in order.
unfoldable pub check_commit : IntervalProposal → IntervalController → Result (Unit {0})
check_commit p c = do
  raise_if c.activation_in_progress runtime_error
  raise_if (not (p.effective_ns == p.previous_effective_ns)) value_error
  validate_proposal p c

unfoldable pub check_activate :
    IntervalProposal → IntervalChange → IntervalController → Result (Unit {0})
check_activate p change c = do
  raise_if
      (not (change.previous_effective_ns == p.previous_effective_ns)
        || not (change.effective_ns == p.effective_ns))
      value_error
  raise_if (change.effective_ns == change.previous_effective_ns) value_error
  raise_if c.activation_in_progress runtime_error
  validate_proposal p c

unfoldable pub commit : IntervalProposal → Call (Unit {0})
commit p c = elim (check_commit p c) [ err e ↦ (err e, c) | ok _ ↦ (ok tt, apply_proposal p c) ]

-- The `try` block of `activate` runs with the flag set, and `finally` clears it.
unfoldable pub publish_and_apply :
    {P : Type 0} → Result P → IntervalProposal → IntervalController → Result P × IntervalController
publish_and_apply (err e) p c = (err e, record c { activation_in_progress = false })
publish_and_apply (ok r) p c =
    (ok r, record (apply_proposal p c) { activation_in_progress = false })

unfoldable pub activate :
    {P : Type 0}
    → IntervalProposal
    → IntervalChange
    → (published : IntervalController → Result P × IntervalController) → Call P
activate p change published c = elim (check_activate p change c) [
  | err e ↦ (err e, c)
  | ok _ ↦
      let (r, c') = published (record c { activation_in_progress = true }) in
      publish_and_apply r p c'
]
