-- ===== src/Scheduler/Controller/Recovery.antt =====
-- `propose_toward` of `IntervalController` in scheduler/rest.py, call after call.
use crytpo_data.Shared.{
  ℕ, zero, suc, ◌+◌, ◌-◌, ◌≤◌, ◌<◌, ◌≡◌, ◌≢◌, refl, ap, ◌⊎◌, min, inl, inr, true, false, some, ◌==◌,
  Result, ok, err, arith, Bool-cases, if◌then◌else◌,
}
use crytpo_data.Scheduler.Controller.{
  IntervalController, IntervalProposal, IntervalChange, recovery_transition, propose_toward,
  validate_proposal, apply_proposal, check_commit, check_activate, commit, activate,
  publish_and_apply, is_old,
}
use crytpo_data.Scheduler.Controller.Freshness.{IsValid}

-- What one transition does: it stays between the target and the current interval, and moves or
-- counts.
recovery_transition_lem :
    (target : ℕ) (c : IntervalController)
    → IsValid c
    → target < c.current_ns
    → let (candidate, refreshes) = recovery_transition target c in
      (target ≤ candidate)
      × (candidate ≤ c.current_ns)
      × (refreshes ≡ min (c.healthy_refreshes + 1) c.healthy_refreshes_required)
      × (refreshes ≡ c.healthy_refreshes_required → candidate < c.current_ns)
      × (refreshes ≢ c.healthy_refreshes_required → candidate ≡ c.current_ns)
unfolding recovery_transition
recovery_transition_lem target c v above = ground arith

-- A healthy refresh: its proposal is committed, or activated by a publisher that returns.
abbrev pub change_of : IntervalProposal → IntervalChange
change_of p = record {
  previous_effective_ns = p.previous_effective_ns;
  effective_ns = p.effective_ns;
}

abbrev pub take_proposal : IntervalProposal → IntervalController → IntervalController
take_proposal p c =
    if p.effective_ns == p.previous_effective_ns
    then (commit p c).1
    else (activate p (change_of p) (λ d. (ok tt, d)) c).1

abbrev pub take_result : Result IntervalProposal → IntervalController → IntervalController
take_result (err e) c = c
take_result (ok p) c = take_proposal p c

unfoldable pub refresh : (target refresh_id : ℕ) → IntervalController → IntervalController
refresh target refresh_id c = take_result (propose_toward target refresh_id c) c

-- Refreshes with ascending identities.
unfoldable pub refreshes : (count target refresh_id : ℕ) → IntervalController → IntervalController
refreshes zero target refresh_id c = c
refreshes (suc n) target refresh_id c =
    refreshes n target (refresh_id + 1) (refresh target refresh_id c)

commit-valid :
    (p : IntervalProposal) (c : IntervalController)
    → c.activation_in_progress ≡ false
    → (p.effective_ns == p.previous_effective_ns) ≡ true
    → validate_proposal p c ≡ ok tt
    → (commit p c).1 ≡ apply_proposal p c
unfolding commit check_commit
commit-valid p c idle same passed = ground arith

activate-valid :
    (p : IntervalProposal) (c : IntervalController)
    → c.activation_in_progress ≡ false
    → (p.effective_ns == p.previous_effective_ns) ≡ false
    → validate_proposal p c ≡ ok tt
    → (activate p (change_of p) (λ d. (ok tt, d)) c).1 ≡ apply_proposal p c
unfolding activate check_activate publish_and_apply apply_proposal
activate-valid p c idle other passed = ground arith

take_proposal-valid :
    (p : IntervalProposal) (c : IntervalController)
    → c.activation_in_progress ≡ false
    → validate_proposal p c ≡ ok tt
    → take_proposal p c ≡ apply_proposal p c
take_proposal-valid p c idle passed =
    elim (Bool-cases (p.effective_ns == p.previous_effective_ns)) [
      | inl same ↦ rw same (commit-valid p c idle same passed)
      | inr other ↦ rw other (activate-valid p c idle other passed)
    ]

module _ (target refresh_id : ℕ) (c : IntervalController) (valid : IsValid c)
    (idle : c.activation_in_progress ≡ false) (some_target : 0 < target)
    (new : is_old refresh_id c.last_refresh_id ≡ false) where
  fresh : IntervalProposal
  fresh =
      let (candidate, count) = recovery_transition target c in
      record {
        controller_revision = c.revision;
        previous_effective_ns = c.current_ns;
        effective_ns = candidate;
        healthy_refreshes = count;
        refresh_id = some refresh_id;
        recovery_target_ns = some target;
      }

  propose_toward-fresh : propose_toward target refresh_id c ≡ ok fresh
  unfolding propose_toward fresh
  propose_toward-fresh =
      let positive : (target == 0) ≡ false = ground arith in rw (positive, new, propose_toward) refl

  count-le : (recovery_transition target c).1 ≤ c.healthy_refreshes_required
  unfolding recovery_transition
  count-le = ground arith

  -- A fresh proposal passes.
  validate_proposal-fresh : validate_proposal fresh c ≡ ok tt
  unfolding validate_proposal fresh
  validate_proposal-fresh = ground (arith, count-le)

  refresh-fresh : refresh target refresh_id c ≡ apply_proposal fresh c
  unfolding refresh
  refresh-fresh =
      rw (propose_toward-fresh, refresh) (take_proposal-valid fresh c idle validate_proposal-fresh)

  -- A healthy refresh follows the transition.
  refresh_lem :
      let c' = refresh target refresh_id c in
      let (candidate, count) = recovery_transition target c in
      (c'.current_ns ≡ candidate)
      × (c'.healthy_refreshes ≡ count)
      × (c'.healthy_refreshes_required ≡ c.healthy_refreshes_required)
      × (c'.last_refresh_id ≡ some refresh_id)
      × (c'.activation_in_progress ≡ false)
  unfolding apply_proposal fresh
  refresh_lem = rw refresh-fresh (refl, refl, refl, refl, idle)

recovery_transition-at :
    (target : ℕ) (c : IntervalController)
    → c.current_ns ≡ target
    → recovery_transition target c ≡ (c.current_ns, 0)
unfolding recovery_transition
recovery_transition-at target c h = ground arith

-- A refresh keeps the invariant, stays at or above the target, and brings it nearer.
refresh-measure :
    (target refresh_id : ℕ) (c : IntervalController)
    → IsValid c
    → c.activation_in_progress ≡ false
    → 0 < target
    → is_old refresh_id c.last_refresh_id ≡ false
    → target ≤ c.current_ns
    → (n : ℕ)
    → (c.current_ns ≡ target)
      ⊎ (c.current_ns - target + (c.healthy_refreshes_required - c.healthy_refreshes) ≤ suc n)
    → let c' = refresh target refresh_id c in
      (IsValid c' × (target ≤ c'.current_ns))
      × ((c'.current_ns ≡ target)
          ⊎ (c'.current_ns - target + (c'.healthy_refreshes_required - c'.healthy_refreshes) ≤ n))
refresh-measure target refresh_id c v idle pos new le n enough =
    let (current, counted, required, last, idle') =
      refresh_lem target refresh_id c v idle pos new in
    elim (Bool-cases (c.current_ns == target)) [
      | inl at_target ↦
          let here : c.current_ns ≡ target = ground arith in
          let e = recovery_transition-at target c here in
          let e0 = ap (λ (t : ℕ × ℕ). t.0) e in
          let e1 = ap (λ (t : ℕ × ℕ). t.1) e in
          (
            (record { positive = omega arith; counted = omega arith }, omega arith),
            inl (omega arith),
          )
      | inr above ↦
          let (low, high, min_eq, moves, waits) =
            recovery_transition_lem target c v (ground arith) in
          (
            (record { positive = omega arith; counted = omega arith }, omega arith),
            inr (ground arith),
          )
    ]

-- From an interval above the target, healthy refreshes reach the target and stay there: it is
-- enough to have as many as are required before the first step, and one for each nanosecond above
-- the target.
pub refreshes_reach :
    (count target refresh_id : ℕ) (c : IntervalController)
    → IsValid c
    → c.activation_in_progress ≡ false
    → 0 < target
    → target ≤ c.current_ns
    → is_old refresh_id c.last_refresh_id ≡ false
    → (c.current_ns ≡ target)
      ⊎ (c.current_ns - target + (c.healthy_refreshes_required - c.healthy_refreshes) ≤ count)
    → (refreshes count target refresh_id c).current_ns ≡ target
unfolding refreshes
refreshes_reach zero target refresh_id c v idle pos le new enough = omega arith
refreshes_reach (suc n) target refresh_id c v idle pos le new enough =
    let (current, counted, required, last, idle') =
      refresh_lem target refresh_id c v idle pos new in
    let c' = refresh target refresh_id c in
    let new' : is_old (refresh_id + 1) c'.last_refresh_id ≡ false = rw last (ground arith) in
    let (valid', left) = refresh-measure target refresh_id c v idle pos new le n enough in
    refreshes_reach n target (refresh_id + 1) c' valid'.0 idle' pos valid'.1 new' left
