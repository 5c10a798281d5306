-- ===== src/Scheduler/Controller/Freshness.antt =====
-- The calls of `IntervalController` in scheduler/rest.py as steps, and its invariant.
use crytpo_data.Shared.{
  ◌≤◌, ◌<◌, ◌≡◌, refl, ◌⊎◌, inl, inr, true, false, Result, ok, err, arith, Result-cases,
}
use crytpo_data.Scheduler.Controller.{
  IntervalController, IntervalProposal, IntervalChange, mark_unhealthy, validate_target,
  validate_proposal, apply_proposal, check_commit, check_activate, commit, activate,
  publish_and_apply,
}

-- A proposal that passes was made at this revision and this interval, and its count is in range.
pub validate_proposal-ok :
    (p : IntervalProposal) (c : IntervalController)
    → validate_proposal p c ≡ ok tt
    → (p.controller_revision ≡ c.revision)
      × (p.previous_effective_ns ≡ c.current_ns)
      × (p.healthy_refreshes ≤ c.healthy_refreshes_required)
      × (validate_target p.recovery_target_ns p c ≡ ok tt)
unfolding validate_proposal
validate_proposal-ok p c h = ground arith

pub check_commit-ok :
    (p : IntervalProposal) (c : IntervalController)
    → check_commit p c ≡ ok tt
    → validate_proposal p c ≡ ok tt
unfolding check_commit
check_commit-ok p c h = ground arith

pub check_activate-ok :
    (p : IntervalProposal) (change : IntervalChange) (c : IntervalController)
    → check_activate p change c ≡ ok tt
    → validate_proposal p c ≡ ok tt
unfolding check_activate
check_activate-ok p change c h = ground arith

commit-ok :
    (p : IntervalProposal) (c c' : IntervalController)
    → commit p c ≡ (ok tt, c')
    → (check_commit p c ≡ ok tt) × (c' ≡ apply_proposal p c)
unfolding commit
commit-ok p c c' h = ground arith

pub check_activate-idle :
    (p : IntervalProposal) (change : IntervalChange) (c : IntervalController)
    → check_activate p change c ≡ ok tt
    → c.activation_in_progress ≡ false
unfolding check_activate
check_activate-idle p change c h = ground arith

-- A publisher that leaves the controller as it is. Its methods would raise during an activation.
abbrev pub KeepsController : (IntervalController → Result (Unit {0}) × IntervalController) → Type 0
KeepsController published = (c : IntervalController) → (published c).1 ≡ c

publish_and_apply_lem :
    (r : Result (Unit {0})) (p : IntervalProposal) (c : IntervalController)
    → c.activation_in_progress ≡ false
    → let c' = (publish_and_apply r p (record c { activation_in_progress = true })).1 in
      (c' ≡ c) ⊎ (c' ≡ apply_proposal p c)
unfolding publish_and_apply apply_proposal
publish_and_apply_lem (ok r) p c idle = inr (ground arith)
publish_and_apply_lem (err e) p c idle = inl (ground arith)

-- A call leaves the controller alone, or applies a proposal that passed.
pub commit-cases :
    (p : IntervalProposal) (c : IntervalController)
    → ((commit p c).1 ≡ c)
      ⊎ ((validate_proposal p c ≡ ok tt) × ((commit p c).1 ≡ apply_proposal p c))
unfolding commit
commit-cases p c = elim (Result-cases (check_commit p c)) [
  | inl (e, bad) ↦ rw (bad, commit) (inl refl)
  | inr (_, good) ↦ rw (good, commit) (inr (check_commit-ok p c good, refl))
]

pub activate-cases :
    (p : IntervalProposal) (change : IntervalChange)
    (published : IntervalController → Result (Unit {0}) × IntervalController)
    (c : IntervalController)
    → KeepsController published
    → ((activate p change published c).1 ≡ c)
      ⊎ ((validate_proposal p c ≡ ok tt) × ((activate p change published c).1 ≡ apply_proposal p c))
unfolding activate
activate-cases p change published c keeps = elim (Result-cases (check_activate p change c)) [
  | inl (e, bad) ↦ rw (bad, activate) (inl refl)
  | inr (_, good) ↦
      let passed = check_activate-ok p change c good in
      let idle = check_activate-idle p change c good in
      rw (good, activate, keeps (record c { activation_in_progress = true }))
        (elim (publish_and_apply_lem (published (record c { activation_in_progress = true })).0 p c
          idle) [ inl same ↦ inl same | inr applied ↦ inr (passed, applied) ])
]

-- The calls that a client makes of a controller.
pub data Step : IntervalController → IntervalController → Type 0 where
  committed :
      (p : IntervalProposal) (c : IntervalController) → 0 < p.effective_ns → Step c (commit p c).1
  activated :
      (p : IntervalProposal) (change : IntervalChange)
      (published : IntervalController → Result (Unit {0}) × IntervalController)
      (c : IntervalController)
      → 0 < p.effective_ns
      → KeepsController published
      → Step c (activate p change published c).1
  marked : (c : IntervalController) → Step c (mark_unhealthy c).1

pub data Reach (c : IntervalController) : IntervalController → Type 0 where
  here : Reach c c
  next : {d e : IntervalController} → Reach c d → Step d e → Reach c e

-- The interval is positive, and the count of healthy refreshes is within the required one.
pub record IsValid (c : IntervalController) : Type 0 where
  pub positive : 0 < c.current_ns
  pub counted : c.healthy_refreshes ≤ c.healthy_refreshes_required

-- What a call keeps: the invariant, and a revision that does not go back.
abbrev pub Keeps : IntervalController → IntervalController → Type 0
Keeps c c' = IsValid c' × (c.revision ≤ c'.revision)

pub apply_proposal-Keeps :
    (p : IntervalProposal) (c : IntervalController)
    → 0 < p.effective_ns
    → validate_proposal p c ≡ ok tt
    → IsValid (apply_proposal p c) × (c.revision < (apply_proposal p c).revision)
unfolding apply_proposal
apply_proposal-Keeps p c pos passed =
    let (_, _, few, _) = validate_proposal-ok p c passed in
    (record { positive = pos; counted = few }, omega arith)

mark_unhealthy-Keeps : (c : IntervalController) → IsValid c → Keeps c (mark_unhealthy c).1
unfolding mark_unhealthy
mark_unhealthy-Keeps c v = ground arith

Step-Keeps : {c c' : IntervalController} → Step c c' → IsValid c → Keeps c c'
Step-Keeps (committed p c pos) v = elim (commit-cases p c) [
  | inl same ↦ rw same (v, omega arith)
  | inr (passed, applied) ↦
      let (valid, more) = apply_proposal-Keeps p c pos passed in rw applied (valid, omega arith)
]
Step-Keeps (activated p change published c pos keeps) v =
    elim (activate-cases p change published c keeps) [
      | inl same ↦ rw same (v, omega arith)
      | inr (passed, applied) ↦
          let (valid, more) = apply_proposal-Keeps p c pos passed in rw applied (valid, omega arith)
    ]
Step-Keeps (marked c) v = mark_unhealthy-Keeps c v

-- From a valid controller, any calls of `commit`, `activate` and `mark_unhealthy` (with positive
-- proposed intervals, and publishers that leave the controller alone) lead to a valid controller
-- whose revision is not lower.
pub Reach-Keeps : {c c' : IntervalController} → Reach c c' → IsValid c → Keeps c c'
Reach-Keeps here v = (v, omega arith)
Reach-Keeps (next r s) v =
    let (valid, le) = Reach-Keeps r v in
    let (valid', le') = Step-Keeps s valid in (valid', omega arith)
