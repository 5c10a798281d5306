-- ===== src/Scheduler/Controller/Once.antt =====
-- `commit` and `activate` of `IntervalController` in scheduler/rest.py, on a proposal already taken.
use crytpo_data.Shared.{
  ◌<◌, ◌≡◌, ◌≢◌, ◌⊎◌, inl, inr, true, false, Result, Error, ok, err, arith, Result-cases,
}
use crytpo_data.Scheduler.Controller.{
  IntervalController, IntervalProposal, IntervalChange, validate_proposal, apply_proposal,
  check_commit, check_activate, commit, activate, publish_and_apply,
}
use crytpo_data.Scheduler.Controller.Freshness.{
  validate_proposal-ok, check_commit-ok, check_activate-ok, KeepsController, Reach, IsValid,
  Reach-Keeps, apply_proposal-Keeps,
}

commit-stale :
    (p : IntervalProposal) (c : IntervalController)
    → p.controller_revision ≢ c.revision
    → (e : Error) × (commit p c ≡ (err e, c))
unfolding commit
commit-stale p c other = elim (Result-cases (check_commit p c)) [
  | inl (e, bad) ↦ (e, rw (bad, commit))
  | inr (_, good) ↦ absurd (other (validate_proposal-ok p c (check_commit-ok p c good)).0)
]

activate-stale :
    (p : IntervalProposal) (change : IntervalChange)
    (published : IntervalController → Result (Unit {0}) × IntervalController)
    (c : IntervalController)
    → p.controller_revision ≢ c.revision
    → (e : Error) × (activate p change published c ≡ (err e, c))
unfolding activate
activate-stale p change published c other = elim (Result-cases (check_activate p change c)) [
  | inl (e, bad) ↦ (e, rw (bad, activate))
  | inr (_, good) ↦ absurd (other (validate_proposal-ok p c (check_activate-ok p change c good)).0)
]

publish_and_apply-ok :
    (r : Result (Unit {0})) (p : IntervalProposal) (c c' : IntervalController)
    → c.activation_in_progress ≡ false
    → publish_and_apply r p (record c { activation_in_progress = true }) ≡ (ok tt, c')
    → c' ≡ apply_proposal p c
unfolding publish_and_apply apply_proposal
publish_and_apply-ok (ok r) p c c' idle h = ground arith
publish_and_apply-ok (err e) p c c' idle h = cc

-- The proposal was committed, or activated and published.
abbrev pub Taken : IntervalProposal → IntervalController → IntervalController → Type 0
Taken p c c' =
    (commit p c ≡ (ok tt, c'))
    ⊎ ((change : IntervalChange) × (published : IntervalController
          → Result (Unit {0}) × IntervalController)
        × KeepsController published
        × (activate p change published c ≡ (ok tt, c')))

Taken-validated :
    (p : IntervalProposal) (c c' : IntervalController)
    → c.activation_in_progress ≡ false
    → Taken p c c'
    → (validate_proposal p c ≡ ok tt) × (c' ≡ apply_proposal p c)
unfolding commit activate
Taken-validated p c c' idle (inl h) = elim (Result-cases (check_commit p c)) [
  | inl (e, bad) ↦ cc (rw (bad, commit) at h)
  | inr (_, good) ↦ (check_commit-ok p c good, cc (rw (good, commit) at h))
]
Taken-validated p c c' idle (inr (change, published, keeps, h)) =
    elim (Result-cases (check_activate p change c)) [
      | inl (e, bad) ↦ cc (rw (bad, activate) at h)
      | inr (_, good) ↦
          let flagged = record c { activation_in_progress = true } in
          (
            check_activate-ok p change c good,
            publish_and_apply-ok (published flagged).0 p c c' idle
                (rw (good, activate, keeps flagged) at h),
          )
    ]

-- Once a proposal of an idle controller has been committed or activated, it is refused ever after:
-- in every controller that later calls lead to, `commit` and `activate` raise for it and change
-- nothing.
pub Taken-once :
    (p : IntervalProposal) (change : IntervalChange)
    (published : IntervalController → Result (Unit {0}) × IntervalController)
    (c c' d : IntervalController)
    → IsValid c
    → c.activation_in_progress ≡ false
    → 0 < p.effective_ns
    → Taken p c c'
    → Reach c' d
    → (e : Error) × (f : Error) × (commit p d ≡ (err e, d))
      × (activate p change published d ≡ (err f, d))
Taken-once p change published c c' d valid idle pos taken later =
    let (passed, applied) = Taken-validated p c c' idle taken in
    let (v, more) = apply_proposal-Keeps p c pos passed in
    let made = (validate_proposal-ok p c passed).0 in
    let (_, kept) = Reach-Keeps later (rw applied v) in
    let newer : c.revision < c'.revision = rw applied more in
    let other : p.controller_revision ≢ d.revision = omega arith in
    let (e, first) = commit-stale p d other in
    let (f, second) = activate-stale p change published d other in (e, f, first, second)
