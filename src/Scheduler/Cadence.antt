-- ===== src/Scheduler/Cadence.antt =====
-- `StableCadence` of scheduler/models.py. `fraction` is the number in the first sixteen bytes of the
-- SHA-256 of the phase key.
use native.Mathlib.Nat.{
  div-lt_iff_lt-mul, mul-le-mul_right, mul-lt-mul_of_pos_right, div-mul-le_self, lt-div-mul-add,
  le-div_iff_mul-le,
}
use crytpo_data.Shared.{
  ℕ, ◌+◌, ◌-◌, ◌*◌, ◌/◌, ◌^◌, ◌≤◌, ◌<◌, ◌≡◌, refl, sym, Option, none, some, ltb, if◌then◌else◌,
  arith, inl, inr, ltb→lt, ltb-false, Bool-cases,
}

pub record StableCadence : Type 0 where
  pub anchor_monotonic_ns : ℕ
  pub interval_ns : ℕ
  pub fraction : ℕ

unfoldable pub phase_ns : StableCadence → ℕ
phase_ns c = (c.fraction * c.interval_ns) / 2 ^ 128

abbrev first_due_ns : StableCadence → ℕ
first_due_ns c = c.anchor_monotonic_ns + phase_ns c

unfoldable pub latest_due_ns : StableCadence → ℕ → Option ℕ
latest_due_ns c now =
    let first = first_due_ns c in
    if ltb now first then none else some (first + ((now - first) / c.interval_ns) * c.interval_ns)

unfoldable pub next_due_ns : StableCadence → ℕ → ℕ
next_due_ns c now =
    let first = first_due_ns c in
    if ltb now first then first else first + ((now - first) / c.interval_ns + 1) * c.interval_ns

-- The instants of the cadence.
abbrev pub IsDue : StableCadence → ℕ → Type 0
IsDue c t = (k : ℕ) × (t ≡ c.anchor_monotonic_ns + phase_ns c + k * c.interval_ns)

-- With a positive interval and a fraction below 2 ^ 128, the phase is shorter than the interval.
pub phase_ns-lt :
    (c : StableCadence) → 0 < c.interval_ns → c.fraction < 2 ^ 128 → phase_ns c < c.interval_ns
unfolding phase_ns
phase_ns-lt c pos small =
    (div-lt_iff_lt-mul {k = 2 ^ 128} (omega arith)).1
      (omega (arith, mul-lt-mul_of_pos_right small pos))

-- With a positive interval, `next_due_ns` is an instant of the cadence after now, and the least such.
pub next_due_ns-least :
    (c : StableCadence) (now : ℕ)
    → 0 < c.interval_ns
    → IsDue c (next_due_ns c now)
      × (now < next_due_ns c now)
      × ((t : ℕ) → IsDue c t → now < t → next_due_ns c now ≤ t)
unfolding next_due_ns
next_due_ns-least c now pos = elim (Bool-cases (ltb now (first_due_ns c))) [
  | inl before ↦
      rw (before, next_due_ns) ((0, omega arith), ltb→lt _ _ before, λ t (k, e) after. omega arith)
  | inr due ↦
      rw (due, next_due_ns)
        (
          (_, refl),
          (omega (arith, lt-div-mul-add {a = now - first_due_ns c} pos)),
          λ t (k, e) after.
              let q : (now - first_due_ns c) / c.interval_ns < k =
                (div-lt_iff_lt-mul {k = c.interval_ns} pos).1 (omega (arith, ltb-false _ _ due)) in
              omega (arith, mul-le-mul_right c.interval_ns q),
        )
]

-- With a positive interval, `latest_due_ns` returns an instant whenever one of the cadence is not
-- after now; what it returns is such an instant, the greatest, and one interval before the next.
pub latest_due_ns-greatest :
    (c : StableCadence) (now : ℕ)
    → 0 < c.interval_ns
    → ((t : ℕ) → IsDue c t → t ≤ now → (l : ℕ) × (latest_due_ns c now ≡ some l) × (t ≤ l))
      × ((l : ℕ)
          → latest_due_ns c now ≡ some l
          → IsDue c l × (l ≤ now) × (next_due_ns c now ≡ l + c.interval_ns))
unfolding latest_due_ns next_due_ns
latest_due_ns-greatest c now pos = elim (Bool-cases (ltb now (first_due_ns c))) [
  | inl before ↦
      rw (before, latest_due_ns)
        (λ t (k, e) le. absurd (omega (arith, ltb→lt _ _ before)), λ l h. absurd (cc))
  | inr due ↦
      rw (due, latest_due_ns, next_due_ns)
        (
          λ t (k, e) le. (
            _,
            refl,
            let q : k ≤ (now - first_due_ns c) / c.interval_ns =
                  (le-div_iff_mul-le {y = now - first_due_ns c} pos).1 (omega arith) in
                omega (arith, mul-le-mul_right c.interval_ns q),
          ),
          λ l h.
              let e : first_due_ns c + (now - first_due_ns c) / c.interval_ns * c.interval_ns ≡ l =
                cc in
              let below = div-mul-le_self (now - first_due_ns c) c.interval_ns in
              ((_, sym e), omega (arith, ltb-false _ _ due), omega arith),
        )
]
