-- ===== src/Network/Bucket/Ready.antt =====
-- `ready_at_ns` of the token bucket in network/rate_limit.py, against `try_acquire`.
use native.Mathlib.Nat.{div-lt_iff_lt-mul, mul-pos}
use crytpo_data.Shared.{
  ℕ, ◌+◌, ◌-◌, ◌*◌, ◌/◌, ◌≤◌, ◌<◌, ◌≡◌, refl, ap, ◌∙◌, ◌↔◌, inl, inr, true, false, Option, none,
  some, ok, arith, leb, ◌==◌, leb→le, le→leb, Bool-cases,
}
use crytpo_data.Shared.Decimal.{
  Decimal, den, den-pos, den-of_int, Le, Le-trans, decimal_leb, plus, le-plus, le-least,
  least-le_right, le-plus_iff, den-times, coeff-times, den-shift_down, coeff-shift_down,
}
use crytpo_data.Network.Bucket.{
  TokenBucket, DecimalInput, replenished, ceil_ratio, wait_ns, refill_at, ready_instant,
  checked_cost, try_acquire, ready_at_ns, spend, refill, reading,
}

-- A rounded-up quotient is within a bound exactly when the ratio is.
pub ceil_ratio-le_iff : (n d e : ℕ) → 0 < d → (ceil_ratio n d ≤ e) ↔ (n ≤ e * d)
unfolding ceil_ratio
ceil_ratio-le_iff n d e h =
    let q = div-lt_iff_lt-mul {k = d} {x = n + d - 1} {y = e + 1} h in
    (
      λ p. let r : n + d - 1 < (e + 1) * d = q.0 (omega arith) in omega arith,
      λ p. let r : (n + d - 1) / d < e + 1 = q.1 (omega arith) in omega arith,
    )

-- The inequality behind `wait_ns`, with the missing tokens `m` as a variable.
wait_arith :
    (cn cd tn td rn rd e m : ℕ)
    → m + tn * cd ≡ cn * td
    → (cn * (td * (rd * 1_000_000_000)) ≤ (tn * (rd * 1_000_000_000) + rn * e * td) * cd)
      ↔ (m * rd * 1_000_000_000 ≤ e * (cd * td * rn))
wait_arith cn cd tn td rn rd e m h =
    let k = ap (λ (y : ℕ). y * (rd * 1_000_000_000)) h in (λ p. omega arith, λ p. omega arith)

pub den-replenished : (r : Decimal) (e : ℕ) → den (replenished r e) ≡ den r * 1_000_000_000
unfolding replenished
den-replenished r e = simp (den-shift_down, den-times, den-of_int) (omega arith)

pub coeff-replenished : (r : Decimal) (e : ℕ) → (replenished r e).coeff ≡ r.coeff * e
unfolding replenished
coeff-replenished r e = simp (coeff-shift_down, coeff-times)

-- A cost above the tokens is covered after `e` nanoseconds exactly when the ratio of `wait_ns` is.
covered_iff :
    (c t r : Decimal) (e : ℕ)
    → decimal_leb c t ≡ false
    → Le c (plus t (replenished r e)) ↔ (
        (c.coeff * den t - t.coeff * den c) * den r * 1_000_000_000 ≤ e * (den c * den t * r.coeff))
covered_iff c t r e h =
    let w =
      wait_arith c.coeff (den c) t.coeff (den t) r.coeff (den r) e
        (c.coeff * den t - t.coeff * den c) (ground arith) in
    let q = le-plus_iff c t (replenished r e) in
    (
      λ p. w.0 (simp (den-replenished, coeff-replenished) at (q.0 p)),
      λ p. q.1 (simp (den-replenished, coeff-replenished) (w.1 p)),
    )

-- Some tokens are missing for a cost that is not covered.
missing-pos :
    (c t r : Decimal)
    → decimal_leb c t ≡ false
    → 0 < (c.coeff * den t - t.coeff * den c) * den r * 1_000_000_000
missing-pos c t r h = mul-pos (mul-pos (ground arith) (den-pos r)) (omega arith)

zero_rate : {r : ℕ} (e d : ℕ) → r ≡ 0 → e * (d * r) ≡ 0
zero_rate e d z = omega (arith, ap (λ (y : ℕ). e * (d * y)) z)

-- The instants at which what `ready_at_ns` returned promises the cost.
abbrev pub ReadyBy : Option ℕ → ℕ → Type 0
ReadyBy none u = ⊥
ReadyBy (some t) u = t ≤ u

module _ (c : Decimal) (b : TokenBucket) (fits : Le c b.capacity) (u : ℕ)
    (later : b.last_refill_ns ≤ u) where
  -- Once it is covered, a cost stays covered.
  still_covered : decimal_leb c b.tokens ≡ true → Le c (refill_at u b).tokens
  unfolding refill_at
  still_covered h = elim (Bool-cases (leb u b.last_refill_ns)) [
    | inl same ↦ rw same (leb→le _ _ h)
    | inr after ↦
        rw after
          (le-least c b.capacity _ fits (Le-trans c b.tokens _ (leb→le _ _ h) (le-plus b.tokens _)))
  ]

  -- A cost that is not covered yet waits for the ratio.
  covered_later :
      decimal_leb c b.tokens ≡ false
      → Le c (refill_at u b).tokens ↔ (
          (c.coeff * den b.tokens - b.tokens.coeff * den c)
            * den b.refill_per_second
            * 1_000_000_000
          ≤ (u - b.last_refill_ns) * (den c * den b.tokens * b.refill_per_second.coeff))
  unfolding refill_at
  covered_later h =
      let w = covered_iff c b.tokens b.refill_per_second (u - b.last_refill_ns) h in
      elim (Bool-cases (leb u b.last_refill_ns)) [
        | inl same ↦
            let e : u - b.last_refill_ns ≡ 0 = omega (arith, leb→le _ _ same) in
            let m = missing-pos c b.tokens b.refill_per_second h in
            rw same (λ p. absurd (ground arith), λ p. absurd (omega (arith, rw e at p)))
        | inr after ↦ rw after (
          λ p. w.0 (Le-trans c _ _ p (least-le_right b.capacity _)),
          λ p. le-least c b.capacity _ fits (w.1 p),
        )
      ]

  never_covered :
      decimal_leb c b.tokens ≡ false
      → (b.refill_per_second.coeff == 0) ≡ true
      → ((c.coeff * den b.tokens - b.tokens.coeff * den c) * den b.refill_per_second * 1_000_000_000
          ≤ (u - b.last_refill_ns) * (den c * den b.tokens * b.refill_per_second.coeff))
      → ⊥
  never_covered short z p =
      let m = missing-pos c b.tokens b.refill_per_second short in
      omega (
        arith,
        zero_rate {r = b.refill_per_second.coeff} (u - b.last_refill_ns) (den c * den b.tokens)
            (ground arith),
      )

  wait_ns-le_iff :
      (b.refill_per_second.coeff == 0) ≡ false
      → (e : ℕ)
      → (wait_ns c b ≤ e) ↔ (
          (c.coeff * den b.tokens - b.tokens.coeff * den c)
            * den b.refill_per_second
            * 1_000_000_000
          ≤ e * (den c * den b.tokens * b.refill_per_second.coeff))
  unfolding wait_ns
  wait_ns-le_iff z e =
      ceil_ratio-le_iff _ _ e (mul-pos (mul-pos (den-pos c) (den-pos b.tokens)) (ground arith))

  -- The instant of `ready_at_ns` is the first at which the cost is granted.
  ready_instant_lem : (decimal_leb c (refill_at u b).tokens ≡ true) ↔ ReadyBy (ready_instant c b) u
  unfolding ready_instant
  ready_instant_lem = elim (Bool-cases (decimal_leb c b.tokens)) [
    | inl now ↦ rw now (λ p. later, λ p. le→leb _ _ (still_covered now))
    | inr short ↦ rw short (elim (Bool-cases (b.refill_per_second.coeff == 0)) [
      | inl never ↦ rw never (
        λ p. absurd (never_covered short never ((covered_later short).0 (leb→le _ _ p))),
        λ q. absurd q,
      )
      | inr refills ↦ rw refills (
        λ p.
            let w =
              (wait_ns-le_iff refills (u - b.last_refill_ns)).1
                ((covered_later short).0 (leb→le _ _ p)) in
            omega arith,
        λ q. le→leb _ _ (
            (covered_later short).1
              ((wait_ns-le_iff refills (u - b.last_refill_ns)).0 (omega arith))),
      )
    ])
  ]

-- The check of a cost reads only the hard capacity, which a refill keeps.
checked_cost-refill :
    (cost : DecimalInput) (n : ℕ) (b : TokenBucket)
    → checked_cost cost (refill_at n b) ≡ checked_cost cost b
unfolding checked_cost refill_at
checked_cost-refill cost n b = elim (Bool-cases (leb n b.last_refill_ns)) [
  | inl e ↦ rw e
  | inr e ↦ rw e
]

capacity-refill : (n : ℕ) (b : TokenBucket) → (refill_at n b).capacity ≡ b.capacity
unfolding refill_at
capacity-refill n b = ground arith

checked_cost-le :
    (cost : DecimalInput) (c : Decimal) (b : TokenBucket)
    → checked_cost cost b ≡ ok c
    → Le c b.hard_capacity
unfolding checked_cost
checked_cost-le cost c b h = ground arith

spend-true_iff :
    (c : Decimal) (b : TokenBucket) → ((spend c b).0 ≡ ok true) ↔ (decimal_leb c b.tokens ≡ true)
unfolding spend
spend-true_iff c b = ground arith

module _ (cost : DecimalInput) (c : Decimal) (clock : ℕ) (now_ns : Option ℕ) (b : TokenBucket)
    (checked : checked_cost cost b ≡ ok c) where
  pub ready_at_ns-checked :
      ready_at_ns cost clock now_ns b
      ≡ (ok (ready_instant c (refill clock now_ns b)), refill clock now_ns b)
  unfolding ready_at_ns
  ready_at_ns-checked = rw (checked, ready_at_ns)

  pub try_acquire-checked : try_acquire cost clock now_ns b ≡ spend c (refill clock now_ns b)
  unfolding try_acquire
  try_acquire-checked = rw (checked, try_acquire)

-- When `ready_at_ns` accepts a cost and the capacity is the hard one, it returns, and what it
-- returns is exact: at an instant from the refill on,
-- `try_acquire` grants the cost if that instant has been reached, and otherwise not. With no
-- instant returned, it never grants.
pub ready_at_ns-exact :
    (cost : DecimalInput) (c : Decimal) (clock : ℕ) (now_ns : Option ℕ) (b : TokenBucket)
    → checked_cost cost b ≡ ok c
    → b.capacity ≡ b.hard_capacity
    → let (r, b') = ready_at_ns cost clock now_ns b in
      (o : Option ℕ) × (r ≡ ok o)
      × ((u : ℕ)
          → b'.last_refill_ns ≤ u
          → ((try_acquire cost clock (some u) b').0 ≡ ok true) ↔ ReadyBy o u)
unfolding refill
ready_at_ns-exact cost c clock now_ns b ce whole =
    let n = reading clock now_ns in
    let b' = refill_at n b in
    let fits : Le c b'.capacity = rw (capacity-refill n b, whole) (checked_cost-le cost c b ce) in
    rw (ready_at_ns-checked cost c clock now_ns b ce) (
      ready_instant c b',
      refl,
      λ u later.
          rw (try_acquire-checked cost c clock (some u) b' (checked_cost-refill cost n b ∙ ce)) (
            let i = ready_instant_lem c b' fits u later in
            let s = spend-true_iff c (refill_at u b') in (λ p. i.0 (s.0 p), λ q. s.1 (i.1 q))),
    )
