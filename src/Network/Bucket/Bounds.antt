-- ===== src/Network/Bucket/Bounds.antt =====
-- The bounds of the token bucket in network/rate_limit.py, and its refill.
use crytpo_data.Shared.{
  ℕ, ◌+◌, ◌-◌, ◌*◌, ◌≤◌, ◌≡◌, refl, ◌∙◌, inl, inr, arith, leb, leb-false, Bool-cases,
}
use native.Mathlib.Nat.{mul-le-mul_right}
use crytpo_data.Shared.Decimal.{
  Decimal, of_int, Le, Le-trans, plus, le-plus, least-le_left, least-le_right, plus-mono_left,
  plus-mono_right, plus-assoc_le, plus_assoc-le, zero-plus-le, le-zero-plus, coeff-plus, den-plus,
}
use crytpo_data.Network.Bucket.{TokenBucket, replenished, refill_at}
use crytpo_data.Network.Bucket.Ready.{den-replenished, coeff-replenished}

-- The tokens are within the capacity, and the rate is within the hard rate.
pub record IsBounded (b : TokenBucket) : Type 0 where
  pub whole : b.capacity ≡ b.hard_capacity
  pub filled : Le b.tokens b.capacity
  pub paced : Le b.refill_per_second b.hard_refill_per_second

replenished_mono : (r s : Decimal) (e : ℕ) → Le r s → Le (replenished r e) (replenished s e)
replenished_mono r s e h =
    simp (den-replenished, coeff-replenished)
      (omega (arith, mul-le-mul_right (e * 1_000_000_000) h))

replenished-add :
    (r : Decimal) (e f g : ℕ)
    → e + f ≡ g
    → Le (plus (replenished r e) (replenished r f)) (replenished r g)
replenished-add r e f g h =
    rw (← h) (simp (coeff-plus, den-plus, den-replenished, coeff-replenished) (omega arith))

-- What a use may do to a bucket: it keeps the bounds and the hard limits, time does not go back,
-- and the tokens granted and left are at most those held and those of the hard rate.
pub record Keeps (b : TokenBucket) (g : Decimal) (b' : TokenBucket) : Type 0 where
  pub bounded : IsBounded b'
  pub same_capacity : b'.hard_capacity ≡ b.hard_capacity
  pub same_rate : b'.hard_refill_per_second ≡ b.hard_refill_per_second
  pub forward : b.last_refill_ns ≤ b'.last_refill_ns
  pub covered :
      Le (plus g b'.tokens) (
        plus b.tokens (replenished b.hard_refill_per_second (b'.last_refill_ns - b.last_refill_ns)))

pub Keeps-refill_at : (n : ℕ) (b : TokenBucket) → IsBounded b → Keeps b (of_int 0) (refill_at n b)
unfolding refill_at
Keeps-refill_at n b h = elim (Bool-cases (leb n b.last_refill_ns)) [
  | inl e ↦ rw e (record {
    bounded = h;
    same_capacity = refl;
    same_rate = refl;
    forward = omega arith;
    covered = Le-trans _ b.tokens _ (zero-plus-le b.tokens) (le-plus b.tokens _);
  })
  | inr e ↦ rw e (record {
    bounded = record { whole = h.whole; filled = least-le_left b.capacity _; paced = h.paced };
    same_capacity = refl;
    same_rate = refl;
    forward = omega (arith, leb-false n b.last_refill_ns e);
    covered = Le-trans _ _ _ (zero-plus-le _) (
        Le-trans _ _ _ (least-le_right b.capacity _)
          (plus-mono_right b.tokens _ _ (replenished_mono _ _ _ h.paced)));
  })
]

-- One use after another.
pub Keeps-trans :
    (b b' b'' : TokenBucket) (g g' : Decimal)
    → Keeps b g b'
    → Keeps b' g' b''
    → Keeps b (plus g g') b''
Keeps-trans b b' b'' g g' h k = record {
  bounded = k.bounded;
  same_capacity = k.same_capacity ∙ h.same_capacity;
  same_rate = k.same_rate ∙ h.same_rate;
  forward = omega (arith, h.forward, k.forward);
  covered =
      let hard = b.hard_refill_per_second in
      let R = replenished hard (b'.last_refill_ns - b.last_refill_ns) in
      let R' = replenished hard (b''.last_refill_ns - b'.last_refill_ns) in
      let later : Le (plus g' b''.tokens) (plus b'.tokens R') = rw h.same_rate at k.covered in
      Le-trans _ _ _ (plus_assoc-le g g' b''.tokens) (
        Le-trans _ _ _ (plus-mono_right g _ _ later) (
          Le-trans _ _ _ (plus-assoc_le g b'.tokens R') (
            Le-trans _ _ _ (plus-mono_left _ _ R' h.covered) (
              Le-trans _ _ _ (plus_assoc-le b.tokens R R') (
                plus-mono_right b.tokens _ _
                  (replenished-add hard _ _ _ (omega (arith, h.forward, k.forward))))))));
}

Keeps-less : (b b' : TokenBucket) (g g' : Decimal) → Le g g' → Keeps b g' b' → Keeps b g b'
Keeps-less b b' g g' h k = record {
  bounded = k.bounded;
  same_capacity = k.same_capacity;
  same_rate = k.same_rate;
  forward = k.forward;
  covered = Le-trans _ _ _ (plus-mono_left g g' b'.tokens h) k.covered;
}

-- A change after the refill of a method.
pub Keeps-after :
    (b b' : TokenBucket) (n : ℕ) (g : Decimal)
    → IsBounded b
    → (IsBounded (refill_at n b) → IsBounded b')
    → b'.hard_capacity ≡ (refill_at n b).hard_capacity
    → b'.hard_refill_per_second ≡ (refill_at n b).hard_refill_per_second
    → b'.last_refill_ns ≡ (refill_at n b).last_refill_ns
    → Le (plus g b'.tokens) (refill_at n b).tokens
    → Keeps b g b'
Keeps-after b b' n g h bound cap rate last less =
    let first = Keeps-refill_at n b h in
    Keeps-less b b' g _ (le-zero-plus g) (
      Keeps-trans b (refill_at n b) b' (of_int 0) g first (record {
        bounded = bound first.bounded;
        same_capacity = cap;
        same_rate = rate;
        forward = omega arith;
        covered = Le-trans _ _ _ less (le-plus _ _);
      }))

pub Keeps-refl : (b : TokenBucket) → IsBounded b → Keeps b (of_int 0) b
Keeps-refl b h = record {
  bounded = h;
  same_capacity = refl;
  same_rate = refl;
  forward = omega arith;
  covered = Le-trans _ b.tokens _ (zero-plus-le b.tokens) (le-plus b.tokens _);
}
