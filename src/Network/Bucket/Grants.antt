-- ===== src/Network/Bucket/Grants.antt =====
-- Sequences of uses of the token bucket in network/rate_limit.py.
use crytpo_data.Shared.{
  ℕ, ◌≡◌, refl, inl, inr, Option, List, [], ◌∷◌, ok, err, Error, arith, Bool-cases, Option-cases,
  Result-cases,
}
use crytpo_data.Shared.Decimal.{
  Decimal, of_int, Le, Le-trans, decimal_leb, leb→Le, least-le_left, greatest-le, times-le,
  minus-le, put-back-le, zero-plus-le,
}
use crytpo_data.Network.Bucket.{
  TokenBucket, DecimalInput, finite, negative, not_finite, refill_at, refill, reading, spend,
  checked_cost, try_acquire, ready_at_ns, decimal_text, observe_available, checked_multiplier,
  shrink, set_refill_multiplier,
}
use crytpo_data.Network.Bucket.Ready.{try_acquire-checked}
use crytpo_data.Network.Bucket.Use.{
  Use, acquire, ask, read_tokens, observe, slow_down, set_rate, granted, perform, perform_all,
}
use crytpo_data.Network.Bucket.Bounds.{
  IsBounded, Keeps, Keeps-refill_at, Keeps-trans, Keeps-after, Keeps-refl,
}

checked_cost-finite :
    (cost : DecimalInput) (c : Decimal) (b : TokenBucket)
    → checked_cost cost b ≡ ok c
    → cost ≡ finite c
unfolding checked_cost
checked_cost-finite cost c b h = ground arith

Keeps-spend :
    (b : TokenBucket) (n : ℕ) (c : Decimal)
    → IsBounded b
    → Keeps b (granted (finite c) (spend c (refill_at n b)).0) (spend c (refill_at n b)).1
unfolding spend
Keeps-spend b n c h = elim (Bool-cases (decimal_leb c (refill_at n b).tokens)) [
  | inl enough ↦ rw enough (
      Keeps-after b _ n c h
        (λ v. record {
          whole = v.whole;
          filled = Le-trans _ _ _ (minus-le _ c) v.filled;
          paced = v.paced;
        })
        refl refl refl (put-back-le c _ (leb→Le _ _ enough)))
  | inr short ↦ rw short (Keeps-after b _ n (of_int 0) h (λ v. v) refl refl refl (zero-plus-le _))
]

granted-err : (cost : DecimalInput) (e : Error) → granted cost (err e) ≡ of_int 0
granted-err not_finite e = refl
granted-err (negative d) e = refl
granted-err (finite d) e = refl

-- A granted cost leaves the bucket; a refused one changes nothing after the refill.
Keeps-acquire :
    (cost : DecimalInput) (clock : ℕ) (now_ns : Option ℕ) (b : TokenBucket)
    → IsBounded b
    → Keeps b (granted cost (try_acquire cost clock now_ns b).0) (try_acquire cost clock now_ns b).1
unfolding refill try_acquire
Keeps-acquire cost clock now_ns b h = elim (Result-cases (checked_cost cost b)) [
  | inl (e, bad) ↦ rw (bad, try_acquire) (rw (granted-err cost e) (Keeps-refl b h))
  | inr (c, good) ↦
      rw (try_acquire-checked cost c clock now_ns b good, checked_cost-finite cost c b good)
        (Keeps-spend b (reading clock now_ns) c h)
]

-- Neither question moves a token.
Keeps-ask :
    (cost : DecimalInput) (clock : ℕ) (now_ns : Option ℕ) (b : TokenBucket)
    → IsBounded b
    → Keeps b (of_int 0) (ready_at_ns cost clock now_ns b).1
unfolding ready_at_ns refill
Keeps-ask cost clock now_ns b h = elim (Result-cases (checked_cost cost b)) [
  | inl (e, bad) ↦ rw (bad, ready_at_ns) (Keeps-refl b h)
  | inr (c, good) ↦ rw (good, ready_at_ns) (Keeps-refill_at _ b h)
]

-- An observed availability only takes tokens away.
Keeps-observe :
    (raw : List ℕ) (clock : ℕ) (b : TokenBucket)
    → IsBounded b
    → Keeps b (of_int 0) (observe_available raw clock b).1
unfolding observe_available refill
Keeps-observe raw clock b h = elim (Option-cases (decimal_text raw)) [
  | inl bad ↦ rw (bad, observe_available) (Keeps-refl b h)
  | inr (d, good) ↦
      rw (good, observe_available)
        (let less = Le-trans _ _ _ (least-le_left _ d) (least-le_left _ _) in
          Keeps-after b _ clock (of_int 0) h
            (λ v. record {
              whole = v.whole;
              filled = Le-trans _ _ _ less v.filled;
              paced = v.paced;
            })
            refl refl refl (Le-trans _ _ _ (zero-plus-le _) less))
]

checked_multiplier-le :
    (multiplier floor : DecimalInput) (b : TokenBucket) (m f : Decimal)
    → checked_multiplier multiplier floor b ≡ ok (m, f)
    → Le m (of_int 1) × Le f b.hard_refill_per_second
unfolding checked_multiplier
checked_multiplier-le multiplier floor b m f h = ground arith

refill_at-hard_rate :
    (n : ℕ) (b : TokenBucket) → (refill_at n b).hard_refill_per_second ≡ b.hard_refill_per_second
unfolding refill_at
refill_at-hard_rate n b = ground arith

-- A shrunken rate stays at or below the rate before, and a set one at or below the hard rate.
Keeps-shrink :
    (multiplier floor : DecimalInput) (clock : ℕ) (b : TokenBucket)
    → IsBounded b
    → Keeps b (of_int 0) (shrink multiplier floor clock b).1
unfolding shrink refill
Keeps-shrink multiplier floor clock b h =
    elim (Result-cases (checked_multiplier multiplier floor b)) [
      | inl (e, bad) ↦ rw (bad, shrink) (Keeps-refl b h)
      | inr ((m, f), good) ↦
          rw (good, shrink)
            (Keeps-after b _ clock (of_int 0) h
              (λ v. record {
                whole = v.whole;
                filled = v.filled;
                paced = Le-trans _ _ _ (least-le_left _ _) v.paced;
              })
              refl refl refl (zero-plus-le _))
    ]

Keeps-set_refill_multiplier :
    (multiplier floor : DecimalInput) (clock : ℕ) (b : TokenBucket)
    → IsBounded b
    → Keeps b (of_int 0) (set_refill_multiplier multiplier floor clock b).1
unfolding set_refill_multiplier refill
Keeps-set_refill_multiplier multiplier floor clock b h =
    elim (Result-cases (checked_multiplier multiplier floor b)) [
      | inl (e, bad) ↦ rw (bad, set_refill_multiplier) (Keeps-refl b h)
      | inr ((m, f), good) ↦
          let limits = checked_multiplier-le multiplier floor b m f good in
          rw (good, set_refill_multiplier)
            (Keeps-after b _ clock (of_int 0) h
              (λ v. record {
                whole = v.whole;
                filled = v.filled;
                paced =
                    greatest-le _ _ _ (rw (refill_at-hard_rate clock b) limits.1)
                      (times-le _ _ limits.0);
              })
              refl refl refl (zero-plus-le _))
    ]

Keeps-perform : (u : Use) (b : TokenBucket) → IsBounded b → Keeps b (perform u b).0 (perform u b).1
unfolding perform refill
Keeps-perform (acquire cost clock now_ns) b h = Keeps-acquire cost clock now_ns b h
Keeps-perform (ask cost clock now_ns) b h = Keeps-ask cost clock now_ns b h
Keeps-perform (read_tokens clock) b h = Keeps-refill_at clock b h
Keeps-perform (observe raw clock) b h = Keeps-observe raw clock b h
Keeps-perform (slow_down multiplier floor clock) b h = Keeps-shrink multiplier floor clock b h
Keeps-perform (set_rate multiplier floor clock) b h =
    Keeps-set_refill_multiplier multiplier floor clock b h

-- Over any sequence of uses of a bounded bucket, the bounds hold at the end, the hard limits are
-- the same, time has not gone back, and the tokens granted together with those left are at most
-- the tokens at the start and those that the hard rate brings in the time gone by.
pub perform_all-Keeps :
    (us : List Use) (b : TokenBucket)
    → IsBounded b
    → Keeps b (perform_all us b).0 (perform_all us b).1
unfolding perform_all
perform_all-Keeps [] b h = Keeps-refl b h
perform_all-Keeps (u ∷ us) b h =
    let first = Keeps-perform u b h in
    Keeps-trans b _ _ _ _ first (perform_all-Keeps us (perform u b).1 first.bounded)
