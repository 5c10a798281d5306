-- ===== src/Examples/Network.antt =====
-- The token bucket and the retry policy at concrete inputs.
use crytpo_data.Shared.{
  ℕ, ◌≡◌, refl, ◌≤◌, ◌*◌, ◌^◌, min, ◌↔◌, Option, none, some, List, [], ◌∷◌, true, ok, arith,
}
use crytpo_data.Shared.Decimal.{of_int, den}
use crytpo_data.Network.Bucket.{
  TokenBucket, finite, decimal_input, new_bucket, checked_cost, ready_at_ns, try_acquire, refill_at,
}
use crytpo_data.Network.Bucket.Ready.{ReadyBy, ready_at_ns-exact}
use crytpo_data.Network.Bucket.Use.{Use, acquire, slow_down, perform_all}
use crytpo_data.Network.Bucket.Bounds.{IsBounded, Keeps}
use crytpo_data.Network.Bucket.Grants.{perform_all-Keeps}
use crytpo_data.Network.Retry.{
  Outside, RetryPolicy, RetryAction, backoff, decide, exponential_limit, full_jitter_ns, is_some,
}
use crytpo_data.Network.Retry.Delay.{DrawsBelow, exponential_limit-eq-min, full_jitter_ns-le}

-- Ten tokens at most, two a second, three left at instant 100.
abbrev pub small_bucket : TokenBucket
small_bucket = record {
  hard_capacity = of_int 10;
  capacity = of_int 10;
  hard_refill_per_second = of_int 2;
  refill_per_second = of_int 2;
  tokens = of_int 3;
  last_refill_ns = 100;
}

small_bucket-IsBounded : IsBounded small_bucket
unfolding den
small_bucket-IsBounded = record { whole = refl; filled = omega arith; paced = omega arith }

small_bucket-cost : checked_cost (finite (of_int 4)) small_bucket ≡ ok (of_int 4)
unfolding checked_cost decimal_input den
small_bucket-cost = refl

ready_at_small : (ready_at_ns (finite (of_int 4)) 100 none small_bucket).0 ≡ ok (some 500_000_100)
unfolding ready_at_ns refill_at
ready_at_small = refl

ready_at_ns-exact_example :
    let (r, b') = ready_at_ns (finite (of_int 4)) 100 none small_bucket in
    (o : Option ℕ) × (r ≡ ok o)
    × ((u : ℕ)
        → b'.last_refill_ns ≤ u
        → ((try_acquire (finite (of_int 4)) 100 (some u) b').0 ≡ ok true) ↔ ReadyBy o u)
ready_at_ns-exact_example =
    ready_at_ns-exact (finite (of_int 4)) (of_int 4) 100 none small_bucket small_bucket-cost refl

abbrev some_uses : List Use
some_uses =
    acquire (finite (of_int 2)) 100 none
    ∷ slow_down (finite (record { coeff = 5; scale = 1 })) (finite (of_int 1)) 200
    ∷ acquire (finite (of_int 2)) 1_000_000_000 none
    ∷ []

perform_all-Keeps_example :
    Keeps small_bucket (perform_all some_uses small_bucket).0 (perform_all some_uses small_bucket).1
perform_all-Keeps_example = perform_all-Keeps some_uses small_bucket small_bucket-IsBounded

abbrev full_bucket : TokenBucket
full_bucket = record small_bucket { tokens = of_int 10 }

new_bucket-full : new_bucket (finite (of_int 10)) (finite (of_int 2)) 100 ≡ ok full_bucket
unfolding new_bucket decimal_input
new_bucket-full = refl

abbrev draw_zero : ℕ → ℕ
draw_zero n = 0

draw_zero-DrawsBelow : DrawsBelow draw_zero
draw_zero-DrawsBelow n h = h

exponential_limit-eq-min_example : exponential_limit 3 250 30_000 ≡ min 30_000 (250 * 2 ^ 3)
exponential_limit-eq-min_example = exponential_limit-eq-min 3 250 30_000 (omega arith)

full_jitter_ns-le_example :
    (jitter : ℕ) × (full_jitter_ns 3 250 30_000 draw_zero ≡ ok jitter)
    × (jitter ≤ min 30_000 (250 * 2 ^ 3))
full_jitter_ns-le_example =
    full_jitter_ns-le 3 250 30_000 draw_zero draw_zero-DrawsBelow (omega arith) (omega arith)

abbrev small_policy : RetryPolicy
small_policy = record { max_attempts = 5; base_ns = 250; cap_ns = 30_000 }

abbrev outside : Outside
outside = record { draw = draw_zero; wall_ns = 0; parse_date = λ text. none }

-- "2": two seconds.
abbrev two_seconds : Option (List ℕ)
two_seconds = some (50 ∷ [])

decide-two_seconds :
    decide small_policy outside 1 1_000 5_000_000_000 two_seconds none
    ≡ ok (record {
      retry = true;
      delay_ns = 2_000_000_000;
      action = backoff;
      cause = crytpo_data.Network.Retry.Reason.transient_failure;
      reason = crytpo_data.Network.Retry.Reason.transient_failure;
    })
unfolding decide
decide-two_seconds = refl
