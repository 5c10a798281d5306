-- ===== src/Network/Bucket/Use.antt =====
-- The uses that a client makes of the token bucket in network/rate_limit.py, in the order in which it makes them, and the tokens
-- that they are granted.
use crytpo_data.Shared.{ℕ, Option, none, Bool, true, List, [], ◌∷◌, Result, ok}
use crytpo_data.Shared.Decimal.{Decimal, of_int, plus}
use crytpo_data.Network.Bucket.{
  TokenBucket, DecimalInput, finite, refill, try_acquire, ready_at_ns, observe_available, shrink,
  set_refill_multiplier,
}

pub data Use : Type 0 where
  acquire : (cost : DecimalInput) (clock : ℕ) (now_ns : Option ℕ) → Use
  ask : (cost : DecimalInput) (clock : ℕ) (now_ns : Option ℕ) → Use
  read_tokens : (clock : ℕ) → Use
  observe : (raw : List ℕ) (clock : ℕ) → Use
  slow_down : (multiplier floor : DecimalInput) (clock : ℕ) → Use
  set_rate : (multiplier floor : DecimalInput) (clock : ℕ) → Use

-- The tokens that a call of `try_acquire` was granted.
abbrev pub granted : DecimalInput → Result Bool → Decimal
granted (finite cost) (ok true) = cost
granted _ _ = of_int 0

unfoldable pub perform : Use → TokenBucket → Decimal × TokenBucket
perform (acquire cost clock now_ns) b =
    let (r, b') = try_acquire cost clock now_ns b in (granted cost r, b')
perform (ask cost clock now_ns) b = (of_int 0, (ready_at_ns cost clock now_ns b).1)
perform (read_tokens clock) b = (of_int 0, refill clock none b)
perform (observe raw clock) b = (of_int 0, (observe_available raw clock b).1)
perform (slow_down multiplier floor clock) b = (of_int 0, (shrink multiplier floor clock b).1)
perform (set_rate multiplier floor clock) b =
    (of_int 0, (set_refill_multiplier multiplier floor clock b).1)

unfoldable pub perform_all : List Use → TokenBucket → Decimal × TokenBucket
perform_all [] b = (of_int 0, b)
perform_all (u ∷ us) b =
    let (first, b') = perform u b in let (rest, b'') = perform_all us b' in (plus first rest, b'')
