-- ===== src/Network/Bucket.antt =====
-- The token bucket of network/rate_limit.py. A method takes the bucket and returns it with its
-- result; the bucket comes back after an exception too. Instants are naturals, which is what
-- `_nonnegative_nanoseconds` lets through; `clock` is what the shared clock reads at the call.
pub mod Ready
pub mod Use
pub mod Bounds
pub mod Grants
use crytpo_data.Shared.{
  ℕ, ◌+◌, ◌-◌, ◌*◌, ◌/◌, Bool, true, false, ◌&&◌, not, Option, none, some, List, [], ◌∷◌, leb, ◌==◌,
  if◌then◌else◌, Result, ok, err, value_error, ◌>>=◌, ◌>>◌, raise_if,
}
use crytpo_data.Shared.Decimal.{
  Decimal, den, of_int, decimal_leb, least, greatest, plus, minus, times, shift_down,
}

-- `int | Decimal`: a value that is no finite number, one below zero, or any other.
pub data DecimalInput : Type 0 where
  not_finite : DecimalInput
  negative : Decimal → DecimalInput
  finite : Decimal → DecimalInput

-- `_decimal_input`
unfoldable pub decimal_input : DecimalInput → (allow_zero : Bool) → Result Decimal
decimal_input not_finite allow_zero = err value_error
decimal_input (negative d) allow_zero = err value_error
decimal_input (finite d) allow_zero =
    if not allow_zero && d.coeff == 0 then err value_error else ok d

pub record TokenBucket : Type 0 where
  pub hard_capacity : Decimal
  pub capacity : Decimal
  pub hard_refill_per_second : Decimal
  pub refill_per_second : Decimal
  pub tokens : Decimal
  pub last_refill_ns : ℕ

-- `TokenBucket.__init__`
unfoldable pub new_bucket :
    (capacity refill_per_second : DecimalInput) (clock : ℕ) → Result TokenBucket
unfolding decimal_input
new_bucket capacity refill_per_second clock = do
  hard_capacity ← decimal_input capacity false
  hard_refill ← decimal_input refill_per_second false
  ok (record {
    hard_capacity = hard_capacity;
    capacity = hard_capacity;
    hard_refill_per_second = hard_refill;
    refill_per_second = hard_refill;
    tokens = hard_capacity;
    last_refill_ns = clock;
  })

-- The tokens that `elapsed` nanoseconds add at a rate per second.
unfoldable pub replenished : Decimal → ℕ → Decimal
replenished rate elapsed = shift_down (times rate (of_int elapsed)) 9

-- `TokenBucket._refill`, at `now_ns` or else at the clock's reading
unfoldable pub refill_at : ℕ → TokenBucket → TokenBucket
refill_at now b = if leb now b.last_refill_ns then b else record b {
  tokens =
      least b.capacity (plus b.tokens (replenished b.refill_per_second (now - b.last_refill_ns)));
  last_refill_ns = now;
}

abbrev pub reading : ℕ → Option ℕ → ℕ
reading clock none = clock
reading clock (some now) = now

unfoldable pub refill : ℕ → Option ℕ → TokenBucket → TokenBucket
refill clock now_ns b = refill_at (reading clock now_ns) b

abbrev pub Call : Type 0 → Type 0
Call A = TokenBucket → Result A × TokenBucket

-- A cost as `try_acquire` and `ready_at_ns` check it: positive, and at most the hard capacity.
unfoldable pub checked_cost : DecimalInput → TokenBucket → Result Decimal
unfolding decimal_input
checked_cost cost b = do
  normalized ← decimal_input cost false
  raise_if (not (decimal_leb normalized b.hard_capacity)) value_error
  ok normalized

-- The end of `try_acquire`, after the refill.
unfoldable pub spend : Decimal → Call Bool
spend cost b =
    if decimal_leb cost b.tokens
    then (ok true, record b { tokens = minus b.tokens cost })
    else (ok false, b)

-- `TokenBucket.try_acquire`
unfoldable pub try_acquire : DecimalInput → (clock : ℕ) → (now_ns : Option ℕ) → Call Bool
unfolding checked_cost spend refill
try_acquire cost clock now_ns b = elim (checked_cost cost b) [
  | err e ↦ (err e, b)
  | ok normalized ↦ spend normalized (refill clock now_ns b)
]

unfoldable pub ceil_ratio : ℕ → ℕ → ℕ
ceil_ratio numerator denominator = (numerator + denominator - 1) / denominator

-- The wait in nanoseconds until the missing tokens have come in. The ratio of a value is
-- `coeff / den`; the source's is in lowest terms, which changes no rounded-up quotient.
unfoldable pub wait_ns : Decimal → TokenBucket → ℕ
unfolding ceil_ratio den
wait_ns cost b =
    let missing_numerator = cost.coeff * den b.tokens - b.tokens.coeff * den cost in
    let missing_denominator = den cost * den b.tokens in
    ceil_ratio (missing_numerator * den b.refill_per_second * 1_000_000_000)
      (missing_denominator * b.refill_per_second.coeff)

-- The end of `ready_at_ns`, after the refill.
unfoldable pub ready_instant : Decimal → TokenBucket → Option ℕ
unfolding wait_ns
ready_instant cost b =
    if decimal_leb cost b.tokens
    then some b.last_refill_ns
    else if b.refill_per_second.coeff == 0
    then none
    else some (b.last_refill_ns + wait_ns cost b)

-- `TokenBucket.ready_at_ns`
unfoldable pub ready_at_ns : DecimalInput → (clock : ℕ) → (now_ns : Option ℕ) → Call (Option ℕ)
unfolding checked_cost ready_instant refill
ready_at_ns cost clock now_ns b = elim (checked_cost cost b) [
  | err e ↦ (err e, b)
  | ok normalized ↦ let b' = refill clock now_ns b in (ok (ready_instant normalized b'), b')
]

abbrev pub is_digit : ℕ → Bool
is_digit c = leb b'0' c && leb c b'9'

-- `_NONNEGATIVE_DECIMAL_TEXT` and `Decimal(text)`, over the code points of the text: digits, and
-- after a point one digit or more.
unfoldable pub fraction_digits : ℕ → ℕ → List ℕ → Option Decimal
fraction_digits acc scale [] = some (record { coeff = acc; scale = scale })
fraction_digits acc scale (c ∷ cs) =
    let rest = fraction_digits (acc * 10 + (c - b'0')) (scale + 1) cs in
    if is_digit c then rest else none

unfoldable pub after_point : ℕ → List ℕ → Option Decimal
unfolding fraction_digits
after_point acc [] = none
after_point acc (c ∷ cs) = fraction_digits acc 0 (c ∷ cs)

unfoldable pub integer_digits : ℕ → List ℕ → Option Decimal
unfolding after_point
integer_digits acc [] = some (of_int acc)
integer_digits acc (c ∷ cs) =
    let rest = integer_digits (acc * 10 + (c - b'0')) cs in
    if is_digit c then rest else if c == b'.' then after_point acc cs else none

unfoldable pub decimal_text : List ℕ → Option Decimal
unfolding integer_digits
decimal_text [] = none
decimal_text (c ∷ cs) = if is_digit c then integer_digits 0 (c ∷ cs) else none

-- `TokenBucket.observe_available`
unfoldable pub observe_available : (raw : List ℕ) (clock : ℕ) → TokenBucket → Bool × TokenBucket
unfolding decimal_text refill
observe_available raw clock b = elim (decimal_text raw) [
  | none ↦ (false, b)
  | some observed ↦
      let b' = refill clock none b in
      (true, record b' { tokens = least (least b'.tokens b'.capacity) observed })
]

-- The checks of `shrink` and `set_refill_multiplier`.
unfoldable pub checked_multiplier :
    DecimalInput → DecimalInput → TokenBucket → Result (Decimal × Decimal)
unfolding decimal_input
checked_multiplier multiplier floor b = do
  m ← decimal_input multiplier false
  f ← decimal_input floor true
  raise_if (not (decimal_leb m (of_int 1))) value_error
  raise_if (not (decimal_leb f b.hard_refill_per_second)) value_error
  ok (m, f)

-- `TokenBucket.shrink`
unfoldable pub shrink : (multiplier floor : DecimalInput) (clock : ℕ) → Call (Unit {0})
unfolding checked_multiplier refill
shrink multiplier floor clock b = elim (checked_multiplier multiplier floor b) [
  | err e ↦ (err e, b)
  | ok (m, f) ↦
      let b' = refill clock none b in
      let reduced = times b'.refill_per_second m in
      (ok tt, record b' { refill_per_second = least b'.refill_per_second (greatest f reduced) })
]

-- `TokenBucket.set_refill_multiplier`
unfoldable pub set_refill_multiplier :
    (multiplier floor : DecimalInput) (clock : ℕ) → Call (Unit {0})
unfolding checked_multiplier refill
set_refill_multiplier multiplier floor clock b = elim (checked_multiplier multiplier floor b) [
  | err e ↦ (err e, b)
  | ok (m, f) ↦
      let b' = refill clock none b in
      (ok tt, record b' { refill_per_second = greatest f (times b'.hard_refill_per_second m) })
]
