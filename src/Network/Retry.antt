-- ===== src/Network/Retry.antt =====
-- network/retry.py: the classification of an HTTP status, the delays, and the decision to retry.
-- The random generator is `draw`, what `randrange(n)` returns next; `wall_ns` is what the wall clock
-- reads; `parse_date` stands for `email.utils.parsedate_to_datetime`.
pub mod Delay
pub mod Decision
use crytpo_data.Shared.{
  ℕ, zero, suc, ◌+◌, ◌-◌, ◌*◌, ◌/◌, ◌^◌, min, max, Bool, true, false, ◌&&◌, ◌||◌, Option, none,
  some, List, [], ◌∷◌, String, leb, ltb, ◌==◌, if◌then◌else◌, Result, ok, err, value_error, ◌>>=◌,
  ◌>>◌, raise_if, length,
}
use crytpo_data.Network.Bucket.{TokenBucket, DecimalInput, is_digit, shrink}

pub data RetryAction : Type 0 where
  do_not_retry backoff throttle ban : RetryAction

-- The reason strings; `http status` is the text of `http_` and the status.
pub data Reason : Type 0 where
  http : ℕ → Reason
  exchange_ban transient_failure attempt_limit : Reason
  retry_after_exceeds_deadline backoff_exceeds_deadline : Reason
  other_reason : String → Reason

-- Texts are their code points.
pub record RetryClassification : Type 0 where
  pub action : RetryAction
  pub retry_after : Option (List ℕ)
  pub reason : Reason

pub record RetryDecision : Type 0 where
  pub retry : Bool
  pub delay_ns : ℕ
  pub action : RetryAction
  pub cause : Reason
  pub reason : Reason

-- `status in _RETRYABLE_HTTP_STATUSES`
unfoldable pub is_retryable_status : ℕ → Bool
is_retryable_status s = s == 408 || (s == 425 || (s == 500 || (s == 502 || (s == 503 || s == 504))))

abbrev classification : RetryAction → Option (List ℕ) → Reason → Result RetryClassification
classification a t r = ok (record { action = a; retry_after = t; reason = r })

unfoldable pub classify_http :
    ℕ → Option (List ℕ) → (explicit_ban : Bool) → Result RetryClassification
unfolding is_retryable_status
classify_http status retry_after explicit_ban =
    if ltb status 100 || ltb 599 status
    then err value_error
    else if explicit_ban
    then classification ban retry_after exchange_ban
    else if status == 418
    then classification ban retry_after (http 418)
    else if status == 429
    then classification throttle retry_after (http 429)
    else if is_retryable_status status
    then classification backoff retry_after (http status)
    else classification do_not_retry retry_after (http status)

-- `_DELAY_SECONDS.fullmatch`: one digit or more.
abbrev pub all_digits : List ℕ → Bool
all_digits [] = true
all_digits (c ∷ cs) = is_digit c && all_digits cs

unfoldable pub is_delay_seconds : List ℕ → Bool
is_delay_seconds [] = false
is_delay_seconds (c ∷ cs) = all_digits (c ∷ cs)

-- `int(value)`
abbrev pub to_int : ℕ → List ℕ → ℕ
to_int acc [] = acc
to_int acc (c ∷ cs) = to_int (acc * 10 + (c - b'0')) cs

-- The parsed date, as the time since the epoch in UTC; a date before the epoch reads as the epoch.
pub record DateTime : Type 0 where
  pub has_zone : Bool
  pub days : ℕ
  pub seconds : ℕ
  pub microseconds : ℕ

abbrev pub nanoseconds_per_second : ℕ
nanoseconds_per_second = 1_000_000_000

unfoldable pub datetime_to_unix_ns : DateTime → ℕ
datetime_to_unix_ns d =
    (d.days * 86_400 + d.seconds) * nanoseconds_per_second + d.microseconds * 1_000

abbrev pub DateParser : Type 0
DateParser = List ℕ → Option DateTime

-- The date branch of `parse_retry_after_ns`.
unfoldable pub retry_after_date : DateParser → List ℕ → (now_unix_ns : ℕ) → Option ℕ
unfolding datetime_to_unix_ns
retry_after_date parse_date value now_unix_ns = elim (parse_date value) [
  | none ↦ none
  | some d ↦ if d.has_zone then some (datetime_to_unix_ns d - now_unix_ns) else none
]

unfoldable pub parse_retry_after_ns : DateParser → Option (List ℕ) → (now_unix_ns : ℕ) → Option ℕ
unfolding is_delay_seconds retry_after_date
parse_retry_after_ns parse_date none now_unix_ns = none
parse_retry_after_ns parse_date (some []) now_unix_ns = none
parse_retry_after_ns parse_date (some (c ∷ cs)) now_unix_ns =
    let value = c ∷ cs in
    if is_delay_seconds value
    then (if ltb 20 (length value) then none else some (to_int 0 value * nanoseconds_per_second))
    else retry_after_date parse_date value now_unix_ns

-- `int.bit_length`, with fuel.
unfoldable pub bit_length_from : ℕ → ℕ → ℕ
bit_length_from zero n = 0
bit_length_from (suc fuel) n = elim (n == 0) [
  | true ↦ 0
  | false ↦ suc (bit_length_from fuel (n / 2))
]

unfoldable pub bit_length : ℕ → ℕ
unfolding bit_length_from
bit_length n = bit_length_from n n

unfoldable pub exponential_limit : (attempt base_ns cap_ns : ℕ) → ℕ
unfolding bit_length
exponential_limit attempt base_ns cap_ns =
    if leb cap_ns base_ns || ltb (bit_length cap_ns) attempt
    then cap_ns
    else min cap_ns (base_ns * 2 ^ attempt)

unfoldable pub positive_integer : ℕ → Result ℕ
positive_integer n = if n == 0 then err value_error else ok n

unfoldable pub full_jitter_ns : (attempt base_ns cap_ns : ℕ) → (draw : ℕ → ℕ) → Result ℕ
unfolding positive_integer
full_jitter_ns attempt base_ns cap_ns draw = do
  base ← positive_integer base_ns
  cap ← positive_integer cap_ns
  ok (draw (exponential_limit attempt base cap + 1))

pub record RetryPolicy : Type 0 where
  pub max_attempts : ℕ
  pub base_ns : ℕ
  pub cap_ns : ℕ

-- `RetryPolicy.__init__`
unfoldable pub new_policy : (max_attempts base_ns cap_ns : ℕ) → Result RetryPolicy
unfolding positive_integer
new_policy max_attempts base_ns cap_ns = do
  m ← positive_integer max_attempts
  b ← positive_integer base_ns
  c ← positive_integer cap_ns
  ok (record { max_attempts = m; base_ns = b; cap_ns = c })

-- The module's `retry_policy` with its defaults.
unfoldable pub default_policy : Result RetryPolicy
unfolding new_policy
default_policy = new_policy 5 250_000_000 30_000_000_000

-- What `decide` is called with. The outside is the generator, the wall clock and the date parser.
pub record Outside : Type 0 where
  pub draw : ℕ → ℕ
  pub wall_ns : ℕ
  pub parse_date : DateParser

abbrev pub or_zero : Option ℕ → ℕ
or_zero none = 0
or_zero (some n) = n

-- The parsed Retry-After of a classification; the wall clock is read only for a date.
unfoldable pub parsed_retry_after : Outside → Option (List ℕ) → Option ℕ
unfolding parse_retry_after_ns
parsed_retry_after out none = none
parsed_retry_after out (some text) =
    parse_retry_after_ns out.parse_date (some text)
      (if is_delay_seconds text then 0 else out.wall_ns)

abbrev exceeds : Option ℕ → ℕ → Bool
exceeds none remaining = false
exceeds (some n) remaining = ltb remaining n

-- The last part of `decide`, with the delays computed.
unfoldable pub conclude :
    RetryClassification
    → (attempt max_attempts remaining : ℕ) → Option ℕ
    → (jitter : ℕ) → RetryDecision
conclude selected attempt max_attempts remaining parsed jitter =
    let delay = max (or_zero parsed) jitter in
    let refuse : Reason → RetryDecision = λ why. record {
      retry = false;
      delay_ns = delay;
      action = selected.action;
      cause = selected.reason;
      reason = why;
    } in
    if leb max_attempts attempt
    then refuse attempt_limit
    else if exceeds parsed remaining
    then refuse retry_after_exceeds_deadline
    else if ltb remaining delay
    then refuse backoff_exceeds_deadline
    else record {
      retry = true;
      delay_ns = delay;
      action = selected.action;
      cause = selected.reason;
      reason = selected.reason;
    }

-- `classification or RetryClassification(BACKOFF, retry_after, "transient_failure")`
unfoldable pub select_classification :
    Option (List ℕ) → Option RetryClassification → RetryClassification
select_classification retry_after none = record {
  action = backoff;
  retry_after = retry_after;
  reason = transient_failure;
}
select_classification retry_after (some c) = c

abbrev pub is_some {ℓ} : {A : Type ℓ} → Option A → Bool
is_some none = false
is_some (some _) = true

abbrev refuses : RetryAction → Bool
refuses do_not_retry = true
refuses _ = false

-- The rest of `decide`, once the arguments are accepted.
unfoldable pub decide_selected :
    RetryPolicy → Outside → (attempt remaining : ℕ) → RetryClassification → Result RetryDecision
unfolding full_jitter_ns parsed_retry_after conclude
decide_selected policy out attempt remaining selected =
    if refuses selected.action
    then ok (record {
      retry = false;
      delay_ns = 0;
      action = selected.action;
      cause = selected.reason;
      reason = selected.reason;
    })
    else full_jitter_ns attempt policy.base_ns policy.cap_ns out.draw >>= λ jitter. ok (
        conclude selected attempt policy.max_attempts remaining
          (parsed_retry_after out selected.retry_after) jitter)

-- `RetryPolicy.decide`
unfoldable pub decide :
    RetryPolicy
    → Outside
    → (attempt now_ns deadline_ns : ℕ) → (retry_after : Option (List ℕ))
    → (classification : Option RetryClassification) → Result RetryDecision
unfolding select_classification decide_selected
decide policy out attempt now_ns deadline_ns retry_after classification = do
  raise_if (ltb deadline_ns now_ns) value_error
  raise_if (is_some classification && is_some retry_after) value_error
  decide_selected policy out attempt (deadline_ns - now_ns)
      (select_classification retry_after classification)

-- What `record_ban` of the state store is called with.
pub record BanRequest : Type 0 where
  pub exchange : String
  pub quota_group : String
  pub until_unix_ns : ℕ
  pub reason : Reason

-- `apply_quota_retry_effect`: the ban that it records, if any, and what became of the budget.
unfoldable pub apply_quota_retry_effect :
    RetryDecision
    → (exchange quota_group : String) → (now_unix_ns : ℕ)
    → (throttle_multiplier minimum_refill : DecimalInput) → (clock : ℕ) → TokenBucket
    → Option BanRequest × (Result (Unit {0}) × TokenBucket)
apply_quota_retry_effect d exchange quota_group now_unix_ns multiplier floor clock budget =
    elim d.action [
      | ban ↦ (
        some (record {
          exchange = exchange;
          quota_group = quota_group;
          until_unix_ns = now_unix_ns + d.delay_ns;
          reason = d.cause;
        }),
        (ok tt, budget),
      )
      | throttle ↦ (none, shrink multiplier floor clock budget)
      | _ ↦ (none, (ok tt, budget))
    ]
