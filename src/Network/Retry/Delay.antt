-- ===== src/Network/Retry/Delay.antt =====
-- The delays of network/retry.py: `_exponential_limit` and `full_jitter_ns`.
use native.Mathlib.Nat.{
  pow-suc, pow-zero, pow-le-pow_right, one-le-pow, mul-le-mul_left, mul-le-mul_right,
}
use crytpo_data.Shared.{
  ℕ, zero, suc, ◌+◌, ◌*◌, ◌/◌, ◌^◌, ◌≤◌, ◌<◌, ◌≡◌, refl, min, inl, inr, ok, arith, leb, ltb, ◌==◌,
  leb→le, ltb→lt, Bool-cases,
}
use crytpo_data.Network.Retry.{bit_length_from, bit_length, exponential_limit, full_jitter_ns}

-- Every number has at most its `bit_length` binary digits.
lt-pow-bit_length_from : (fuel n : ℕ) → n ≤ fuel → n < 2 ^ bit_length_from fuel n
unfolding bit_length_from
lt-pow-bit_length_from zero n h = rw pow-zero (omega arith)
lt-pow-bit_length_from (suc fuel) n h = elim (Bool-cases (n == 0)) [
  | inl z ↦ rw (z, bit_length_from) (rw pow-zero (ground arith))
  | inr pos ↦
      rw (pos, bit_length_from)
        (rw pow-suc (let ih = lt-pow-bit_length_from fuel (n / 2) (ground arith) in omega arith))
]

lt-pow-bit_length : (n : ℕ) → n < 2 ^ bit_length n
unfolding bit_length
lt-pow-bit_length n = lt-pow-bit_length_from n n (omega arith)

-- For a positive base, `exponential_limit` with its short cut is the smaller of the cap and the
-- base times two to the attempt.
pub exponential_limit-eq-min :
    (attempt base_ns cap_ns : ℕ)
    → 0 < base_ns
    → exponential_limit attempt base_ns cap_ns ≡ min cap_ns (base_ns * 2 ^ attempt)
unfolding exponential_limit
exponential_limit-eq-min attempt base_ns cap_ns pos = elim (Bool-cases (leb cap_ns base_ns)) [
  | inl low ↦
      rw (low, exponential_limit)
        (let one = one-le-pow attempt 2 (omega arith) in
          let grow = mul-le-mul_left base_ns one in omega (arith, leb→le _ _ low))
  | inr high ↦ elim (Bool-cases (ltb (bit_length cap_ns) attempt)) [
    | inl many ↦
        rw (high, many, exponential_limit)
          (let big = lt-pow-bit_length cap_ns in
            let more : 2 ^ bit_length cap_ns ≤ 2 ^ attempt =
              pow-le-pow_right (omega arith) (omega (arith, ltb→lt _ _ many)) in
            let grow = mul-le-mul_right (2 ^ attempt) pos in omega arith)
    | inr few ↦ rw (high, few, exponential_limit) refl
  ]
]

-- What `randrange` promises: a draw below its bound.
abbrev pub DrawsBelow : (ℕ → ℕ) → Type 0
DrawsBelow draw = (n : ℕ) → 0 < n → draw n < n

-- With a generator that draws below its bound, and a positive base and cap, the jitter is drawn, and lies between zero and the exponential
-- limit.
pub full_jitter_ns-le :
    (attempt base_ns cap_ns : ℕ) (draw : ℕ → ℕ)
    → DrawsBelow draw
    → 0 < base_ns
    → 0 < cap_ns
    → (jitter : ℕ) × (full_jitter_ns attempt base_ns cap_ns draw ≡ ok jitter)
      × (jitter ≤ min cap_ns (base_ns * 2 ^ attempt))
unfolding full_jitter_ns
full_jitter_ns-le attempt base_ns cap_ns draw below pb pc =
    let limit = exponential_limit attempt base_ns cap_ns in
    (
      draw (limit + 1),
      ground arith,
      omega (
        arith,
        below (limit + 1) (omega arith),
        exponential_limit-eq-min attempt base_ns cap_ns pb,
      ),
    )
