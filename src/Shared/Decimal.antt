-- ===== src/Shared/Decimal.antt =====
-- Non-negative finite values of Python's `decimal.Decimal`: `coeff / 10 ^ scale`. The code sets the
-- context precision from its operands so that no operation rounds; the operations here are exact.
use Prim.Native.Nat.{ℕ, zero, suc, ◌+◌, ◌-◌, ◌*◌, ◌^◌, ◌≤◌, ◌<◌}
use mathlib.Core.Path.{◌≡◌, refl, ap}
use mathlib.Core.Logic.{◌↔◌}
use mathlib.Core.Bool.{Bool, true, false}
use native.Mathlib.Omega.{arith}
use native.Mathlib.Nat.{
  one-le-pow, mul-le-mul_right, mul-le-mul_left, le_of_mul-le-mul_right, pow-suc, add-zero, add-suc,
  pow-zero, mul-one, mul_assoc,
}
use crytpo_data.Shared.Tests.{leb, if◌then◌else◌, leb→le}

pub record Decimal : Type 0 where
  pub coeff : ℕ
  pub scale : ℕ

-- The denominator.
unfoldable pub den : Decimal → ℕ
den d = 10 ^ d.scale

pub den-pos : (d : Decimal) → 0 < den d
unfolding den
den-pos d = one-le-pow d.scale 10 (omega arith)

-- `Decimal(n)`
abbrev pub of_int : ℕ → Decimal
of_int n = record { coeff = n; scale = 0 }

-- The order of the values.
abbrev pub Le : Decimal → Decimal → Type 0
Le a b = a.coeff * den b ≤ b.coeff * den a

-- `a <= b`
abbrev pub decimal_leb : Decimal → Decimal → Bool
decimal_leb a b = leb (a.coeff * den b) (b.coeff * den a)

-- `min(a, b)` and `max(a, b)`, which return the first of two equal values
unfoldable pub least : Decimal → Decimal → Decimal
least a b = if decimal_leb a b then a else b

unfoldable pub greatest : Decimal → Decimal → Decimal
greatest a b = if decimal_leb b a then a else b

unfoldable pub plus : Decimal → Decimal → Decimal
plus a b = record {
  coeff = a.coeff * 10 ^ b.scale + b.coeff * 10 ^ a.scale;
  scale = a.scale + b.scale;
}

-- `a - b` where b is at most a
unfoldable pub minus : Decimal → Decimal → Decimal
minus a b = record {
  coeff = a.coeff * 10 ^ b.scale - b.coeff * 10 ^ a.scale;
  scale = a.scale + b.scale;
}

unfoldable pub times : Decimal → Decimal → Decimal
times a b = record { coeff = a.coeff * b.coeff; scale = a.scale + b.scale }

-- `a / 10 ^ k`
unfoldable pub shift_down : Decimal → ℕ → Decimal
shift_down a k = record { coeff = a.coeff; scale = a.scale + k }

pub Le-refl : (a : Decimal) → Le a a
Le-refl a = omega arith

pub Le-trans : (a b c : Decimal) → Le a b → Le b c → Le a c
Le-trans a b c p q =
    le_of_mul-le-mul_right {k = den b}
      (omega (arith, mul-le-mul_right (den c) p, mul-le-mul_right (den a) q)) (den-pos b)

pow_add : (b m n : ℕ) → b ^ (m + n) ≡ b ^ m * b ^ n
pow_add b m zero = simp (add-zero, pow-zero, mul-one)
pow_add b m (suc n) = simp (add-suc, pow-suc, pow_add b m n, mul_assoc)

pub den-of_int : (n : ℕ) → den (of_int n) ≡ 1
unfolding den
den-of_int n = pow-zero 10

pub den-plus : (a b : Decimal) → den (plus a b) ≡ den a * den b
unfolding plus den
den-plus a b = pow_add 10 a.scale b.scale

pub coeff-plus : (a b : Decimal) → (plus a b).coeff ≡ a.coeff * den b + b.coeff * den a
unfolding plus den
coeff-plus a b = refl

pub den-minus : (a b : Decimal) → den (minus a b) ≡ den a * den b
unfolding minus den
den-minus a b = pow_add 10 a.scale b.scale

pub coeff-minus : (a b : Decimal) → (minus a b).coeff ≡ a.coeff * den b - b.coeff * den a
unfolding minus den
coeff-minus a b = refl

pub den-times : (a b : Decimal) → den (times a b) ≡ den a * den b
unfolding times den
den-times a b = pow_add 10 a.scale b.scale

pub coeff-times : (a b : Decimal) → (times a b).coeff ≡ a.coeff * b.coeff
unfolding times
coeff-times a b = refl

pub den-shift_down : (a : Decimal) (k : ℕ) → den (shift_down a k) ≡ den a * 10 ^ k
unfolding shift_down den
den-shift_down a k = pow_add 10 a.scale k

pub coeff-shift_down : (a : Decimal) (k : ℕ) → (shift_down a k).coeff ≡ a.coeff
unfolding shift_down
coeff-shift_down a k = refl

pub leb→Le : (a b : Decimal) → decimal_leb a b ≡ true → Le a b
leb→Le a b h = leb→le _ _ h

pub leb_false→Le : (a b : Decimal) → decimal_leb a b ≡ false → Le b a
leb_false→Le a b h = ground arith

pub least-le_left : (a b : Decimal) → Le (least a b) a
unfolding least
least-le_left a b = ground arith

pub least-le_right : (a b : Decimal) → Le (least a b) b
unfolding least
least-le_right a b = ground arith

-- The least of two is one of them.
pub le-least : (c a b : Decimal) → Le c a → Le c b → Le c (least a b)
unfolding least
le-least c a b p q = ground arith

pub le-greatest_left : (a b : Decimal) → Le a (greatest a b)
unfolding greatest
le-greatest_left a b = ground arith

pub le-greatest_right : (a b : Decimal) → Le b (greatest a b)
unfolding greatest
le-greatest_right a b = ground arith

pub greatest-le : (c a b : Decimal) → Le a c → Le b c → Le (greatest a b) c
unfolding greatest
greatest-le c a b p q = ground arith

pub le-plus : (a b : Decimal) → Le a (plus a b)
le-plus a b = simp (coeff-plus, den-plus) (omega arith)

pub minus-le : (a b : Decimal) → Le (minus a b) a
minus-le a b =
    let h : a.coeff * den b - b.coeff * den a ≤ a.coeff * den b = omega arith in
    simp (coeff-minus, den-minus) (omega (arith, mul-le-mul_right (den a) h))

pub times-le : (a m : Decimal) → Le m (of_int 1) → Le (times a m) a
times-le a m h =
    simp (coeff-times, den-times)
      (omega (arith, mul-le-mul_left (a.coeff * den a) (rw den-of_int at h)))

-- Over a common denominator, an order with a sum on the right.
pub le-plus_iff :
    (c a b : Decimal)
    → Le c (plus a b) ↔ (c.coeff * (den a * den b) ≤ (a.coeff * den b + b.coeff * den a) * den c)
le-plus_iff c a b = simp (coeff-plus, den-plus) (λ h. h, λ h. h)

pub plus-mono_left : (a b c : Decimal) → Le a b → Le (plus a c) (plus b c)
plus-mono_left a b c h =
    simp (coeff-plus, den-plus) (omega (arith, mul-le-mul_right (den c * den c) h))

pub plus-mono_right : (a b c : Decimal) → Le b c → Le (plus a b) (plus a c)
plus-mono_right a b c h =
    simp (coeff-plus, den-plus) (omega (arith, mul-le-mul_right (den a * den a) h))

pub plus-assoc_le : (a b c : Decimal) → Le (plus a (plus b c)) (plus (plus a b) c)
plus-assoc_le a b c = simp (coeff-plus, den-plus) (omega arith)

pub plus_assoc-le : (a b c : Decimal) → Le (plus (plus a b) c) (plus a (plus b c))
plus_assoc-le a b c = simp (coeff-plus, den-plus) (omega arith)

split_part : (c q t r x : ℕ) → x + c * r ≡ t * q → (c * (r * q) + x * q) * r ≤ t * (q * (r * q))
split_part c q t r x e = omega (arith, ap (λ (y : ℕ). y * (q * r)) e)

-- What is taken from a part and put back.
pub put-back-le : (c t : Decimal) → Le c t → Le (plus c (minus t c)) t
put-back-le c t h =
    simp (coeff-plus, den-plus, coeff-minus, den-minus)
      (split_part c.coeff (den c) t.coeff (den t) _ (omega arith))

pub zero-plus-le : (t : Decimal) → Le (plus (of_int 0) t) t
zero-plus-le t = simp (coeff-plus, den-plus, den-of_int) (omega arith)

pub le-zero-plus : (t : Decimal) → Le t (plus (of_int 0) t)
le-zero-plus t = simp (coeff-plus, den-plus, den-of_int) (omega arith)
