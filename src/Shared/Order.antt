-- ===== src/Shared/Order.antt =====
-- The order of texts and of lists of them, and Python's stable `sorted`.
use Prim.Native.Nat.{ℕ, suc, ◌+◌}
use Prim.Native.String.{String, compare}
use mathlib.Core.Path.{◌≡◌, refl}
use mathlib.Core.Bool.{Bool, true, false, ◌&&◌, ◌||◌}
use mathlib.Core.List.{List, [], ◌∷◌}
use native.Mathlib.Omega.{arith}
use text.Mathlib.Text.{is_le, is_lt}
use crytpo_data.Shared.Tests.{if◌then◌else◌}
use crytpo_data.Shared.Lists.{sum_by, length, any}
use crytpo_data.Shared.Keys.{str_eq}

-- `a <= b` and `a < b` on texts
abbrev pub str_leb : String → String → Bool
str_leb a b = is_le (compare a b)

abbrev pub str_ltb : String → String → Bool
str_ltb a b = is_lt (compare a b)

-- `a <= b` on tuples of texts
abbrev pub texts_leb : List String → List String → Bool
texts_leb [] _ = true
texts_leb (x ∷ xs) [] = false
texts_leb (x ∷ xs) (y ∷ ys) = str_ltb x y || str_eq x y && texts_leb xs ys

-- `sorted(xs, key=...)`, with the order of the keys as a test
module _ {ℓ} {A : Type ℓ} (leb_by : A → A → Bool) where
  abbrev pub insert_by : A → List A → List A
  insert_by a [] = a ∷ []
  insert_by a (x ∷ xs) = let rest = insert_by a xs in if leb_by a x then a ∷ x ∷ xs else x ∷ rest

  abbrev pub sort_by : List A → List A
  sort_by [] = []
  sort_by (x ∷ xs) = insert_by x (sort_by xs)

  length-insert_by : (a : A) (xs : List A) → length (insert_by a xs) ≡ suc (length xs)
  length-insert_by a [] = refl
  length-insert_by a (x ∷ xs) = ground (arith, length-insert_by a xs)

  pub length-sort_by : (xs : List A) → length (sort_by xs) ≡ length xs
  length-sort_by [] = refl
  length-sort_by (x ∷ xs) = ground (arith, length-insert_by x (sort_by xs), length-sort_by xs)

  -- Whether a member satisfies a test does not depend on the order.
  pub any-insert_by :
      (p : A → Bool) (a : A) (xs : List A) → any p (insert_by a xs) ≡ (p a || any p xs)
  any-insert_by p a [] = refl
  any-insert_by p a (x ∷ xs) = ground (arith, any-insert_by p a xs)

  pub any-sort_by : (p : A → Bool) (xs : List A) → any p (sort_by xs) ≡ any p xs
  any-sort_by p [] = refl
  any-sort_by p (x ∷ xs) = ground (arith, any-insert_by p x (sort_by xs), any-sort_by p xs)

  -- Nor does a sum.
  sum_by-insert_by :
      (f : A → ℕ) (a : A) (xs : List A) → sum_by f (insert_by a xs) ≡ f a + sum_by f xs
  sum_by-insert_by f a [] = refl
  sum_by-insert_by f a (x ∷ xs) = ground (arith, sum_by-insert_by f a xs)

  pub sum_by-sort_by : (f : A → ℕ) (xs : List A) → sum_by f (sort_by xs) ≡ sum_by f xs
  sum_by-sort_by f [] = refl
  sum_by-sort_by f (x ∷ xs) = omega (arith, sum_by-insert_by f x (sort_by xs), sum_by-sort_by f xs)
