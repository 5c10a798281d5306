-- ===== src/Shared/Keys.antt =====
-- Equality of keys as an interface, with the instances that the dictionaries use.
use Prim.Native.Nat.{ℕ}
use Prim.Native.String.{String}
use mathlib.Core.Path.{◌≡◌, refl}
use mathlib.Core.Logic.{◌↔◌, ◌≢◌, ◌⊎◌, inl, inr}
use mathlib.Core.Bool.{Bool, true, false, ◌&&◌, ◌||◌}
use mathlib.Core.Option.{Option, none, some}
use mathlib.Core.List.{List, [], ◌∷◌}
use native.Mathlib.Omega.{arith}
use text.Mathlib.Text.{◌==◌ as text_eq}
use text.Mathlib.TextEquality.{eq_iff}
use crytpo_data.Shared.Tests.{◌==◌, ==_iff, Bool-cases}

pub record Eq {ℓ} (A : Type ℓ) : Type ℓ where
  pub beq : A → A → Bool
  pub beq_iff : (a b : A) → (beq a b ≡ true) ↔ (a ≡ b)

infix 50 ◌=?◌
abbrev pub ◌=?◌ {ℓ} : {A : Type ℓ} ⦃e : Eq A⦄ → A → A → Bool
◌=?◌ ⦃e⦄ = e.beq

instance abbrev pub nat_eq : Eq ℕ
nat_eq = record { beq = ◌==◌; beq_iff = ==_iff }

abbrev pub str_eq : String → String → Bool
str_eq = text_eq

instance abbrev pub string_eq : Eq String
string_eq = record { beq = text_eq; beq_iff = eq_iff }

module _ {A B : Type 0} ⦃e : Eq A⦄ ⦃f : Eq B⦄ where
  abbrev pub pair_beq : A × B → A × B → Bool
  pair_beq (a, b) (a', b') = e.beq a a' && f.beq b b'

  pub pair_beq_iff : (p q : A × B) → (pair_beq p q ≡ true) ↔ (p ≡ q)
  pair_beq_iff (a, b) (a', b') = ground (arith, e.beq_iff a a', f.beq_iff b b')

  instance abbrev pub pair_eq : Eq (A × B)
  pair_eq = record { beq = pair_beq; beq_iff = pair_beq_iff }

module _ {A : Type 0} ⦃e : Eq A⦄ where
  abbrev pub list_beq : List A → List A → Bool
  list_beq [] [] = true
  list_beq (x ∷ xs) (y ∷ ys) = e.beq x y && list_beq xs ys
  list_beq _ _ = false

  pub list_beq_iff : (xs ys : List A) → (list_beq xs ys ≡ true) ↔ (xs ≡ ys)
  list_beq_iff [] [] = ground arith
  list_beq_iff (x ∷ xs) (y ∷ ys) = ground (arith, e.beq_iff x y, list_beq_iff xs ys)
  list_beq_iff [] (y ∷ ys) = ground arith
  list_beq_iff (x ∷ xs) [] = ground arith

  instance abbrev pub list_eq : Eq (List A)
  list_eq = record { beq = list_beq; beq_iff = list_beq_iff }

  abbrev pub contains : List A → A → Bool
  contains [] a = false
  contains (x ∷ xs) a = e.beq a x || contains xs a

  -- `len(set(xs)) != len(xs)`
  abbrev pub repeats : List A → Bool
  repeats [] = false
  repeats (x ∷ xs) = contains xs x || repeats xs

  abbrev pub all_contained : List A → List A → Bool
  all_contained [] ys = true
  all_contained (x ∷ xs) ys = contains ys x && all_contained xs ys

  -- `set(xs) == set(ys)`
  abbrev pub same_members : List A → List A → Bool
  same_members xs ys = all_contained xs ys && all_contained ys xs

module _ {A : Type 0} ⦃e : Eq A⦄ where
  abbrev pub opt_beq : Option A → Option A → Bool
  opt_beq none none = true
  opt_beq (some a) (some b) = e.beq a b
  opt_beq _ _ = false

  pub opt_beq_iff : (o p : Option A) → (opt_beq o p ≡ true) ↔ (o ≡ p)
  opt_beq_iff none none = ground arith
  opt_beq_iff none (some b) = ground arith
  opt_beq_iff (some a) none = ground arith
  opt_beq_iff (some a) (some b) = ground (arith, e.beq_iff a b)

  instance abbrev pub opt_eq : Eq (Option A)
  opt_eq = record { beq = opt_beq; beq_iff = opt_beq_iff }

  pub beq_refl : (a : A) → e.beq a a ≡ true
  beq_refl a = (e.beq_iff a a).1 refl

  pub contains_cons-false :
      (k a : A) (seen : List A)
      → contains (k ∷ seen) a ≡ false
      → (a ≢ k) × (contains seen a ≡ false)
  contains_cons-false k a seen h = ground (arith, e.beq_iff a k)

  pub Key-cases : (j k : A) → (j ≡ k) ⊎ (j ≢ k)
  Key-cases j k = elim (Bool-cases (e.beq j k)) [
    | inl same ↦ inl ((e.beq_iff j k).0 same)
    | inr other ↦ inr (λ same. ground (arith, other, (e.beq_iff j k).1 same))
  ]

  pub contains_cons_self : (k : A) (xs : List A) → contains (k ∷ xs) k ≡ true
  contains_cons_self k xs = ground (arith, beq_refl k)

  pub contains_cons_ne : (k j : A) (xs : List A) → j ≢ k → contains (k ∷ xs) j ≡ contains xs j
  contains_cons_ne k j xs other = ground (arith, e.beq_iff j k)

  pub contains-ne : (k j : A) (xs : List A) → contains xs k ≡ true → contains xs j ≡ false → j ≢ k
  contains-ne k j xs inside outside same = cc
