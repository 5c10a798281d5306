-- ===== src/Selection/Capacity/Counts.antt =====
-- How often a key is in a list of items, for the items that capacity admission takes and leaves.
use crytpo_data.Shared.{
  ℕ, zero, suc, ◌+◌, ◌≤◌, Bool, true, false, ◌&&◌, not, List, [], ◌∷◌, String, ◌≡◌, refl, str_eq,
  map, filter_by, any, length, take, count, repeats, contains, string_eq, beq_refl, arith,
  Bool-cases,
}

module _ {ℓ} {A : Type ℓ} where
  pub length-filter_by : (p : A → Bool) (xs : List A) → length (filter_by p xs) ≡ count p xs
  length-filter_by p [] = refl
  length-filter_by p (x ∷ xs) = ground (arith, length-filter_by p xs)

  pub count-not : (p : A → Bool) (xs : List A) → count p xs + count (λ x. not (p x)) xs ≡ length xs
  count-not p [] = refl
  count-not p (x ∷ xs) = ground (arith, count-not p xs)

  -- The members that pass a test and those that do not, together.
  pub count-split :
      (p q : A → Bool) (xs : List A)
      → count p (filter_by q xs) + count p (filter_by (λ x. not (q x)) xs) ≡ count p xs
  count-split p q [] = refl
  count-split p q (x ∷ xs) = ground (arith, count-split p q xs)

  pub length-take : (n : ℕ) (xs : List A) → n ≤ length xs → length (take n xs) ≡ n
  length-take zero xs h = refl
  length-take (suc n) [] h = omega (arith, h)
  length-take (suc n) (x ∷ xs) h = ground (arith, length-take n xs)

  pub any-count : (p : A → Bool) (xs : List A) → any p xs ≡ true → 1 ≤ count p xs
  any-count p [] h = ground arith
  any-count p (x ∷ xs) h = ground (arith, any-count p xs)

  pub count-any : (p : A → Bool) (xs : List A) → any p xs ≡ false → count p xs ≡ 0
  count-any p [] h = refl
  count-any p (x ∷ xs) h = ground (arith, count-any p xs)

  pub count-none : (p : A → Bool) (xs : List A) → count p xs ≡ 0 → any p xs ≡ false
  count-none p [] h = refl
  count-none p (x ∷ xs) h = ground (arith, count-none p xs)

  pub some-count : (p : A → Bool) (xs : List A) → 1 ≤ count p xs → any p xs ≡ true
  some-count p xs some_left = ground (arith, Bool-cases (any p xs), count-any p xs)

  pub any-never : (p : A → Bool) (xs : List A) → ((x : A) → p x ≡ false) → any p xs ≡ false
  any-never p [] never = refl
  any-never p (x ∷ xs) never = ground (arith, never x, any-never p xs never)

module _ {ℓ} {A : Type ℓ} (key : A → String) where
  abbrev pub named : String → A → Bool
  named k x = str_eq k (key x)

  pub contains-any : (k : String) (xs : List A) → contains (map key xs) k ≡ any (named k) xs
  contains-any k [] = refl
  contains-any k (x ∷ xs) = ground (arith, contains-any k xs)

  -- A key stands at most once among keys that do not repeat.
  pub repeats-count :
      (k : String) (xs : List A) → repeats (map key xs) ≡ false → count (named k) xs ≤ 1
  repeats-count k [] h = omega arith
  repeats-count k (x ∷ xs) h = ground (
    arith,
    repeats-count k xs,
    contains-any (key x) xs,
    count-any (named (key x)) xs,
    string_eq.beq_iff k (key x),
  )

  -- Items whose keys are all outside a list of keys, and items whose keys are all in it.
  pub count-outside :
      (out : List String) (xs : List A)
      → ((k : String) → contains out k ≡ true → count (named k) xs ≡ 0)
      → count (λ x. contains out (key x)) xs ≡ 0
  count-outside out [] h = refl
  count-outside out (x ∷ xs) h =
      let own = h (key x) in
      let rest = count-outside out xs (λ k inside. omega (arith, h k inside)) in
      ground (arith, beq_refl (key x))

  pub count-inside :
      (out : List String) (xs : List A)
      → ((k : String) → any (named k) xs ≡ true → contains out k ≡ true)
      → count (λ x. contains out (key x)) xs ≡ length xs
  count-inside out [] h = refl
  count-inside out (x ∷ xs) h =
      let own = h (key x) in
      let rest = count-inside out xs (λ k inside. h k (ground (arith, inside))) in
      ground (arith, beq_refl (key x))

  -- The keys left by a filter on a list of keys.
  pub any-left :
      (k : String) (out : List String) (xs : List A)
      → any (λ x. not (contains out (key x)) && named k x) xs
        ≡ (any (named k) xs && not (contains out k))
  any-left k out [] = refl
  any-left k out (x ∷ xs) = ground (arith, any-left k out xs, string_eq.beq_iff k (key x))
