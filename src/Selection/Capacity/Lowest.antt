-- ===== src/Selection/Capacity/Lowest.antt =====
-- Which candidates `admit` of selection/capacity.py rejects: those that are lowest in priority.
use crytpo_data.Shared.{
  ℕ, zero, suc, ◌≤◌, Bool, true, false, ◌&&◌, not, List, [], ◌∷◌, String, ◌≡◌, refl, sym, ◌∙◌, ◌-◌,
  subst, any, length, take, drop, count, filter_by, sort_by, insert_by, contains, repeats, All,
  All-map, ok, leb, ltb, Bool-cases, inl, inr, arith, if◌then◌else◌, >>-eq-ok, >>=-eq-ok,
  ok-injective, raise_if, value_error, capacity_error, assertion_error, string_eq, ◌>>◌,
}
use crytpo_data.Storage.Ingress.{checked_sha256}
use crytpo_data.Selection.Capacity.{
  CapacityCandidate, CapacityPolicy, CapacityAdmission, is_fixed, is_unranked, keys_of, rank_of,
  top_n, new_listing, fixed, evicted_before, removable, rejected_keys, degraded, whole_admission,
  shortfall, admit, bounded_integer, degrade_low_priority_with_warning, fail,
}
use crytpo_data.Selection.Capacity.Counts.{
  count-not, count-none, count-inside, count-outside, any-never, contains-any,
}
use crytpo_data.Selection.Capacity.Admits.{key, out, kept, is_out, count-parts, once, outside}

-- A candidate that is no better than another: of a lower class, or of the same and with a rank or an
-- instant that is not smaller.
abbrev pub no_better : CapacityCandidate → CapacityCandidate → Bool
no_better c d = elim c.priority [
  | top_n ↦ elim d.priority [ top_n ↦ leb (rank_of d.top_n_rank) (rank_of c.top_n_rank) | _ ↦ true ]
  | new_listing ↦ elim d.priority [
    | top_n ↦ false
    | new_listing ↦ leb d.first_seen_ns c.first_seen_ns
    | fixed ↦ true
  ]
  | fixed ↦ is_fixed d
]

module _ {A : Type 0} (leb_by before : A → A → Bool)
    (of_true : (a b : A) → leb_by a b ≡ true → before a b ≡ true)
    (of_false : (a b : A) → leb_by a b ≡ false → before b a ≡ true)
    (trans : (a b c : A) → before a b ≡ true → before b c ≡ true → before a c ≡ true) where
  abbrev Before : A → List A → Type 0
  Before a xs = All (λ b. before a b ≡ true) xs

  abbrev IsSorted : List A → Type 0
  IsSorted [] = Unit
  IsSorted (x ∷ xs) = Before x xs × IsSorted xs

  Before-insert_by :
      (a b : A) (xs : List A) → before b a ≡ true → Before b xs → Before b (insert_by leb_by a xs)
  Before-insert_by a b [] first rest = (first, tt)
  Before-insert_by a b (x ∷ xs) first (h, rest) =
      elim (leb_by a x) as (λ t. Before b (if t then a ∷ x ∷ xs else x ∷ insert_by leb_by a xs)) [
        | true ↦ (first, (h, rest))
        | false ↦ (h, Before-insert_by a b xs first rest)
      ]

  IsSorted-insert_by : (a : A) (xs : List A) → IsSorted xs → IsSorted (insert_by leb_by a xs)
  IsSorted-insert_by a [] sorted = (tt, tt)
  IsSorted-insert_by a (x ∷ xs) (first, sorted) = elim (Bool-cases (leb_by a x)) [
    | inl h ↦
        subst (λ t. IsSorted (if t then a ∷ x ∷ xs else x ∷ insert_by leb_by a xs)) (sym h)
          ((of_true a x h, All-map _ (λ b. trans a x b (of_true a x h)) xs first), (first, sorted))
    | inr h ↦
        subst (λ t. IsSorted (if t then a ∷ x ∷ xs else x ∷ insert_by leb_by a xs)) (sym h)
          (Before-insert_by a x xs (of_false a x h) first, IsSorted-insert_by a xs sorted)
  ]

  IsSorted-sort_by : (xs : List A) → IsSorted (sort_by leb_by xs)
  IsSorted-sort_by [] = tt
  IsSorted-sort_by (x ∷ xs) = IsSorted-insert_by x (sort_by leb_by xs) (IsSorted-sort_by xs)

  Before-drop : (n : ℕ) (a : A) (xs : List A) → Before a xs → Before a (drop n xs)
  Before-drop zero a xs h = h
  Before-drop (suc n) a [] h = tt
  Before-drop (suc n) a (x ∷ xs) (h, rest) = Before-drop n a xs rest

  -- In a sorted list, what is taken stands before what is dropped.
  take-Before : (n : ℕ) (xs : List A) → IsSorted xs → All (λ a. Before a (drop n xs)) (take n xs)
  take-Before zero xs sorted = tt
  take-Before (suc n) [] sorted = tt
  take-Before (suc n) (x ∷ xs) (first, sorted) = (Before-drop n x xs first, take-Before n xs sorted)

evicted-no_better : (c d : CapacityCandidate) → evicted_before c d ≡ true → no_better c d ≡ true
evicted-no_better c d h = ground arith

other-no_better : (c d : CapacityCandidate) → evicted_before c d ≡ false → no_better d c ≡ true
other-no_better c d h = ground arith

no_better_trans :
    (a b c : CapacityCandidate) → no_better a b ≡ true → no_better b c ≡ true → no_better a c ≡ true
no_better_trans a b c h k = ground arith

module _ {A : Type 0} where
  count-All : (p : A → Bool) (xs : List A) → All (λ x. p x ≡ false) xs → count p xs ≡ 0
  count-All p [] h = refl
  count-All p (x ∷ xs) (h, rest) = ground (arith, count-All p xs rest)

  count-le :
      (p q : A → Bool) (xs : List A) → ((x : A) → p x ≡ true → q x ≡ true) → count p xs ≤ count q xs
  count-le p q [] h = omega arith
  count-le p q (x ∷ xs) h = ground (arith, h x, count-le p q xs h)

  count-filter_by :
      (p q : A → Bool) (xs : List A)
      → ((x : A) → q x ≡ true → p x ≡ false)
      → count p (filter_by q xs) ≡ 0
  count-filter_by p q [] h = refl
  count-filter_by p q (x ∷ xs) h = ground (arith, h x, count-filter_by p q xs h)

-- A candidate that is kept though it is worse than the rejected `c`.
abbrev pub is_worse : (rejected : List String) (c d : CapacityCandidate) → Bool
is_worse rejected c d =
    not (is_fixed d) && (not (contains rejected d.instrument_key) && not (no_better c d))

module _ (slots : ℕ) (cs : List CapacityCandidate) (distinct : repeats (keys_of cs) ≡ false) where
  abbrev gone : List String
  gone = keys_of (out slots cs)

  out-Before : All (λ c. All (λ d. no_better c d ≡ true) (kept slots cs)) (out slots cs)
  unfolding removable
  out-Before =
      take-Before evicted_before no_better evicted-no_better other-no_better no_better_trans
        (length cs - slots) (removable cs)
        (IsSorted-sort_by evicted_before no_better evicted-no_better other-no_better no_better_trans
          (filter_by (λ c. not (is_fixed c)) cs))

  none_worse :
      (c : CapacityCandidate)
      → All (λ d. no_better c d ≡ true) (kept slots cs)
      → any (is_worse gone c) cs ≡ false
  none_worse c before =
      let own =
        count-inside key gone (out slots cs) (λ k i. contains-any key k (out slots cs) ∙ i) in
      count-none (is_worse gone c) cs (
        omega (
          arith,
          count-parts slots cs (is_worse gone c),
          count-filter_by (is_worse gone c) is_fixed cs (λ d h. ground arith),
          count-le (is_worse gone c) (λ d. not (is_out slots cs d)) (out slots cs)
              (λ d h. ground arith),
          count-not (is_out slots cs) (out slots cs),
          own,
          count-All (is_worse gone c) (kept slots cs)
              (All-map _ (λ d h. ground arith) (kept slots cs) before),
        ))

  abbrev is_wrong : CapacityCandidate → Bool
  is_wrong c = is_out slots cs c && any (is_worse gone c) cs

  rejected-lowest : any is_wrong cs ≡ false
  rejected-lowest = count-none is_wrong cs (
      omega (
        arith,
        count-parts slots cs is_wrong,
        count-le is_wrong (is_out slots cs) (filter_by is_fixed cs) (λ c h. ground arith),
        count-outside key gone (filter_by is_fixed cs) (outside slots cs distinct),
        count-le is_wrong (is_out slots cs) (kept slots cs) (λ c h. ground arith),
        count-outside key gone (kept slots cs) (λ k i. (once slots cs distinct k i).1),
        count-All is_wrong (out slots cs)
            (All-map _ (λ c h. ground (arith, none_worse c h)) (out slots cs) out-Before),
      ))

-- No rejected candidate is better than one that is kept and not fixed.
abbrev pub RejectsLowest : List CapacityCandidate → CapacityAdmission → Type 0
RejectsLowest cs a =
    any (λ c. contains a.rejected c.instrument_key && any (is_worse a.rejected c) cs) cs ≡ false

whole-lowest :
    (cs : List CapacityCandidate) (slots : ℕ) (sha256 : String) (policy : CapacityPolicy)
    → RejectsLowest cs (whole_admission cs slots sha256 policy)
unfolding whole_admission
whole-lowest cs slots sha256 policy =
    any-never (λ c. false && any (is_worse [] c) cs) cs (λ c. refl)

degraded-lowest :
    (cs : List CapacityCandidate) (slots : ℕ) (sha256 : String)
    → repeats (keys_of cs) ≡ false
    → RejectsLowest cs (degraded cs slots sha256)
unfolding degraded rejected_keys
degraded-lowest cs slots sha256 distinct = rejected-lowest slots cs distinct

-- The last step of `admit`, for either outcome of its test.
chosen-lowest :
    (cs : List CapacityCandidate) (slots : ℕ) (sha256 : String) (policy : CapacityPolicy)
    (a : CapacityAdmission) (enough : Bool)
    → repeats (keys_of cs) ≡ false
    → (if enough
        then raise_if (any is_unranked cs) assertion_error
          >> ok (whole_admission cs slots sha256 policy)
        else shortfall cs slots sha256 policy)
      ≡ ok a
    → RejectsLowest cs a
chosen-lowest cs slots sha256 policy a true distinct h =
    let (_, made) = >>-eq-ok (raise_if (any is_unranked cs) assertion_error) _ h in
    subst (RejectsLowest cs) (ok-injective made) (whole-lowest cs slots sha256 policy)
chosen-lowest cs slots sha256 fail a false distinct h = cc
chosen-lowest cs slots sha256 degrade_low_priority_with_warning a false distinct h =
    let (_, made) = >>-eq-ok (raise_if (any is_unranked cs) assertion_error) _ h in
    subst (RejectsLowest cs) (ok-injective made) (degraded-lowest cs slots sha256 distinct)

-- Where a call has a result, no candidate that it rejects is better than one that it keeps: a
-- candidate that is neither rejected nor fixed is of a higher class than each rejected one, or of the
-- same class with a rank or an instant that is not larger.
pub admit-lowest :
    (cs : List CapacityCandidate) (slots : ℕ) (sha256 : String) (policy : CapacityPolicy)
    (a : CapacityAdmission)
    → admit cs slots sha256 policy ≡ ok a
    → RejectsLowest cs a
unfolding admit
admit-lowest cs slots sha256 policy a h =
    let (_, checked) = >>-eq-ok (bounded_integer 0 slots) _ h in
    let (digest, _, digested) = >>=-eq-ok (checked_sha256 sha256) _ checked in
    let (keys, listed) = >>-eq-ok (raise_if (repeats (keys_of cs)) value_error) _ digested in
    let (_, made) = >>-eq-ok (raise_if (ltb slots (count is_fixed cs)) capacity_error) _ listed in
    chosen-lowest cs slots digest policy a (leb (length cs) slots) (ground (arith, keys)) made
