-- ===== src/Selection/Capacity/Admits.antt =====
-- What `admit` of selection/capacity.py takes and leaves.
use crytpo_data.Shared.{
  ℕ, ◌+◌, ◌-◌, ◌≤◌, ◌<◌, min, Bool, true, false, ◌&&◌, not, List, [], ◌∷◌, String, ap, ◌≡◌, refl,
  ◌∙◌, sym, ◌⊎◌, ◌↔◌, any, length, take, drop, take-drop, count, filter_by, sort_by, repeats,
  contains, ok, err, capacity_error, length-sort_by, sum_by-sort_by, any-sort_by, sum_by-append,
  any-filter_by, leb, ltb, arith, inl, inr, Bool-cases, leb→le, leb-false, if◌then◌else◌, string_eq,
}
use crytpo_data.Storage.Ingress.{checked_sha256}
use crytpo_data.Selection.Capacity.{
  CapacityCandidate, CapacityPolicy, CapacityAdmission, degrade_low_priority_with_warning, fail,
  is_fixed, is_unranked, keys_of, admitted_before, evicted_before, removable, rejected_keys,
  degraded, whole_admission, admit, bounded_integer,
}
use crytpo_data.Selection.Capacity.Counts.{
  length-filter_by, count-not, count-split, length-take, any-count, count-none, named, contains-any,
  some-count, any-never, repeats-count, count-outside, count-inside, any-left,
}

abbrev pub key : CapacityCandidate → String
key c = c.instrument_key

-- The result takes as many candidates as there are slots, each candidate is taken or rejected and not
-- both, and no fixed one is rejected.
pub record Admits (cs : List CapacityCandidate) (slots : ℕ) (a : CapacityAdmission) : Type 0 where
  pub taken : length a.admitted ≡ min (length cs) slots
  pub left : length a.rejected ≡ length cs - slots
  pub each_once :
      (k : String)
      → contains a.admitted k ≡ (contains (keys_of cs) k && not (contains a.rejected k))
  pub of_candidates : (k : String) → contains a.rejected k ≡ true → contains (keys_of cs) k ≡ true
  pub keeps_fixed : any (λ c. is_fixed c && contains a.rejected c.instrument_key) cs ≡ false

length-keys_of : (cs : List CapacityCandidate) → length (keys_of cs) ≡ length cs
length-keys_of [] = refl
length-keys_of (c ∷ cs) = omega (arith, length-keys_of cs)

-- The candidates in three parts: the fixed ones, those rejected and those kept.
module _ (slots : ℕ) (cs : List CapacityCandidate) where
  abbrev others : List CapacityCandidate
  others = filter_by (λ c. not (is_fixed c)) cs

  abbrev pub out : List CapacityCandidate
  out = take (length cs - slots) (removable cs)

  abbrev pub kept : List CapacityCandidate
  kept = drop (length cs - slots) (removable cs)

  abbrev pub is_out : CapacityCandidate → Bool
  is_out c = contains (keys_of out) c.instrument_key

  count-removable : (p : CapacityCandidate → Bool) → count p (removable cs) ≡ count p others
  unfolding removable
  count-removable p = sum_by-sort_by evicted_before (λ c. if p c then 1 else 0) others

  -- A count over all candidates is the sum of those over the parts.
  pub count-parts :
      (p : CapacityCandidate → Bool)
      → count p (filter_by is_fixed cs) + count p out + count p kept ≡ count p cs
  count-parts p =
      let n = length cs - slots in
      let cut : count p out + count p kept ≡ count p (removable cs) =
        sym (sum_by-append (λ c. if p c then 1 else 0) out kept)
        ∙ ap (count p) (take-drop n (removable cs)) in
      omega (arith, cut, count-removable p, count-split p is_fixed cs)

  length-out : count is_fixed cs ≤ slots → length out ≡ length cs - slots
  unfolding removable
  length-out room = length-take (length cs - slots) (removable cs) (
      omega (
        arith,
        length-sort_by evicted_before others,
        length-filter_by (λ c. not (is_fixed c)) cs,
        count-not is_fixed cs,
      ))

  -- With distinct keys, a key of a rejected candidate is in no other part.
  module _ (distinct : repeats (keys_of cs) ≡ false) where
    pub once :
        (k : String)
        → contains (keys_of out) k ≡ true
        → (count (named key k) (filter_by is_fixed cs) ≡ 0) × (count (named key k) kept ≡ 0)
    once k inside =
        let some_out = any-count (named key k) out (sym (contains-any key k out) ∙ inside) in
        let all = count-parts (named key k) in
        let single = repeats-count key k cs distinct in (omega arith, omega arith)

    pub outside :
        (k : String)
        → contains (keys_of out) k ≡ true
        → count (named key k) (filter_by is_fixed cs) ≡ 0
    outside k inside = (once k inside).0

    count-rejected : count is_out cs ≡ length out
    count-rejected = omega (
      arith,
      count-parts is_out,
      count-outside key (keys_of out) (filter_by is_fixed cs) outside,
      count-outside key (keys_of out) kept (λ k i. (once k i).1),
      count-inside key (keys_of out) out (λ k i. contains-any key k out ∙ i),
    )

    whole-Admits :
        (sha256 : String) (policy : CapacityPolicy)
        → length cs ≤ slots
        → Admits cs slots (whole_admission cs slots sha256 policy)
    unfolding whole_admission
    whole-Admits sha256 policy room = record {
      taken =
          omega
            (arith, length-keys_of (sort_by admitted_before cs), length-sort_by admitted_before cs);
      left = omega arith;
      each_once = λ k.
          simp
            (
              contains-any key k (sort_by admitted_before cs),
              any-sort_by admitted_before (named key k) cs,
              contains-any key k cs,
            )
            (ground arith);
      of_candidates = λ k h. ground arith;
      keeps_fixed = any-never (λ c. is_fixed c && false) cs (λ c. ground arith);
    }

    degraded-Admits :
        (sha256 : String)
        → count is_fixed cs ≤ slots
        → slots < length cs
        → Admits cs slots (degraded cs slots sha256)
    unfolding degraded rejected_keys
    degraded-Admits sha256 room over = record {
      taken = omega (
        arith,
        length-keys_of (filter_by (λ c. not (is_out c)) (sort_by admitted_before cs)),
        length-filter_by (λ c. not (is_out c)) (sort_by admitted_before cs),
        sum_by-sort_by admitted_before (λ c. if not (is_out c) then 1 else 0) cs,
        count-not is_out cs,
        count-rejected,
        length-out room,
      );
      left = length-keys_of out ∙ length-out room;
      each_once = λ k.
          contains-any key k (filter_by (λ c. not (is_out c)) (sort_by admitted_before cs))
          ∙ any-filter_by (named key k) (λ c. not (is_out c)) (sort_by admitted_before cs)
          ∙ any-sort_by admitted_before (λ c. not (is_out c) && named key k c) cs
          ∙ any-left key k (keys_of out) cs
          ∙ ap (λ b. b && not (contains (keys_of out) k)) (sym (contains-any key k cs));
      of_candidates = λ k inside.
          contains-any key k cs
          ∙ some-count (named key k) cs (
              omega (
                arith,
                count-parts (named key k),
                any-count (named key k) out (sym (contains-any key k out) ∙ inside),
              ));
      keeps_fixed =
          sym (any-filter_by is_out is_fixed cs)
          ∙ count-none is_out (filter_by is_fixed cs)
              (count-outside key (keys_of out) (filter_by is_fixed cs) outside);
    }

module _ (cs : List CapacityCandidate) (slots : ℕ) (sha256 : String)
    (fits : bounded_integer 0 slots ≡ ok tt) (is_digest : checked_sha256 sha256 ≡ ok sha256)
    (distinct : repeats (keys_of cs) ≡ false) where
  -- With slots and a digest that pass the checks, keys that do not repeat and candidates with their
  -- ranks: where the fixed candidates are no more than the slots, the degrading policy has a result. It
  -- takes as many candidates as there are slots, or all of them; each candidate is taken or rejected and
  -- not both, only candidates are rejected, and no fixed one is.
  pub admit-Admits :
      any is_unranked cs ≡ false
      → count is_fixed cs ≤ slots
      → (a : CapacityAdmission) × (admit cs slots sha256 degrade_low_priority_with_warning ≡ ok a)
        × Admits cs slots a
  unfolding admit
  admit-Admits ranked room =
      let enough : ltb slots (count is_fixed cs) ≡ false = ground arith in
      elim (Bool-cases (leb (length cs) slots)) [
        | inl all ↦ (
          whole_admission cs slots sha256 degrade_low_priority_with_warning,
          simp (fits, is_digest, distinct, enough, all, ranked),
          whole-Admits slots cs distinct sha256 degrade_low_priority_with_warning (leb→le _ _ all),
        )
        | inr over ↦ (
          degraded cs slots sha256,
          simp (fits, is_digest, distinct, enough, over, ranked),
          degraded-Admits slots cs distinct sha256 room (leb-false _ _ over),
        )
      ]

  -- With slots and a digest that pass the checks and keys that do not repeat, a call raises the capacity
  -- error exactly when the fixed candidates are more than the slots, or all are and the policy is to
  -- fail.
  pub admit-err :
      (policy : CapacityPolicy)
      → (admit cs slots sha256 policy ≡ err capacity_error)
        ↔ ((slots < count is_fixed cs) ⊎ ((slots < length cs) × (policy ≡ fail)))
  unfolding admit
  admit-err fail =
      simp (fits, is_digest, distinct) (ground (arith, Bool-cases (any is_unranked cs)))
  admit-err degrade_low_priority_with_warning =
      simp (fits, is_digest, distinct) (ground (arith, Bool-cases (any is_unranked cs)))
