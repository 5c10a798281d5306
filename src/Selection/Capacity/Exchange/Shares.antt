-- ===== src/Selection/Capacity/Exchange/Shares.antt =====
-- What each scope of an exchange gets from `admit_exchange_capacity`, for given connections.
use native.Mathlib.Nat.{lt-div-mul-add, mul-le-mul_right}
use crytpo_data.Shared.{
  ℕ, ◌+◌, ◌-◌, ◌*◌, ◌^◌, ◌≤◌, ◌<◌, Bool, true, false, Option, none, some, List, [], ◌∷◌, String,
  ◌≡◌, refl, sym, ◌∙◌, ◌⊎◌, inl, inr, any, map, count, repeats, contains, All, ok, err, Dict,
  lookup, arith, Bool-cases, string_eq, capacity_error, beq_refl, all_contained, subst, str_eq,
  Key-cases, contains_cons_ne,
}
use crytpo_data.Storage.Ingress.{checked_sha256}
use crytpo_data.Selection.Capacity.{
  CapacityPolicy, CapacityAdmission, AdmissionPolicy, degrade_low_priority_with_warning,
  bounded_integer, is_fixed, is_unranked, keys_of, admit,
}
use crytpo_data.Selection.Capacity.Admits.{Admits, admit-Admits}
use crytpo_data.Selection.Capacity.Exchange.{
  CatalogScope, ScopedCapacityDemand, Allocation, fixed_connections, is_fail, any_fail, with_policy,
  report_policy, admit_scopes, by_scope, policy_keys,
}

-- A demand as its constructor leaves it, of candidates with their ranks, whose slots stay in range.
pub record IsDemand (available : ℕ) (d : ScopedCapacityDemand) : Type 0 where
  pub keys_differ : repeats (keys_of d.candidates) ≡ false
  pub all_ranked : any is_unranked d.candidates ≡ false
  pub some_slots : 0 < d.instruments_per_connection
  pub in_range : available * d.instruments_per_connection < 2 ^ 63
  pub covered : all_contained (keys_of d.candidates) (policy_keys d.policies) ≡ true

abbrev pub policy_fails : Option CapacityPolicy → Bool
policy_fails none = false
policy_fails (some p) = is_fail p

-- Whether one of the keys has the policy to fail.
abbrev pub has_fail : Dict String CapacityPolicy → List String → Bool
has_fail policies keys = any (λ k. policy_fails (lookup k policies)) keys

-- The connections hold the fixed candidates of each demand, the admissions are those of the slots, and
-- no candidate with the policy to fail is rejected.
abbrev pub Shares :
    List ScopedCapacityDemand → Dict CatalogScope ℕ → Dict CatalogScope CapacityAdmission → Type 0
Shares [] [] [] = Unit
Shares (d ∷ ds) ((scope, n) ∷ ns) ((scope', a) ∷ as') =
    (scope ≡ d.scope)
    × (scope' ≡ d.scope)
    × (count is_fixed d.candidates ≤ n * d.instruments_per_connection)
    × Admits d.candidates (n * d.instruments_per_connection) a
    × (has_fail d.policies a.rejected ≡ false)
    × Shares ds ns as'
Shares _ _ _ = ⊥

-- The admission at some allocation rejects a candidate with the policy to fail.
abbrev pub Refuses : (sha256 : String) → List Allocation → Type 0
Refuses sha256 [] = ⊥
Refuses sha256 ((d, n) ∷ os) =
    ((a : CapacityAdmission) × (admit d.candidates (n * d.instruments_per_connection) sha256
          degrade_low_priority_with_warning
        ≡ ok a)
      × (has_fail d.policies a.rejected ≡ true))
    ⊎ Refuses sha256 os

all_contained-contains :
    (k : String) (xs ys : List String)
    → all_contained xs ys ≡ true
    → contains xs k ≡ true
    → contains ys k ≡ true
all_contained-contains k [] ys all inside = cc
all_contained-contains k (x ∷ xs) ys all inside = elim (Key-cases k x) [
  | inl same ↦ subst (λ j. contains ys j ≡ true) (sym same) (ground (arith, all))
  | inr other ↦
      all_contained-contains k xs ys (ground (arith, all))
        (sym (contains_cons_ne x k xs other) ∙ inside)
]

policy-found :
    (k : String) (policies : Dict String CapacityPolicy)
    → contains (policy_keys policies) k ≡ true
    → (p : CapacityPolicy) × (lookup k policies ≡ some p)
policy-found k [] inside = cc
policy-found k ((j, p) ∷ policies) inside = elim (Bool-cases (str_eq k j)) [
  | inl same ↦ (p, simp same)
  | inr other ↦
      let (q, found) = policy-found k policies (ground (arith, other, inside)) in
      (q, simp (other, found))
]

fixed-fit :
    (d : ScopedCapacityDemand) (n : ℕ)
    → 0 < d.instruments_per_connection
    → fixed_connections d ≤ n
    → count is_fixed d.candidates ≤ n * d.instruments_per_connection
fixed-fit d n some_slots enough =
    let per = d.instruments_per_connection in
    let up = lt-div-mul-add {a = count is_fixed d.candidates + per - 1} some_slots in
    let wide = mul-le-mul_right per enough in omega (arith, up, wide, some_slots)

any_fail-ok :
    (policies : Dict String CapacityPolicy) (keys : List String)
    → ((k : String) → contains keys k ≡ true → (p : CapacityPolicy) × (lookup k policies ≡ some p))
    → any_fail policies keys ≡ ok (has_fail policies keys)
any_fail-ok policies [] covered = refl
any_fail-ok policies (k ∷ keys) covered =
    let (p, found) = covered k (ground (arith, beq_refl k)) in
    let rest = any_fail-ok policies keys (λ j inside. covered j (ground (arith, inside))) in
    simp (found, rest)

Admits-with_policy :
    (policy : AdmissionPolicy) (d : ScopedCapacityDemand) (slots : ℕ) (a : CapacityAdmission)
    → Admits d.candidates slots a
    → Admits d.candidates slots (with_policy policy a)
Admits-with_policy policy d slots a v = record {
  taken = v.taken;
  left = v.left;
  each_once = v.each_once;
  of_candidates = v.of_candidates;
  keeps_fixed = v.keeps_fixed;
}

module _ (available : ℕ) (sha256 : String) (is_digest : checked_sha256 sha256 ≡ ok sha256) where
  abbrev pub AreShares : List Allocation → Type 0
  AreShares os =
      ((admissions : Dict CatalogScope CapacityAdmission) × (admit_scopes sha256 os ≡ ok admissions)
        × Shares (map (λ (o : Allocation). o.0) os) (by_scope os) admissions)
      ⊎ ((admit_scopes sha256 os ≡ err capacity_error) × Refuses sha256 os)

  admit-share :
      (d : ScopedCapacityDemand) (n : ℕ)
      → IsDemand available d
      → n ≤ available
      → fixed_connections d ≤ n
      → (a : CapacityAdmission) × (admit d.candidates
            (n * d.instruments_per_connection)
            sha256
            degrade_low_priority_with_warning
          ≡ ok a)
        × Admits d.candidates (n * d.instruments_per_connection) a
  admit-share d n v few enough =
      let slots = n * d.instruments_per_connection in
      let small = mul-le-mul_right d.instruments_per_connection few in
      let fits : bounded_integer 0 slots ≡ ok tt = ground (arith, small, v.in_range) in
      admit-Admits d.candidates slots sha256 fits is_digest v.keys_differ v.all_ranked
        (fixed-fit d n v.some_slots enough)

  pub admit_scopes-AreShares :
      (os : List Allocation)
      → All (λ (o : Allocation). IsDemand available o.0) os
      → All (λ (o : Allocation). o.1 ≤ available) os
      → All (λ (o : Allocation). fixed_connections o.0 ≤ o.1) os
      → AreShares os
  unfolding admit_scopes
  admit_scopes-AreShares [] demands few enough = inl ([], refl, tt)
  admit_scopes-AreShares ((d, n) ∷ os) (v, demands) (f, few) (h, enough) =
      let (a, made, admits) = admit-share d n v f h in
      let checked = any_fail-ok d.policies a.rejected (λ k inside. policy-found k d.policies (
        all_contained-contains k (keys_of d.candidates) (policy_keys d.policies) v.covered
          (admits.of_candidates k inside))) in
      elim (Bool-cases (has_fail d.policies a.rejected)) [
        | inl failed ↦ inr (simp (made, checked, failed), inl (a, made, failed))
        | inr fine ↦ elim (admit_scopes-AreShares os demands few enough) [
          | inl (others, done, shares) ↦ inl (
            (
              d.scope,
              with_policy (report_policy (map (λ (p : String × CapacityPolicy). p.1) d.policies)) a,
            )
                ∷ others,
            simp (made, checked, fine, done),
            (
              refl,
              refl,
              fixed-fit d n v.some_slots h,
              Admits-with_policy _ d (n * d.instruments_per_connection) a admits,
              fine,
              shares,
            ),
          )
          | inr (raised, refused) ↦ inr (simp (made, checked, fine, raised), inr refused)
        ]
      ]
