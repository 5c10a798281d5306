-- ===== src/Selection/Capacity/Exchange/Within.antt =====
-- What `admit_exchange_capacity` comes to, for demands that pass the checks.
use crytpo_data.Shared.{
  ℕ, ◌-◌, ◌≤◌, true, false, ◌&&◌, List, String, ◌≡◌, refl, sym, ◌∙◌, ◌⊎◌, inl, inr, any, map,
  sum_by, repeats, same_members, All, ok, err, Dict, ltb, ◌==◌, ==_iff, arith, subst, string_eq,
  pair_eq, capacity_error,
}
use crytpo_data.Storage.Ingress.{checked_sha256}
use crytpo_data.Selection.Capacity.{CapacityAdmission, bounded_integer}
use crytpo_data.Selection.Capacity.Exchange.{
  CatalogScope, ScopedCapacityDemand, Allocation, ExchangeCapacityAdmission, connections, scopes_of,
  by_scope, checked_result, in_order, fixed_allocations, allocate, one_exchange, has_unranked,
  admit_exchange_capacity,
}
use crytpo_data.Selection.Capacity.Exchange.Rounds.{demands_of, allocate-IsGiven}
use crytpo_data.Selection.Capacity.Exchange.Shares.{
  IsDemand, Shares, Refuses, admit_scopes-AreShares,
}
use crytpo_data.Selection.Capacity.Exchange.Checks.{
  HoldsFixed-start, demands_of-start, All-sort_by, All-demands_of, few-each, all_contained_refl,
  check_connections-ok, sum-by_scope, Shares-scopes, ranked-any, and_none, Shares-TakesAll,
  TakesAll,
}

-- The allocations at the end of the loop of a call.
abbrev pub final_allocations : List ScopedCapacityDemand → (available : ℕ) → List Allocation
final_allocations demands available =
    allocate (available - connections (fixed_allocations demands)) (fixed_allocations demands)

-- What a call with demands in the order of their scopes has as its result: shares of the connections, no
-- more of them than there are, and all of them unless every candidate is taken.
pub record IsDivided (ds : List ScopedCapacityDemand) (available : ℕ)
    (r : ExchangeCapacityAdmission) : Type 0 where
  pub shares : Shares ds r.connections_by_scope r.admissions
  pub available_are : r.connections_available ≡ available
  pub used_are : sum_by (λ (p : CatalogScope × ℕ). p.1) r.connections_by_scope ≡ r.connections_used
  pub within : r.connections_used ≤ available
  pub none_idle : (r.connections_used ≡ available) ⊎ TakesAll r.admissions

abbrev divided_result :
    (available : ℕ)
    → List Allocation
    → Dict CatalogScope CapacityAdmission
    → ExchangeCapacityAdmission
divided_result available os admissions = record {
  connections_available = available;
  connections_used = connections os;
  connections_by_scope = by_scope os;
  admissions = admissions;
}

checked_result-ok :
    (available : ℕ) (os : List Allocation) (admissions : Dict CatalogScope CapacityAdmission)
    → bounded_integer 0 available ≡ ok tt
    → connections os ≤ available
    → Shares (demands_of os) (by_scope os) admissions
    → checked_result (divided_result available os admissions)
      ≡ ok (divided_result available os admissions)
unfolding checked_result
checked_result-ok available os admissions fits within shares =
    let scopes = scopes_of (by_scope os) in
    let same = Shares-scopes os admissions shares in
    let small : bounded_integer 0 (connections os) ≡ ok tt = ground (arith, fits, within) in
    let enough : ltb available (connections os) ≡ false = ground (arith, within) in
    let members : same_members scopes (scopes_of admissions) ≡ true =
      subst (λ ss. same_members scopes ss ≡ true) same (rw (all_contained_refl scopes) refl) in
    let total : (sum_by (λ (p : CatalogScope × ℕ). p.1) (by_scope os) == connections os) ≡ true =
      (==_iff _ _).1 (sum-by_scope os) in
    simp (fits, small, enough, members, check_connections-ok os small, total)

module _ (demands : List ScopedCapacityDemand) (available : ℕ) (sha256 : String)
    (fits : bounded_integer 0 available ≡ ok tt) (is_digest : checked_sha256 sha256 ≡ ok sha256)
    (distinct : repeats (map (λ (d : ScopedCapacityDemand). d.scope) demands) ≡ false)
    (one : one_exchange demands ≡ true) (valid : All (IsDemand available) demands) where
  -- With connections and a digest that pass the checks, and demands of distinct scopes of one exchange
  -- whose candidates have their ranks, whose policies cover them and whose slots stay in range: where the
  -- fixed candidates need no more connections than there are, the call has a result, or raises the
  -- capacity error because the admission of a scope, with the connections that the loop gave it, rejects
  -- a candidate whose policy is to fail. The result gives the scope of each demand, in the order of the
  -- scopes, connections that hold its fixed candidates, and the admission of its candidates to the slots
  -- of those connections, which rejects none with the policy to fail. The connections used are the sum
  -- over the scopes, no more than there are, and all of them unless every candidate is taken.
  pub admit_exchange_capacity-IsDivided :
      connections (fixed_allocations demands) ≤ available
      → ((r : ExchangeCapacityAdmission) × (admit_exchange_capacity demands available sha256 ≡ ok r)
          × IsDivided (in_order demands) available r)
        ⊎ ((admit_exchange_capacity demands available sha256 ≡ err capacity_error)
            × (demands_of (final_allocations demands available) ≡ in_order demands)
            × (connections (final_allocations demands available) ≤ available)
            × Refuses sha256 (final_allocations demands available))
  unfolding admit_exchange_capacity
  admit_exchange_capacity-IsDivided room =
      let start = fixed_allocations demands in
      let os = final_allocations demands available in
      let given = allocate-IsGiven (available - connections start) start (HoldsFixed-start _) in
      let within : connections os ≤ available = omega (arith, given.within, room) in
      let same : demands_of os ≡ in_order demands = given.same ∙ demands_of-start _ in
      let enough : ltb available (connections start) ≡ false = ground (arith, room) in
      let guard : (ltb (connections start) available && any has_unranked demands) ≡ false =
        and_none (ltb (connections start) available) _ (ranked-any available demands valid) in
      let each : All (λ (o : Allocation). IsDemand available o.0) os =
        All-demands_of (IsDemand available) os
          (subst (All (IsDemand available)) (sym same) (All-sort_by _ _ demands valid)) in
      elim (admit_scopes-AreShares available sha256 is_digest os each (few-each available os within)
        given.held) [
          | inl (admissions, made, shares) ↦
              let checked = checked_result-ok available os admissions fits within shares in
              inl (
                divided_result available os admissions,
                simp (fits, is_digest, distinct, one, guard, enough, made, checked),
                record {
                  shares = subst (λ ds. Shares ds (by_scope os) admissions) same shares;
                  available_are = refl;
                  used_are = sum-by_scope os;
                  within = within;
                  none_idle = elim given.all_given [
                    | inl all ↦ inl (omega (arith, all, room))
                    | inr done ↦ inr (Shares-TakesAll available os admissions each done shares)
                  ];
                },
              )
          | inr (raised, refused) ↦
              inr (
                simp (fits, is_digest, distinct, one, guard, enough, raised),
                same,
                within,
                refused,
              )
        ]
