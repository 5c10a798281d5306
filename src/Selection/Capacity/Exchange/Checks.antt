-- ===== src/Selection/Capacity/Exchange/Checks.antt =====
-- Lists of demands, shares and allocations in `admit_exchange_capacity`, and the checks of its result.
use crytpo_data.Shared.{
  ℕ, zero, suc, ◌*◌, ◌≤◌, ◌<◌, Bool, true, false, ◌&&◌, List, [], ◌∷◌, ◌≡◌, refl, sym, ◌∙◌, ap, any,
  map, length, take, drop, sort_by, length-sort_by, sum_by, all_contained, All, ok, Dict, arith,
  string_eq, pair_eq, Eq, beq_refl, insert_by, if◌then◌else◌,
}
use crytpo_data.Selection.Capacity.{
  CapacityCandidate, CapacityAdmission, bounded_integer, admitted_before,
}
use crytpo_data.Selection.Capacity.Exchange.{
  CatalogScope, ScopedCapacityDemand, Allocation, connections, scopes_of, by_scope,
  check_connections, fixed_connections, is_none_left, is_option, has_unranked,
}
use crytpo_data.Selection.Capacity.Exchange.Rounds.{HoldsFixed, demands_of}
use crytpo_data.Selection.Capacity.Exchange.Shares.{IsDemand, Shares}

pub HoldsFixed-start :
    (ds : List ScopedCapacityDemand)
    → HoldsFixed (map (λ (d : ScopedCapacityDemand). (d, fixed_connections d)) ds)
HoldsFixed-start [] = tt
HoldsFixed-start (d ∷ ds) = (omega arith, HoldsFixed-start ds)

pub demands_of-start :
    (ds : List ScopedCapacityDemand)
    → demands_of (map (λ (d : ScopedCapacityDemand). (d, fixed_connections d)) ds) ≡ ds
demands_of-start [] = refl
demands_of-start (d ∷ ds) = ap (λ es. d ∷ es) (demands_of-start ds)

module _ {A : Type 0} (leb_by : A → A → Bool) (P : A → Type 0) where
  All-insert_by : (a : A) (xs : List A) → P a → All P xs → All P (insert_by leb_by a xs)
  All-insert_by a [] h hs = (h, tt)
  All-insert_by a (x ∷ xs) h (hx, hs) =
      elim (leb_by a x) as (λ t. All P (if t then a ∷ x ∷ xs else x ∷ insert_by leb_by a xs)) [
        | true ↦ (h, (hx, hs))
        | false ↦ (hx, All-insert_by a xs h hs)
      ]

  pub All-sort_by : (xs : List A) → All P xs → All P (sort_by leb_by xs)
  All-sort_by [] h = tt
  All-sort_by (x ∷ xs) (h, hs) = All-insert_by x (sort_by leb_by xs) h (All-sort_by xs hs)

pub All-demands_of :
    (P : ScopedCapacityDemand → Type 0) (os : List Allocation)
    → All P (demands_of os)
    → All (λ (o : Allocation). P o.0) os
All-demands_of P [] h = tt
All-demands_of P (o ∷ os) (h, hs) = (h, All-demands_of P os hs)

pub few-each :
    (available : ℕ) (os : List Allocation)
    → connections os ≤ available
    → All (λ (o : Allocation). o.1 ≤ available) os
few-each available [] h = tt
few-each available (o ∷ os) h = (omega (arith, h), few-each available os (omega (arith, h)))

pub and_none : (a b : Bool) → b ≡ false → (a && b) ≡ false
and_none a b h = ground arith

pub ranked-any :
    (available : ℕ) (ds : List ScopedCapacityDemand)
    → All (IsDemand available) ds
    → any has_unranked ds ≡ false
ranked-any available [] h = refl
ranked-any available (d ∷ ds) (v, h) = ground (arith, v.all_ranked, ranked-any available ds h)

-- The checks of the result hold for scopes that are in the same order in both mappings.
module _ {A : Type 0} ⦃e : Eq A⦄ where
  all_contained-later :
      (x : A) (xs ys : List A) → all_contained xs ys ≡ true → all_contained xs (x ∷ ys) ≡ true
  all_contained-later x [] ys h = refl
  all_contained-later x (y ∷ xs) ys h = ground (arith, all_contained-later x xs ys)

  pub all_contained_refl : (xs : List A) → all_contained xs xs ≡ true
  all_contained_refl [] = refl
  all_contained_refl (x ∷ xs) =
      ground (arith, beq_refl x, all_contained-later x xs xs (all_contained_refl xs))

pub check_connections-ok :
    (os : List Allocation)
    → bounded_integer 0 (connections os) ≡ ok tt
    → check_connections (by_scope os) ≡ ok tt
check_connections-ok [] h = refl
check_connections-ok ((d, n) ∷ os) h =
    let first : bounded_integer 0 n ≡ ok tt = ground (arith, h) in
    let rest : bounded_integer 0 (connections os) ≡ ok tt = ground (arith, h) in
    simp (first, check_connections-ok os rest)

pub sum-by_scope :
    (os : List Allocation) → sum_by (λ (p : CatalogScope × ℕ). p.1) (by_scope os) ≡ connections os
sum-by_scope [] = refl
sum-by_scope (o ∷ os) = omega (arith, sum-by_scope os)

pub Shares-scopes :
    (os : List Allocation) (admissions : Dict CatalogScope CapacityAdmission)
    → Shares (demands_of os) (by_scope os) admissions
    → scopes_of (by_scope os) ≡ scopes_of admissions
Shares-scopes [] [] h = refl
Shares-scopes [] (a ∷ as') h = absurd h
Shares-scopes (o ∷ os) [] h = absurd h
Shares-scopes ((d, n) ∷ os) ((s, a) ∷ as') (_, same, _, _, _, rest) =
    ap (λ ss. d.scope ∷ ss) (Shares-scopes os as' rest) ∙ ap (λ x. x ∷ scopes_of as') (sym same)

-- No candidate is rejected.
abbrev pub TakesAll : Dict CatalogScope CapacityAdmission → Type 0
TakesAll admissions =
    All (λ (p : CatalogScope × CapacityAdmission). length (p.1).rejected ≡ 0) admissions

none_left-le :
    (xs : List CapacityCandidate) (per k : ℕ)
    → 0 < per
    → is_none_left (take per (drop k xs)) ≡ true
    → length xs ≤ k
none_left-le [] per k h none_left = omega arith
none_left-le (x ∷ xs) zero k h none_left = omega (arith, h)
none_left-le (x ∷ xs) (suc per) zero h none_left = cc
none_left-le (x ∷ xs) (suc per) (suc k) h none_left =
    omega (arith, none_left-le xs (suc per) k h none_left)

pub Shares-TakesAll :
    (available : ℕ) (os : List Allocation) (admissions : Dict CatalogScope CapacityAdmission)
    → All (λ (o : Allocation). IsDemand available o.0) os
    → All (λ (o : Allocation). is_option o ≡ false) os
    → Shares (demands_of os) (by_scope os) admissions
    → TakesAll admissions
Shares-TakesAll available [] [] demands done h = tt
Shares-TakesAll available [] (a ∷ as') demands done h = absurd h
Shares-TakesAll available (o ∷ os) [] demands done h = absurd h
Shares-TakesAll available ((d, n) ∷ os) ((s, a) ∷ as') (v, demands) (first, done)
      (_, _, _, admits, _, rest) =
    let per = d.instruments_per_connection in
    let few =
      none_left-le (sort_by admitted_before d.candidates) per (n * per) v.some_slots
        (ground (arith, first)) in
    (
      omega (arith, few, length-sort_by admitted_before d.candidates, admits.left),
      Shares-TakesAll available os as' demands done rest,
    )
