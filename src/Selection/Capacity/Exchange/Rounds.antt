-- ===== src/Selection/Capacity/Exchange/Rounds.antt =====
-- The loop of `admit_exchange_capacity` that gives the remaining connections away.
use crytpo_data.Shared.{
  ℕ, zero, suc, ◌+◌, ◌≤◌, Bool, true, false, ◌||◌, ◌&&◌, Option, none, some, List, [], ◌∷◌, ◌≡◌,
  refl, ap, sym, ◌∙◌, ◌⊎◌, Option-cases, Bool-cases, inl, inr, any, any-filter_by-false, map,
  filter_by, All, str_eq, if◌then◌else◌, arith, subst, beq_refl, string_eq,
}
use crytpo_data.Selection.Capacity.Exchange.{
  CatalogScope, ScopedCapacityDemand, Allocation, connections, fixed_connections, option_ltb,
  least_option, best_connection_scope, allocate_one, allocate, is_option,
}

abbrev is_of : CatalogScope → Allocation → Bool
is_of (e, m) (d, n) = str_eq e (d.scope).0 && str_eq m (d.scope).1

or_later : (a b : Bool) → b ≡ true → (a || b) ≡ true
or_later a b h = ground arith

or_between : (a b c : Bool) → (a || c) ≡ true → (a || (b || c)) ≡ true
or_between a b c h = ground arith

-- The scope of the least option is the scope of an option.
least_option-any :
    (best : Allocation) (os : List Allocation)
    → any (is_of ((least_option best os).0).scope) (best ∷ os) ≡ true
least_option-any (d, n) [] = ground (arith, beq_refl (d.scope).0, beq_refl (d.scope).1)
least_option-any best (o ∷ os) =
    elim (option_ltb o best)
      as (λ t.
        any (is_of ((least_option (if t then o else best) os).0).scope) (best ∷ o ∷ os) ≡ true) [
          | true ↦ or_later (is_of _ best) _ (least_option-any o os)
          | false ↦ or_between (is_of _ best) (is_of _ o) _ (least_option-any best os)
        ]

best_connection_scope-any :
    (os : List Allocation) (scope : CatalogScope)
    → best_connection_scope os ≡ some scope
    → any (is_of scope) os ≡ true
best_connection_scope-any [] scope h = cc
best_connection_scope-any (o ∷ os) scope h =
    let same : ((least_option o os).0).scope ≡ scope = cc in
    subst (λ s. any (is_of s) (o ∷ os) ≡ true) same (least_option-any o os)

best_connection_scope-none :
    (os : List Allocation)
    → best_connection_scope (filter_by is_option os) ≡ none
    → All (λ (o : Allocation). is_option o ≡ false) os
best_connection_scope-none [] h = tt
best_connection_scope-none (o ∷ os) h = elim (Bool-cases (is_option o)) [
  | inl left ↦ cc (rw left at h)
  | inr done ↦ (done, best_connection_scope-none os (rw done at h))
]

any-of_filter :
    (p : Allocation → Bool) (os : List Allocation)
    → any p (filter_by is_option os) ≡ true
    → any p os ≡ true
any-of_filter p os h = elim (Bool-cases (any p os)) [
  | inl found ↦ found
  | inr absent ↦ cc (h, any-filter_by-false p is_option os absent)
]

-- A connection goes to a scope that is there.
connections-allocate_one :
    (scope : CatalogScope) (os : List Allocation)
    → any (is_of scope) os ≡ true
    → connections (allocate_one scope os) ≡ connections os + 1
connections-allocate_one scope [] h = cc
connections-allocate_one (e, m) ((d, n) ∷ os) h =
    ground (arith, connections-allocate_one (e, m) os, h)

-- Each demand has the connections of its fixed candidates at least.
abbrev pub HoldsFixed : List Allocation → Type 0
HoldsFixed os = All (λ (o : Allocation). fixed_connections o.0 ≤ o.1) os

HoldsFixed-allocate_one :
    (scope : CatalogScope) (os : List Allocation)
    → HoldsFixed os
    → HoldsFixed (allocate_one scope os)
HoldsFixed-allocate_one scope [] h = tt
HoldsFixed-allocate_one (e, m) ((d, n) ∷ os) (h, rest) =
    elim (str_eq e (d.scope).0 && str_eq m (d.scope).1)
      as (λ t. HoldsFixed (if t then (d, n + 1) ∷ os else (d, n) ∷ allocate_one (e, m) os)) [
        | true ↦ (omega (arith, h), rest)
        | false ↦ (h, HoldsFixed-allocate_one (e, m) os rest)
      ]

abbrev pub demands_of : List Allocation → List ScopedCapacityDemand
demands_of os = map (λ (o : Allocation). o.0) os

demands_of-allocate_one :
    (scope : CatalogScope) (os : List Allocation)
    → demands_of (allocate_one scope os) ≡ demands_of os
demands_of-allocate_one scope [] = refl
demands_of-allocate_one (e, m) ((d, n) ∷ os) =
    elim (str_eq e (d.scope).0 && str_eq m (d.scope).1)
      as (λ t.
        demands_of (if t then (d, n + 1) ∷ os else (d, n) ∷ allocate_one (e, m) os)
        ≡ d ∷ demands_of os) [
          | true ↦ refl
          | false ↦ ap (λ ds. d ∷ ds) (demands_of-allocate_one (e, m) os)
        ]

-- All connections are given away, or no demand has a candidate without one; the demands are the same,
-- and hold their fixed candidates.
pub record IsGiven (before : List Allocation) (remaining : ℕ) (after : List Allocation)
    : Type 0 where
  pub within : connections after ≤ connections before + remaining
  pub same : demands_of after ≡ demands_of before
  pub held : HoldsFixed after
  pub all_given :
      (connections after ≡ connections before + remaining)
      ⊎ All (λ (o : Allocation). is_option o ≡ false) after

abbrev next : ℕ → List Allocation → Option CatalogScope → List Allocation
next remaining os none = os
next remaining os (some scope) = allocate remaining (allocate_one scope os)

one_more :
    (scope : CatalogScope) (remaining : ℕ) (os after : List Allocation)
    → connections (allocate_one scope os) ≡ connections os + 1
    → IsGiven (allocate_one scope os) remaining after
    → IsGiven os (suc remaining) after
one_more scope remaining os after grown v = record {
  within = omega (arith, v.within, grown);
  same = v.same ∙ demands_of-allocate_one scope os;
  held = v.held;
  all_given = elim v.all_given [ inl all ↦ inl (omega (arith, all, grown)) | inr done ↦ inr done ];
}

pub allocate-IsGiven :
    (remaining : ℕ) (os : List Allocation)
    → HoldsFixed os
    → IsGiven os remaining (allocate remaining os)
unfolding allocate
allocate-IsGiven zero os h = record {
  within = omega arith;
  same = refl;
  held = h;
  all_given = inl (omega arith);
}
allocate-IsGiven (suc remaining) os h =
    elim (Option-cases (best_connection_scope (filter_by is_option os))) [
      | inl no_option ↦
          subst (λ o. IsGiven os (suc remaining) (next remaining os o)) (sym no_option)
            (record {
              within = omega arith;
              same = refl;
              held = h;
              all_given = inr (best_connection_scope-none os no_option);
            })
      | inr (scope, best) ↦
          let there = best_connection_scope-any (filter_by is_option os) scope best in
          let grown = connections-allocate_one scope os (any-of_filter (is_of scope) os there) in
          subst (λ o. IsGiven os (suc remaining) (next remaining os o)) (sym best)
            (one_more scope remaining os _ grown (
              allocate-IsGiven remaining (allocate_one scope os)
                (HoldsFixed-allocate_one scope os h)))
    ]
