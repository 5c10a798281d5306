-- ===== src/Storage/Resident/Calls.antt =====
-- Calls of `ResidentBudget` in storage/ingress.py, one after another.
use crytpo_data.Shared.{
  ℕ, ◌<◌, ◌≡◌, refl, subst, sym, ap, inl, inr, ◌||◌, none, [], ◌∷◌, leb, ◌==◌, Result, ok, raise_if,
  Dict, lookup, insert, erase, nat_eq, string_eq, pair_eq, arith, Result-cases, ok-injective,
  >>=-eq-ok, >>-eq-ok, beq_refl, lookup-insert_self, value_error,
}
use crytpo_data.Storage.Resident.{
  CapacityClass, normal, control, ResidentCharge, ChargeKey, ResidentBudget, integer, new_budget,
  check_reserve, count_in, reserve, count_out, release,
}
use crytpo_data.Storage.Resident.Balance.{
  IsBalanced, check_reserve-ok, reserve-IsBalanced, release-IsBalanced,
}

-- The calls that change a budget.
pub data Step : ResidentBudget → ResidentBudget → Type 0 where
  reserved :
      (key : ChargeKey) (class : CapacityClass) (n : ℕ) (b : ResidentBudget)
      → Step b (reserve key class n b).1
  released : (key : ChargeKey) (b : ResidentBudget) → Step b (release key b).1

pub data Reach (b : ResidentBudget) : ResidentBudget → Type 0 where
  here : Reach b b
  next : {c d : ResidentBudget} → Reach b c → Step c d → Reach b d

pub new_budget-IsBalanced :
    (maximum reserve_bytes : ℕ) (b : ResidentBudget)
    → new_budget maximum reserve_bytes ≡ ok b
    → IsBalanced b
unfolding new_budget integer
new_budget-IsBalanced maximum reserve_bytes b h =
    let (m, _, h1) = >>=-eq-ok (integer maximum) _ h in
    let (r, _, h2) = >>=-eq-ok (integer reserve_bytes) _ h1 in
    let (_, h3) = >>-eq-ok (raise_if (m == 0) value_error) _ h2 in
    let (below, h4) = >>-eq-ok (raise_if (r == 0 || leb m r) value_error) _ h3 in
    let less : r < m = ground (arith, below) in
    subst IsBalanced (ok-injective h4) (record {
      count_normal = refl;
      sum_normal = refl;
      count_control = refl;
      sum_control = refl;
      within = omega arith;
      left_for_control = omega arith;
    })

pub new_budget-no_charges :
    (maximum reserve_bytes : ℕ) (b : ResidentBudget)
    → new_budget maximum reserve_bytes ≡ ok b
    → b.charges ≡ []
unfolding new_budget integer
new_budget-no_charges maximum reserve_bytes b h =
    let (m, _, h1) = >>=-eq-ok (integer maximum) _ h in
    let (r, _, h2) = >>=-eq-ok (integer reserve_bytes) _ h1 in
    let (_, h3) = >>-eq-ok (raise_if (m == 0) value_error) _ h2 in
    let (_, h4) = >>-eq-ok (raise_if (r == 0 || leb m r) value_error) _ h3 in
    ap (λ (b : ResidentBudget). b.charges) (sym (ok-injective h4))

Step-IsBalanced : {b c : ResidentBudget} → Step b c → IsBalanced b → IsBalanced c
Step-IsBalanced (reserved key class n b) v = reserve-IsBalanced key class n b v
Step-IsBalanced (released key b) v = release-IsBalanced key b v

-- A budget that any calls of `reserve` and `release` lead to, from one that the constructor
-- returned, is balanced: its counters are the sums over the charges held, and the bytes are within
-- the maximum, those of the normal class within what the control reserve leaves.
pub Reach-IsBalanced :
    {b c : ResidentBudget} (maximum reserve_bytes : ℕ)
    → new_budget maximum reserve_bytes ≡ ok b
    → Reach b c
    → IsBalanced c
Reach-IsBalanced maximum reserve_bytes made here =
    new_budget-IsBalanced maximum reserve_bytes _ made
Reach-IsBalanced maximum reserve_bytes made (next r s) =
    Step-IsBalanced s (Reach-IsBalanced maximum reserve_bytes made r)

erase-insert :
    (key : ChargeKey) (c : ResidentCharge) (d : Dict ChargeKey ResidentCharge)
    → lookup key d ≡ none
    → erase key (insert key c d) ≡ d
erase-insert key c [] new = ground (arith, beq_refl key)
erase-insert key c ((k, e) ∷ d) new = ground (arith, erase-insert key c d)

release-count_in :
    (key : ChargeKey) (class : CapacityClass) (n : ℕ) (b : ResidentBudget)
    → lookup key b.charges ≡ none
    → let entry : ResidentCharge = record { capacity_class = class; charge_bytes = n } in
      release key (count_in class n (record b { charges = insert key entry b.charges }))
      ≡ (ok tt, b)
unfolding release count_in count_out
release-count_in key normal n b new =
    let c : ResidentCharge = record { capacity_class = normal; charge_bytes = n } in
    simp (lookup-insert_self key c b.charges, release)
      (ground (arith, erase-insert key c b.charges new))
release-count_in key control n b new =
    let c : ResidentCharge = record { capacity_class = control; charge_bytes = n } in
    simp (lookup-insert_self key c b.charges, release)
      (ground (arith, erase-insert key c b.charges new))

-- What `reserve` accepted, `release` takes back: the budget is as it was before.
pub release-reserve :
    (key : ChargeKey) (class : CapacityClass) (n : ℕ) (b c : ResidentBudget)
    → reserve key class n b ≡ (ok tt, c)
    → release key c ≡ (ok tt, b)
unfolding reserve
release-reserve key class n b c h = elim (Result-cases (check_reserve key class n b)) [
  | inl (e, refused) ↦ cc (rw (refused, reserve) at h)
  | inr (charge, passed) ↦
      let (new, same, _, _) = check_reserve-ok key b class n charge passed in
      let made = ap (λ (p : Result (Unit {0}) × ResidentBudget). p.1) (rw (passed, reserve) at h) in
      subst (λ d. release key d ≡ (ok tt, b)) made (release-count_in key class charge b new)
]
