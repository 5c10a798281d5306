-- ===== src/Storage/Resident/Balance.antt =====
-- The counters of `ResidentBudget` in storage/ingress.py against the charges that it holds.
use crytpo_data.Shared.{
  ℕ, ◌+◌, ◌≤◌, ◌<◌, ◌≡◌, subst, sym, inl, inr, true, none, some, [], ◌∷◌, ok, Dict, lookup, insert,
  erase, nat_eq, string_eq, pair_eq, arith, Option-cases, Result-cases,
}
use crytpo_data.Storage.Resident.{
  CapacityClass, normal, control, ResidentCharge, ChargeKey, ResidentBudget, integer,
  resident_bytes, has_room, fits, check_reserve, count_in, reserve, count_out, release,
}

-- The sum of a number over the charges.
module _ (f : ResidentCharge → ℕ) where
  abbrev pub total : Dict ChargeKey ResidentCharge → ℕ
  total [] = 0
  total ((k, c) ∷ d) = f c + total d

  total-insert :
      (key : ChargeKey) (c : ResidentCharge) (d : Dict ChargeKey ResidentCharge)
      → lookup key d ≡ none
      → total (insert key c d) ≡ total d + f c
  total-insert key c [] new = omega arith
  total-insert key c ((k, e) ∷ d) new = ground (arith, total-insert key c d)

  pub total-erase :
      (key : ChargeKey) (c : ResidentCharge) (d : Dict ChargeKey ResidentCharge)
      → lookup key d ≡ some c
      → total (erase key d) + f c ≡ total d
  total-erase key c [] found = cc
  total-erase key c ((k, e) ∷ d) found = ground (arith, total-erase key c d)

-- What a charge counts as, in each counter.
abbrev pub normal_records : ResidentCharge → ℕ
normal_records c = elim c.capacity_class [ normal ↦ 1 | control ↦ 0 ]

abbrev pub normal_bytes : ResidentCharge → ℕ
normal_bytes c = elim c.capacity_class [ normal ↦ c.charge_bytes | control ↦ 0 ]

abbrev pub control_records : ResidentCharge → ℕ
control_records c = elim c.capacity_class [ normal ↦ 0 | control ↦ 1 ]

abbrev pub control_bytes : ResidentCharge → ℕ
control_bytes c = elim c.capacity_class [ normal ↦ 0 | control ↦ c.charge_bytes ]

-- Every counter is the sum over the charges held, and the bytes are within the capacity, those of
-- the normal class within what the control reserve leaves.
pub record IsBalanced (b : ResidentBudget) : Type 0 where
  pub count_normal : b.normal_resident_records ≡ total normal_records b.charges
  pub sum_normal : b.normal_resident_bytes ≡ total normal_bytes b.charges
  pub count_control : b.control_resident_records ≡ total control_records b.charges
  pub sum_control : b.control_resident_bytes ≡ total control_bytes b.charges
  pub within : resident_bytes b ≤ b.worker_max_bytes
  pub left_for_control : b.normal_resident_bytes + b.control_reserve_bytes ≤ b.worker_max_bytes

pub check_reserve-ok :
    (key : ChargeKey) (b : ResidentBudget) (class : CapacityClass) (n : ℕ) (charge : ℕ)
    → check_reserve key class n b ≡ ok charge
    → (lookup key b.charges ≡ none) × (charge ≡ n) × (has_room class n b ≡ true) × (0 < n)
unfolding check_reserve fits integer
check_reserve-ok key b class n charge h = elim (Option-cases (lookup key b.charges)) [
  | inr (c, found) ↦ cc (rw (found, check_reserve) at h)
  | inl absent ↦
      let h' = rw (absent, check_reserve) at h in
      let (same, room, positive) : (charge ≡ n) × (has_room class n b ≡ true) × (0 < n) =
        ground (arith, h') in
      (absent, same, room, positive)
]

reserved-IsBalanced :
    (key : ChargeKey) (class : CapacityClass) (n : ℕ) (b : ResidentBudget)
    → IsBalanced b
    → lookup key b.charges ≡ none
    → has_room class n b ≡ true
    → let entry : ResidentCharge = record { capacity_class = class; charge_bytes = n } in
      IsBalanced (count_in class n (record b { charges = insert key entry b.charges }))
unfolding count_in has_room
reserved-IsBalanced key normal n b v new room =
    let c : ResidentCharge = record { capacity_class = normal; charge_bytes = n } in
    record {
      count_normal = omega (arith, v.count_normal, total-insert normal_records key c b.charges new);
      sum_normal = omega (arith, v.sum_normal, total-insert normal_bytes key c b.charges new);
      count_control =
          omega (arith, v.count_control, total-insert control_records key c b.charges new);
      sum_control = omega (arith, v.sum_control, total-insert control_bytes key c b.charges new);
      within = ground (arith, v.within);
      left_for_control = ground (arith, v.left_for_control);
    }
reserved-IsBalanced key control n b v new room =
    let c : ResidentCharge = record { capacity_class = control; charge_bytes = n } in
    record {
      count_normal = omega (arith, v.count_normal, total-insert normal_records key c b.charges new);
      sum_normal = omega (arith, v.sum_normal, total-insert normal_bytes key c b.charges new);
      count_control =
          omega (arith, v.count_control, total-insert control_records key c b.charges new);
      sum_control = omega (arith, v.sum_control, total-insert control_bytes key c b.charges new);
      within = ground (arith, v.within);
      left_for_control = v.left_for_control;
    }

released-IsBalanced :
    (key : ChargeKey) (class : CapacityClass) (n : ℕ) (b : ResidentBudget)
    → IsBalanced b
    → lookup key b.charges ≡ some (record { capacity_class = class; charge_bytes = n })
    → IsBalanced (count_out class n (record b { charges = erase key b.charges }))
unfolding count_out
released-IsBalanced key normal n b v found =
    let c : ResidentCharge = record { capacity_class = normal; charge_bytes = n } in
    record {
      count_normal =
          omega (arith, v.count_normal, total-erase normal_records key c b.charges found);
      sum_normal = omega (arith, v.sum_normal, total-erase normal_bytes key c b.charges found);
      count_control =
          omega (arith, v.count_control, total-erase control_records key c b.charges found);
      sum_control = omega (arith, v.sum_control, total-erase control_bytes key c b.charges found);
      within = omega (arith, v.within);
      left_for_control = omega (arith, v.left_for_control);
    }
released-IsBalanced key control n b v found =
    let c : ResidentCharge = record { capacity_class = control; charge_bytes = n } in
    record {
      count_normal =
          omega (arith, v.count_normal, total-erase normal_records key c b.charges found);
      sum_normal = omega (arith, v.sum_normal, total-erase normal_bytes key c b.charges found);
      count_control =
          omega (arith, v.count_control, total-erase control_records key c b.charges found);
      sum_control = omega (arith, v.sum_control, total-erase control_bytes key c b.charges found);
      within = omega (arith, v.within);
      left_for_control = v.left_for_control;
    }

-- From a balanced budget, `reserve` leaves a balanced budget, whether it accepts or raises.
pub reserve-IsBalanced :
    (key : ChargeKey) (class : CapacityClass) (n : ℕ) (b : ResidentBudget)
    → IsBalanced b
    → IsBalanced (reserve key class n b).1
unfolding reserve
reserve-IsBalanced key class n b v = elim (Result-cases (check_reserve key class n b)) [
  | inl (e, refused) ↦ rw (refused, reserve) v
  | inr (charge, passed) ↦
      let (new, same, room, _) = check_reserve-ok key b class n charge passed in
      rw (passed, reserve)
        (subst
          (λ m. IsBalanced (
            count_in class m (record b {
              charges = insert key (record { capacity_class = class; charge_bytes = m }) b.charges;
            })))
          (sym same) (reserved-IsBalanced key class n b v new room))
]

-- From a balanced budget, `release` leaves a balanced budget, whether the record is known or not.
pub release-IsBalanced :
    (key : ChargeKey) (b : ResidentBudget) → IsBalanced b → IsBalanced (release key b).1
unfolding release
release-IsBalanced key b v = elim (Option-cases (lookup key b.charges)) [
  | inl absent ↦ rw (absent, release) v
  | inr (c, found) ↦
      rw (found, release) (released-IsBalanced key c.capacity_class c.charge_bytes b v found)
]
