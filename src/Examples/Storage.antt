-- ===== src/Examples/Storage.antt =====
-- The resident budget at concrete inputs.
use crytpo_data.Shared.{◌≡◌, refl, [], ◌∷◌, ok}
use crytpo_data.Storage.Resident.{normal, ChargeKey, ResidentBudget, new_budget, reserve, release}
use crytpo_data.Storage.Resident.Balance.{IsBalanced}
use crytpo_data.Storage.Resident.Calls.{
  here, next, reserved, released, Reach-IsBalanced, release-reserve,
}

-- A hundred bytes, twenty of them kept for control records.
abbrev empty_budget : ResidentBudget
empty_budget = record {
  worker_max_bytes = 100;
  control_reserve_bytes = 20;
  charges = [];
  normal_resident_records = 0;
  normal_resident_bytes = 0;
  control_resident_records = 0;
  control_resident_bytes = 0;
}

new_budget-empty : new_budget 100 20 ≡ ok empty_budget
unfolding new_budget
new_budget-empty = refl

abbrev first_key : ChargeKey
first_key = ("worker", 0)

abbrev one_record : ResidentBudget
one_record = record empty_budget {
  charges = (first_key, record { capacity_class = normal; charge_bytes = 60 }) ∷ [];
  normal_resident_records = 1;
  normal_resident_bytes = 60;
}

reserve-one : reserve first_key normal 60 empty_budget ≡ (ok tt, one_record)
unfolding reserve
reserve-one = refl

release-reserve_example : release first_key one_record ≡ (ok tt, empty_budget)
release-reserve_example = release-reserve first_key normal 60 empty_budget one_record reserve-one

Reach-IsBalanced_example :
    IsBalanced (release first_key (reserve first_key normal 60 empty_budget).1).1
Reach-IsBalanced_example =
    Reach-IsBalanced 100 20 new_budget-empty
      (next (next here (reserved first_key normal 60 empty_budget)) (released first_key _))
