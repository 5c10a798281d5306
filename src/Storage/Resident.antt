-- ===== src/Storage/Resident.antt =====
-- `ResidentBudget` of storage/ingress.py: the bytes of the records that are in memory. The identity
-- of a record stands as its key, the worker and the ordinal. Where the code subtracts from a counter
-- the counter holds at least as much, so the subtraction on naturals is the code's.
pub mod Balance
pub mod Calls
use crytpo_data.Shared.{
  ℕ, ◌+◌, ◌-◌, ◌^◌, Bool, true, false, ◌&&◌, ◌||◌, not, Option, none, some, List, [], String, leb,
  ltb, ◌==◌, if◌then◌else◌, Result, ok, err, value_error, key_error, ◌>>=◌, ◌>>◌, raise_if, Dict,
  lookup, insert, erase, Eq, nat_eq, string_eq, pair_eq,
}

pub data CapacityClass : Type 0 where
  normal control : CapacityClass

-- `_ResidentCharge`
pub record ResidentCharge : Type 0 where
  pub capacity_class : CapacityClass
  pub charge_bytes : ℕ

-- `_charge_key`: the worker's instance and the ordinal of the acceptance.
abbrev pub ChargeKey : Type 0
ChargeKey = String × ℕ

pub record ResidentBudget : Type 0 where
  pub worker_max_bytes : ℕ
  pub control_reserve_bytes : ℕ
  pub charges : Dict ChargeKey ResidentCharge
  pub normal_resident_records : ℕ
  pub normal_resident_bytes : ℕ
  pub control_resident_records : ℕ
  pub control_resident_bytes : ℕ

-- `_integer`
unfoldable pub integer : ℕ → Result ℕ
integer n = if ltb (2 ^ 63 - 1) n then err value_error else ok n

-- `ResidentBudget.__init__`, and `from_config` with the two numbers of the configuration
unfoldable pub new_budget : (worker_max_bytes control_reserve_bytes : ℕ) → Result ResidentBudget
unfolding integer
new_budget worker_max_bytes control_reserve_bytes = do
  maximum ← integer worker_max_bytes
  reserved ← integer control_reserve_bytes
  raise_if (maximum == 0) value_error
  raise_if (reserved == 0 || leb maximum reserved) value_error
  ok (record {
    worker_max_bytes = maximum;
    control_reserve_bytes = reserved;
    charges = [];
    normal_resident_records = 0;
    normal_resident_bytes = 0;
    control_resident_records = 0;
    control_resident_bytes = 0;
  })

-- The properties of the class.
abbrev pub normal_capacity_bytes : ResidentBudget → ℕ
normal_capacity_bytes b = b.worker_max_bytes - b.control_reserve_bytes

abbrev pub resident_record_count : ResidentBudget → ℕ
resident_record_count b = b.normal_resident_records + b.control_resident_records

abbrev pub resident_bytes : ResidentBudget → ℕ
resident_bytes b = b.normal_resident_bytes + b.control_resident_bytes

unfoldable pub matches_config : (worker_max_bytes control_reserve_bytes : ℕ) → ResidentBudget → Bool
matches_config worker_max_bytes control_reserve_bytes b =
    b.worker_max_bytes == worker_max_bytes && b.control_reserve_bytes == control_reserve_bytes

-- `fits`, once the charge is accepted
unfoldable pub has_room : CapacityClass → ℕ → ResidentBudget → Bool
has_room normal charge b =
    if ltb b.worker_max_bytes (resident_bytes b + charge)
    then false
    else leb (b.normal_resident_bytes + charge) (normal_capacity_bytes b)
has_room control charge b = not (ltb b.worker_max_bytes (resident_bytes b + charge))

unfoldable pub fits : CapacityClass → (charge_bytes : ℕ) → ResidentBudget → Result Bool
unfolding integer has_room
fits class charge_bytes b = do
  charge ← integer charge_bytes
  raise_if (charge == 0) value_error
  ok (has_room class charge b)

abbrev is_known : Option ResidentCharge → Bool
is_known none = false
is_known (some _) = true

-- The checks of `reserve`; they return the charge.
unfoldable pub check_reserve : ChargeKey → CapacityClass → ℕ → ResidentBudget → Result ℕ
unfolding integer fits
check_reserve key class charge_bytes b = do
  raise_if (is_known (lookup key b.charges)) value_error
  charge ← integer charge_bytes
  room ← fits class charge b
  raise_if (not room) value_error
  ok charge

-- The counters after a charge of a class.
unfoldable pub count_in : CapacityClass → ℕ → ResidentBudget → ResidentBudget
count_in normal charge b = record b {
  normal_resident_records = b.normal_resident_records + 1;
  normal_resident_bytes = b.normal_resident_bytes + charge;
}
count_in control charge b = record b {
  control_resident_records = b.control_resident_records + 1;
  control_resident_bytes = b.control_resident_bytes + charge;
}

abbrev pub Call : Type 0
Call = ResidentBudget → Result (Unit {0}) × ResidentBudget

unfoldable pub reserve : ChargeKey → CapacityClass → (charge_bytes : ℕ) → Call
unfolding check_reserve count_in
reserve key class charge_bytes b = elim (check_reserve key class charge_bytes b) [
  | err e ↦ (err e, b)
  | ok charge ↦
      let entry : ResidentCharge = record { capacity_class = class; charge_bytes = charge } in
      (ok tt, count_in class charge (record b { charges = insert key entry b.charges }))
]

unfoldable pub charge_of : ChargeKey → ResidentBudget → Result ℕ
charge_of key b = elim (lookup key b.charges) [ none ↦ err key_error | some c ↦ ok c.charge_bytes ]

unfoldable pub count_out : CapacityClass → ℕ → ResidentBudget → ResidentBudget
count_out normal charge b = record b {
  normal_resident_records = b.normal_resident_records - 1;
  normal_resident_bytes = b.normal_resident_bytes - charge;
}
count_out control charge b = record b {
  control_resident_records = b.control_resident_records - 1;
  control_resident_bytes = b.control_resident_bytes - charge;
}

unfoldable pub release : ChargeKey → Call
unfolding count_out
release key b = elim (lookup key b.charges) [
  | none ↦ (err key_error, b)
  | some c ↦ (
    ok tt,
    count_out c.capacity_class c.charge_bytes (record b { charges = erase key b.charges }),
  )
]

-- `ResidentBudgetSnapshot`
pub record ResidentBudgetSnapshot : Type 0 where
  pub resident_record_count : ℕ
  pub resident_bytes : ℕ
  pub normal_resident_records : ℕ
  pub normal_resident_bytes : ℕ
  pub control_resident_records : ℕ
  pub control_resident_bytes : ℕ

unfoldable pub snapshot : ResidentBudget → ResidentBudgetSnapshot
snapshot b = record {
  resident_record_count = b.normal_resident_records + b.control_resident_records;
  resident_bytes = b.normal_resident_bytes + b.control_resident_bytes;
  normal_resident_records = b.normal_resident_records;
  normal_resident_bytes = b.normal_resident_bytes;
  control_resident_records = b.control_resident_records;
  control_resident_bytes = b.control_resident_bytes;
}
