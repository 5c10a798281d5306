-- ===== src/Storage/Ingress/Sound/Release.antt =====
-- The release of a record that is queued no more keeps the state of a `RawIngress` of storage/ingress.py
-- sound.
use crytpo_data.Shared.{
  ℕ, ◌≡◌, refl, sym, subst, ap, ◌∙◌, ◌⊎◌, inl, inr, some, [], ◌∷◌, String, All, Dict, lookup, erase,
  string_eq, pair_eq, nat_eq, Bool-cases, Option-cases,
}
use crytpo_data.Storage.Resident.{
  ChargeKey, ResidentCharge, ResidentBudget, CapacityClass, release, count_out, normal, control,
}
use crytpo_data.Storage.Resident.Balance.{release-IsBalanced}
use crytpo_data.Storage.Ingress.{RawIngress, queue_of, bytes_of, sequence_key_eq}
use crytpo_data.Storage.Ingress.Outcome.{with_budget}
use crytpo_data.Storage.Ingress.Sound.{IsSound, Charged, Charged-erase, Unnamed}

count_out-charges :
    (class : CapacityClass) (n : ℕ) (b : ResidentBudget) → (count_out class n b).charges ≡ b.charges
unfolding count_out
count_out-charges normal n b = refl
count_out-charges control n b = refl

lookup-erase-some :
    (k key : ChargeKey) (d : Dict ChargeKey ResidentCharge) (c : ResidentCharge)
    → lookup k (erase key d) ≡ some c
    → (c' : ResidentCharge) × (lookup k d ≡ some c')
lookup-erase-some k key [] c h = cc
lookup-erase-some k key ((j, w) ∷ d) c h = elim (Bool-cases (pair_eq.beq k j)) [
  | inl same ↦ (w, rw same)
  | inr other ↦ elim (Bool-cases (pair_eq.beq key j)) [
    | inl erased ↦ (c, rw other (rw erased at h))
    | inr kept ↦
        let (c', found) = lookup-erase-some k key d c (rw other at (rw kept at h)) in
        (c', rw other found)
  ]
]

release-charges :
    (key : ChargeKey) (b : ResidentBudget)
    → ((release key b).1.charges ≡ b.charges) ⊎ ((release key b).1.charges ≡ erase key b.charges)
unfolding release
release-charges key b = elim (Option-cases (lookup key b.charges)) [
  | inl absent ↦ inl (rw (absent, release))
  | inr (c, found) ↦ inr (
      rw (found, release)
        (count_out-charges c.capacity_class c.charge_bytes
          (record b { charges = erase key b.charges })))
]

pub release-IsSound :
    (key : ChargeKey) (i : RawIngress)
    → ((shard : String) → All (Unnamed key) (queue_of shard i))
    → IsSound i
    → IsSound (with_budget (release key i.resident_budget).1 i)
release-IsSound key i others v = record {
  balanced = release-IsBalanced key i.resident_budget v.balanced;
  charged = λ shard. elim (release-charges key i.resident_budget) [
    | inl same ↦
        subst (λ d. Charged d (queue_of shard i) (bytes_of shard i)) (sym same) (v.charged shard)
    | inr erased ↦
        subst (λ d. Charged d (queue_of shard i) (bytes_of shard i)) (sym erased)
          (Charged-erase i.resident_budget.charges key _ _ (others shard) (v.charged shard))
  ];
  short = v.short;
  light = v.light;
  numbered = λ k c found. elim (release-charges key i.resident_budget) [
    | inl same ↦ v.numbered k c (sym (ap (lookup k) same) ∙ found)
    | inr erased ↦
        let (c', before) =
          lookup-erase-some k key i.resident_budget.charges c
            (sym (ap (lookup k) erased) ∙ found) in
        v.numbered k c' before
  ];
}
