-- ===== src/Storage/Ingress/Replace.antt =====
-- `RawIngress.replacement_for_config` of storage/ingress.py: a quiet ingress hands its numbering on to
-- one with a new configuration, and accepts nothing more.
use crytpo_data.Shared.{
  ℕ, Bool, true, false, ◌||◌, not, List, [], ◌∷◌, String, leb, ◌==◌, any, Result, ok, err,
  value_error, contract_error, ◌>>=◌, ◌>>◌, raise_if,
}
use crytpo_data.Storage.Resident.{integer, resident_record_count}
use crytpo_data.Storage.Ingress.{RawIngress, checked_sha256, is_empty_queue, new_ingress}
use crytpo_data.Storage.Ingress.Accept.{Call}

abbrev is_empty_list {ℓ} : {A : Type ℓ} → List A → Bool
is_empty_list [] = true
is_empty_list (_ ∷ _) = false

-- Something is queued, resident, or to be taken.
unfoldable pub is_busy : RawIngress → Bool
is_busy i =
    any (λ (_, q). not (is_empty_queue q)) i.queues
    || (any (λ (_, n). not (n == 0)) i.queued_bytes
        || (not (resident_record_count i.resident_budget == 0)
            || not (is_empty_list i.pending_control_associations)))

-- What the replacement takes over.
unfoldable pub handed_on : (old new : RawIngress) → RawIngress
handed_on old new = record new {
  next_sequences = old.next_sequences;
  shard_by_sequence_key = old.shard_by_sequence_key;
  next_acceptance_ordinal = old.next_acceptance_ordinal;
  accepted_count = old.accepted_count;
  enqueue_high_water_count = old.enqueue_high_water_count;
  normal_overflow_count = old.normal_overflow_count;
  control_overflow_count = old.control_overflow_count;
}

unfoldable pub make_replacement :
    (config_sha256 : String) → (config_generation : ℕ) → RawIngress → Result RawIngress
unfolding checked_sha256 integer is_busy new_ingress handed_on
make_replacement config_sha256 config_generation i = do
  sha256 ← checked_sha256 config_sha256
  generation ← integer config_generation
  raise_if (leb generation i.config_generation) value_error
  raise_if i.superseded contract_error
  raise_if (is_busy i) contract_error
  new ← new_ingress i.config i.worker_instance_id sha256 generation i.resident_budget
  ok (handed_on i new)

-- The replacement, and the old ingress.
unfoldable pub replacement_for_config :
    (config_sha256 : String) → (config_generation : ℕ) → Call RawIngress
unfolding make_replacement
replacement_for_config config_sha256 config_generation i =
    elim (make_replacement config_sha256 config_generation i) [
      | err e ↦ (err e, i)
      | ok new ↦ (ok new, record i { superseded = true })
    ]
