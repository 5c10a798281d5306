-- ===== src/Storage/Ingress/Drain.antt =====
-- `RawIngress.drain_one` and `take_control_association` of storage/ingress.py.
use crytpo_data.Shared.{
  ℕ, ◌-◌, Option, none, some, [], ◌∷◌, String, ltb, if◌then◌else◌, Result, ok, err, key_error,
  assertion_error, lookup, insert, erase, string_eq, pair_eq, nat_eq,
}
use crytpo_data.Storage.Resident.{ResidentBudget, charge_of}
use crytpo_data.Storage.Control.{StorageControlAssociation}
use crytpo_data.Storage.Record.{
  AcceptedRecordIdentity, identity_key, identity_key_eq, EnqueueResult,
}
use crytpo_data.Storage.Ingress.{RawIngress, nonempty, charge_key}
use crytpo_data.Storage.Ingress.Accept.{Call}

-- The bytes of the shard after a charge is taken from them.
unfoldable pub take_bytes : (shard : String) → (charge : ℕ) → RawIngress → Result ℕ
take_bytes shard charge i = elim (lookup shard i.queued_bytes) [
  | none ↦ err key_error
  | some bytes ↦ if ltb bytes charge then err assertion_error else ok (bytes - charge)
]

-- The charge of a result, which must hold a record and an identity.
unfoldable pub charge_of_result : EnqueueResult → ResidentBudget → Result ℕ
unfolding charge_of
charge_of_result r b = elim r.record_of [
  | none ↦ err assertion_error
  | some _ ↦ elim r.record_identity [
    | none ↦ err assertion_error
    | some identity ↦ charge_of (charge_key identity) b
  ]
]

-- `drain_one` once a result has left the queue; what raises leaves the queue without it.
unfoldable pub account_drained : (shard : String) → EnqueueResult → Call (Option EnqueueResult)
unfolding take_bytes charge_of_result
account_drained shard r i = elim (charge_of_result r i.resident_budget) [
  | err e ↦ (err e, i)
  | ok charge ↦ elim (take_bytes shard charge i) [
    | err e ↦ (err e, i)
    | ok remaining ↦
        (ok (some r), record i { queued_bytes = insert shard remaining i.queued_bytes })
  ]
]

unfoldable pub drain_shard : (shard : String) → Call (Option EnqueueResult)
unfolding account_drained
drain_shard shard i = elim (lookup shard i.queues) [
  | none ↦ (ok none, i)
  | some [] ↦ (ok none, i)
  | some (r ∷ rest) ↦ account_drained shard r (record i { queues = insert shard rest i.queues })
]

unfoldable pub drain_one : (shard : String) → Call (Option EnqueueResult)
unfolding drain_shard
drain_one shard i = elim (nonempty shard) [ err e ↦ (err e, i) | ok s ↦ drain_shard s i ]

-- `take_control_association`: the association, and the ingress without it
unfoldable pub take_control_association :
    AcceptedRecordIdentity → RawIngress → Option StorageControlAssociation × RawIngress
take_control_association identity i =
    let key = identity_key identity in
    (
      lookup key i.pending_control_associations,
      record i { pending_control_associations = erase key i.pending_control_associations },
    )
