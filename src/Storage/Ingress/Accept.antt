-- ===== src/Storage/Ingress/Accept.antt =====
-- `RawIngress.try_accept` of storage/ingress.py: the candidate, the room for it, and its entry.
use crytpo_data.Shared.{
  ℕ, ◌+◌, Bool, true, false, ◌||◌, not, Option, none, some, List, [], ◌∷◌, ◌++◌, String, str_eq,
  leb, ltb, if◌then◌else◌, length, Result, ok, err, contract_error, source_error, ◌>>=◌, ◌>>◌,
  raise_if, Dict, lookup, insert, nat_eq, string_eq, pair_eq, opt_eq,
}
use crytpo_data.Domain.Types.{exchange_eq, market_eq}
use crytpo_data.Domain.Envelope.{
  SourceContext, NativeEventDraft, RawEnvelope, construct_envelope, validate_for,
}
use crytpo_data.Storage.Resident.{
  CapacityClass, normal, control, resident_bytes, integer, fits, reserve, release,
}
use crytpo_data.Storage.Control.{
  ValidatedControlDraft, validate_control_draft, StorageControlAssociation,
}
use crytpo_data.Storage.Record.{
  AcceptedRecord, check_record, AcceptedRecordIdentity, identity_key, EnqueueStatus, accepted,
  accepted_high_water, identity_key_eq, overflow, control_overflow, not_accepting, EnqueueResult,
  refusal, check_result,
}
use crytpo_data.Storage.Association.{resolve_control_association}
use crytpo_data.Storage.Ingress.{
  Outside, RawIngress, SequenceKey, sequence_key_eq, nonempty, queue_of, bytes_of, sequence_key,
  charge_key,
}

abbrev pub Call : Type 0 → Type 0
Call A = RawIngress → Result A × RawIngress

-- `_classify`
unfoldable pub classify : NativeEventDraft → Result (CapacityClass × Option ValidatedControlDraft)
unfolding validate_control_draft
classify d =
    if str_eq d.logical_stream "_control"
    then (validate_control_draft d >>= λ c. ok (control, some c))
    else ok (normal, none)

-- `_validate_class_shard`
unfoldable pub validate_class_shard : CapacityClass → (shard : String) → Result (Unit {0})
validate_class_shard control shard = raise_if (not (str_eq shard "_control")) contract_error
validate_class_shard normal shard = raise_if (str_eq shard "_control") contract_error

abbrev as_source_error : Result (Unit {0}) → Result (Unit {0})
as_source_error (err _) = err source_error
as_source_error (ok u) = ok u

-- `_validate_source`
unfoldable pub validate_source : NativeEventDraft → SourceContext → Result (Unit {0})
unfolding validate_for
validate_source d source = as_source_error (validate_for d.transport d.logical_stream source)

-- `encode_envelope`, and `_encode_trusted_envelope`, which falls back on it
unfoldable pub encode_envelope : Outside → RawEnvelope → Result (List ℕ)
encode_envelope out e = out.encode_json e >>= λ bytes. ok (bytes ++ 10 ∷ [])

unfoldable pub encode_trusted : Outside → RawEnvelope → Result (List ℕ)
unfolding encode_envelope
encode_trusted out e = elim (out.dumps e) [
  | some bytes ↦ ok (bytes ++ 10 ∷ [])
  | none ↦ encode_envelope out e
]

-- `_build_candidate`
unfoldable pub build_candidate :
    Outside
    → NativeEventDraft
    → SourceContext
    → (time_ns monotonic_ns : ℕ) → (writer_sequence acceptance_ordinal : ℕ) → RawIngress
    → Result (AcceptedRecord × AcceptedRecordIdentity)
unfolding encode_trusted check_record construct_envelope integer
build_candidate out d source time_ns monotonic_ns writer_sequence acceptance_ordinal i = do
  received ← integer time_ns
  monotonic ← integer monotonic_ns
  let envelope =
      construct_envelope d received monotonic i.worker_instance_id source writer_sequence
        i.config_sha256
  bytes ← encode_trusted out envelope
  let accepted_record : AcceptedRecord = record { envelope = envelope; encoded_jsonl = bytes }
  check_record accepted_record
  let identity : AcceptedRecordIdentity = record {
    exchange = d.exchange;
    market = d.market;
    instrument_key = d.instrument_key;
    logical_stream = d.logical_stream;
    worker_instance_id = i.worker_instance_id;
    writer_sequence = writer_sequence;
    acceptance_ordinal = acceptance_ordinal;
    config_sha256 = i.config_sha256;
    config_generation = i.config_generation;
  }
  ok (accepted_record, identity)

-- What `try_accept` has found out when it looks for room.
pub record Candidate : Type 0 where
  pub shard : String
  pub capacity_class : CapacityClass
  pub key : SequenceKey
  pub writer_sequence : ℕ
  pub accepted_record : AcceptedRecord
  pub identity : AcceptedRecordIdentity
  pub association : Option StorageControlAssociation
  pub charge_bytes : ℕ

abbrev from_zero : Option ℕ → ℕ
from_zero none = 0
from_zero (some n) = n

abbrev pub next_sequence : SequenceKey → RawIngress → ℕ
next_sequence key i = from_zero (lookup key i.next_sequences)

abbrev pub is_bound_elsewhere : (shard : String) → Option String → Bool
is_bound_elsewhere shard none = false
is_bound_elsewhere shard (some bound) = not (str_eq bound shard)

abbrev association_length : Outside → Option StorageControlAssociation → ℕ
association_length out none = 0
association_length out (some a) = length (out.association_bytes a)

-- `try_accept` up to the charge
unfoldable pub candidate :
    Outside
    → NativeEventDraft
    → SourceContext
    → (shard : String) → (time_ns monotonic_ns : ℕ) → RawIngress
    → Result Candidate
unfolding classify validate_class_shard validate_source build_candidate resolve_control_association
candidate out d source shard time_ns monotonic_ns i = do
  normalized ← nonempty shard
  (class, validated) ← classify d
  validate_class_shard class normalized
  validate_source d source
  let key = sequence_key d
  raise_if (is_bound_elsewhere normalized (lookup key i.shard_by_sequence_key)) contract_error
  (accepted_record, identity) ←
      build_candidate out d source time_ns monotonic_ns (next_sequence key i)
        i.next_acceptance_ordinal i
  association ← resolve_control_association out.resolver validated identity
  ok (record {
    shard = normalized;
    capacity_class = class;
    key = key;
    writer_sequence = next_sequence key i;
    accepted_record = accepted_record;
    identity = identity;
    association = association;
    charge_bytes = length accepted_record.encoded_jsonl + association_length out association;
  })

-- `_overflow`
unfoldable pub overflowed : CapacityClass → RawIngress → EnqueueResult × RawIngress
overflowed control i =
    (refusal control_overflow, record i { control_overflow_count = i.control_overflow_count + 1 })
overflowed normal i =
    (refusal overflow, record i { normal_overflow_count = i.normal_overflow_count + 1 })

abbrev pub overflow_result : CapacityClass → Call EnqueueResult
unfolding overflowed
overflow_result class i = let (r, i') = overflowed class i in (ok r, i')

-- `Queue.put_nowait`, which finds the queue full or puts the result last
unfoldable pub put_nowait :
    (maxsize : ℕ) → EnqueueResult → List EnqueueResult → Option (List EnqueueResult)
put_nowait maxsize r q = if leb maxsize (length q) then none else some (q ++ r ∷ [])

-- `dict.setdefault`
abbrev bind_shard : SequenceKey → String → Dict SequenceKey String → Dict SequenceKey String
bind_shard key shard d = elim (lookup key d) [ none ↦ insert key shard d | some _ ↦ d ]

abbrev high_water_step : EnqueueStatus → ℕ
high_water_step accepted_high_water = 1
high_water_step _ = 0

-- The state after the queue took the result.
unfoldable pub entered : Candidate → EnqueueStatus → List EnqueueResult → RawIngress → RawIngress
entered c status queue i = record i {
  queues = insert c.shard queue i.queues;
  pending_control_associations = elim c.association [
    | none ↦ i.pending_control_associations
    | some a ↦ insert (identity_key c.identity) a i.pending_control_associations
  ];
  queued_bytes = insert c.shard (bytes_of c.shard i + c.charge_bytes) i.queued_bytes;
  shard_by_sequence_key = bind_shard c.key c.shard i.shard_by_sequence_key;
  next_sequences = insert c.key (c.writer_sequence + 1) i.next_sequences;
  next_acceptance_ordinal = i.next_acceptance_ordinal + 1;
  accepted_count = i.accepted_count + 1;
  enqueue_high_water_count = i.enqueue_high_water_count + high_water_step status;
}

abbrev pub status_at : RawIngress → EnqueueStatus
status_at i =
    if leb i.high_water_bytes (resident_bytes i.resident_budget)
    then accepted_high_water
    else accepted

abbrev pub result_of : Candidate → EnqueueStatus → EnqueueResult
result_of c status = record {
  status = status;
  record_of = some c.accepted_record;
  record_identity = some c.identity;
}

-- A failure gives the charge back; a queue made for the result is taken away again, so the queues
-- are as they were.
unfoldable pub rollback : Candidate → RawIngress → RawIngress
unfolding release
rollback c i = record i { resident_budget = (release (charge_key c.identity) i.resident_budget).1 }

-- `try_accept` with the charge reserved
unfoldable pub enqueue_reserved : Candidate → Call EnqueueResult
unfolding check_result put_nowait rollback overflowed entered
enqueue_reserved c i =
    let r = result_of c (status_at i) in
    elim (check_result r) [
      | err e ↦ (err e, rollback c i)
      | ok _ ↦ elim (put_nowait i.config.shard_max_records r (queue_of c.shard i)) [
        | none ↦ overflow_result c.capacity_class (rollback c i)
        | some queue ↦ (ok r, entered c (status_at i) queue i)
      ]
    ]

unfoldable pub reserve_and_enqueue : Candidate → Call EnqueueResult
unfolding reserve enqueue_reserved
reserve_and_enqueue c i =
    let (outcome, budget) =
      reserve (charge_key c.identity) c.capacity_class c.charge_bytes i.resident_budget in
    elim outcome [
      | err e ↦ (err e, record i { resident_budget = budget })
      | ok _ ↦ enqueue_reserved c (record i { resident_budget = budget })
    ]

-- The shard's part of the test for room.
abbrev pub shard_is_full : Candidate → RawIngress → Bool
shard_is_full c i =
    leb i.config.shard_max_records (length (queue_of c.shard i))
    || ltb i.config.shard_max_bytes (bytes_of c.shard i + c.charge_bytes)

-- `try_accept` from the test for room on
unfoldable pub make_entry : Candidate → Call EnqueueResult
unfolding fits reserve_and_enqueue overflowed
make_entry c i =
    if shard_is_full c i
    then overflow_result c.capacity_class i
    else elim (fits c.capacity_class c.charge_bytes i.resident_budget) [
      | err e ↦ (err e, i)
      | ok false ↦ overflow_result c.capacity_class i
      | ok true ↦ reserve_and_enqueue c i
    ]

unfoldable pub try_accept :
    Outside
    → NativeEventDraft
    → SourceContext
    → (shard : String) → (time_ns monotonic_ns : ℕ) → Call EnqueueResult
unfolding candidate make_entry
try_accept out d source shard time_ns monotonic_ns i =
    if i.superseded
    then (ok (refusal not_accepting), i)
    else elim (candidate out d source shard time_ns monotonic_ns i) [
      | err e ↦ (err e, i)
      | ok c ↦ make_entry c i
    ]
