-- ===== src/Storage/Record.antt =====
-- The records of storage/models.py that the ingress accepts: their bytes, their identities, and the
-- results of `try_accept`. Bytes are numbers.
use crytpo_data.Shared.{
  ℕ, Bool, true, false, ◌&&◌, ◌||◌, not, Option, none, some, List, [], ◌∷◌, String, str_eq, ◌==◌,
  Result, value_error, ◌>>◌, raise_if, Eq, nat_eq, string_eq, opt_eq, pair_eq, opt_beq,
}
use crytpo_data.Domain.Types.{Exchange, exchange_beq, exchange_eq, Market, market_eq}
use crytpo_data.Domain.Envelope.{RawEnvelope, is_none}

-- `AcceptedRecord`
pub record AcceptedRecord : Type 0 where
  pub envelope : RawEnvelope
  pub encoded_jsonl : List ℕ

abbrev ends_in_newline : List ℕ → Bool
ends_in_newline [] = false
ends_in_newline (b ∷ []) = b == 10
ends_in_newline (b ∷ c ∷ bs) = ends_in_newline (c ∷ bs)

-- `AcceptedRecord.__post_init__`
unfoldable pub check_record : AcceptedRecord → Result (Unit {0})
check_record r = raise_if (not (ends_in_newline r.encoded_jsonl)) value_error

-- `AcceptedRecordIdentityV1`
pub record AcceptedRecordIdentity : Type 0 where
  pub exchange : Exchange
  pub market : Option Market
  pub instrument_key : Option String
  pub logical_stream : String
  pub worker_instance_id : String
  pub writer_sequence : ℕ
  pub acceptance_ordinal : ℕ
  pub config_sha256 : String
  pub config_generation : ℕ

-- The fields of an identity, as the key that a dictionary of identities has.
abbrev pub IdentityKey : Type 0
IdentityKey =
    (Exchange × Option Market) × ((Option String × String) × ((String × ℕ) × (ℕ × (String × ℕ))))

instance abbrev pub identity_key_eq : Eq IdentityKey
identity_key_eq =
    let config : Eq (String × ℕ) = pair_eq ⦃e = string_eq⦄ ⦃f = nat_eq⦄ in
    let ordinal : Eq (ℕ × (String × ℕ)) = pair_eq ⦃e = nat_eq⦄ ⦃f = config⦄ in
    let scope : Eq (Exchange × Option Market) = pair_eq ⦃e = exchange_eq⦄ ⦃f = opt_eq⦄ in
    let stream : Eq (Option String × String) = pair_eq ⦃e = opt_eq⦄ ⦃f = string_eq⦄ in
    pair_eq ⦃e = scope⦄ ⦃f = pair_eq ⦃e = stream⦄ ⦃f = pair_eq ⦃e = config⦄ ⦃f = ordinal⦄⦄⦄

abbrev pub identity_key : AcceptedRecordIdentity → IdentityKey
identity_key a = (
  (a.exchange, a.market),
  (
    (a.instrument_key, a.logical_stream),
    (
      (a.worker_instance_id, a.writer_sequence),
      (a.acceptance_ordinal, (a.config_sha256, a.config_generation)),
    ),
  ),
)

pub data EnqueueStatus : Type 0 where
  accepted accepted_high_water overflow control_overflow not_accepting : EnqueueStatus

-- `EnqueueResult.accepted`
abbrev pub is_accepted : EnqueueStatus → Bool
is_accepted accepted = true
is_accepted accepted_high_water = true
is_accepted _ = false

pub record EnqueueResult : Type 0 where
  pub status : EnqueueStatus
  pub record_of : Option AcceptedRecord
  pub record_identity : Option AcceptedRecordIdentity

-- The fields that an identity shares with its envelope.
abbrev matches_envelope : RawEnvelope → AcceptedRecordIdentity → Bool
matches_envelope e a =
    exchange_beq a.exchange e.draft.exchange
    && (opt_beq a.market e.draft.market
        && (opt_beq a.instrument_key e.draft.instrument_key
            && (str_eq a.logical_stream e.draft.logical_stream
                && (str_eq a.worker_instance_id e.worker_instance_id
                    && (a.writer_sequence == e.writer_sequence
                        && str_eq a.config_sha256 e.config_sha256)))))

abbrev both_match : Option AcceptedRecord → Option AcceptedRecordIdentity → Bool
both_match (some r) (some a) = matches_envelope r.envelope a
both_match _ _ = true

-- `EnqueueResult.__post_init__`
unfoldable pub check_result : EnqueueResult → Result (Unit {0})
check_result r = do
  raise_if (is_accepted r.status && (is_none r.record_of || is_none r.record_identity)) value_error
  raise_if
      (not (is_accepted r.status) && (not (is_none r.record_of) || not (is_none r.record_identity)))
      value_error
  raise_if (not (both_match r.record_of r.record_identity)) value_error

-- A result without a record.
abbrev pub refusal : EnqueueStatus → EnqueueResult
refusal status = record { status = status; record_of = none; record_identity = none }
