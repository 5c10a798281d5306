-- ===== src/Domain/Envelope.antt =====
-- domain/envelope.py: drafts of events, the sources that they come from, and the envelopes of records.
-- A draft's types and the texts that must not be empty are checked by pydantic.
use crytpo_data.Shared.{
  ℕ, Bool, true, false, ◌&&◌, ◌||◌, not, Option, none, some, List, [], ◌∷◌, String, str_eq, ltb,
  if◌then◌else◌, contains, Dict, Result, ok, err, value_error, ◌>>◌, raise_if, string_eq,
}
use crytpo_data.Domain.Types.{
  Exchange, Market, Transport, rest, websocket, internal, IntegrityMode, CoverageMode,
}
use crytpo_data.Domain.Json.{Json}

pub record RestMetadata : Type 0 where
  pub request_started_at_ns : ℕ
  pub request_ended_at_ns : ℕ
  pub method : String
  pub path : String
  pub params : Dict String Json
  pub status : ℕ
  pub attempt : ℕ
  pub rate_limit_headers : Dict String String
  pub requested_interval_ns : Option ℕ
  pub effective_interval_ns : Option ℕ

-- `RestMetadata.validate_request_times`
abbrev check_intervals : Option ℕ → Option ℕ → Result (Unit {0})
check_intervals none none = ok tt
check_intervals (some requested) (some effective) = raise_if (ltb effective requested) value_error
check_intervals _ _ = err value_error

unfoldable pub validate_request_times : RestMetadata → Result (Unit {0})
validate_request_times m = do
  raise_if (ltb m.request_ended_at_ns m.request_started_at_ns) value_error
  check_intervals m.requested_interval_ns m.effective_interval_ns

pub record SourceContext : Type 0 where
  pub connection_id : Option String
  pub connection_generation : Option ℕ
  pub egress_id : Option String

abbrev pub is_none {ℓ} : {A : Type ℓ} → Option A → Bool
is_none none = true
is_none (some _) = false

abbrev both_or_neither {ℓ κ} : {A : Type ℓ} {B : Type κ} → Option A → Option B → Bool
both_or_neither none none = true
both_or_neither (some _) (some _) = true
both_or_neither _ _ = false

-- `SourceContext.validate_connection_pair`
unfoldable pub validate_connection_pair : SourceContext → Result (Unit {0})
validate_connection_pair s =
    raise_if (not (both_or_neither s.connection_id s.connection_generation)) value_error

abbrev is_websocket : Transport → Bool
is_websocket websocket = true
is_websocket _ = false

-- The part of `validate_for` after the internal transport.
abbrev validate_external : Transport → String → SourceContext → Result (Unit {0})
validate_external transport logical_stream s =
    if is_websocket transport || str_eq logical_stream "book_live_bootstrap"
    then raise_if (is_none s.connection_id || is_none s.egress_id) value_error
    else raise_if (not (is_none s.connection_id) || is_none s.egress_id) value_error

-- `SourceContext.validate_for`
unfoldable pub validate_for :
    Transport → (logical_stream : String) → SourceContext → Result (Unit {0})
validate_for internal logical_stream s =
    raise_if (not (is_none s.connection_id) || not (is_none s.egress_id)) value_error
validate_for rest logical_stream s = validate_external rest logical_stream s
validate_for websocket logical_stream s = validate_external websocket logical_stream s

pub record NativeEventDraft : Type 0 where
  pub exchange : Exchange
  pub market : Option Market
  pub instrument_key : Option String
  pub wire_symbol : Option String
  pub logical_stream : String
  pub native_channel : Option String
  pub transport : Transport
  pub event_time_ns : Option ℕ
  pub event_time_source : Option String
  pub integrity_mode : Option IntegrityMode
  pub coverage : Option CoverageMode
  pub rest_metadata : Option RestMetadata
  pub payload : Json

-- `MARKET_SCOPED_STREAMS` and `BOOK_STREAMS`
abbrev pub market_scoped_streams : List String
market_scoped_streams = "instrument" ∷ "status" ∷ "insurance_fund" ∷ []

abbrev book_streams : List String
book_streams = "book_deep_snapshot" ∷ "book_live" ∷ "book_live_bootstrap" ∷ []

abbrev is_rest : Transport → Bool
is_rest rest = true
is_rest _ = false

abbrev pub is_internal : Transport → Bool
is_internal internal = true
is_internal _ = false

-- `validate_scope_and_transport`
unfoldable pub validate_scope_and_transport : NativeEventDraft → Result (Unit {0})
validate_scope_and_transport d = do
  let is_control = str_eq d.logical_stream "_control"
  raise_if (is_none d.market && not is_control) value_error
  raise_if (not (both_or_neither d.instrument_key d.wire_symbol)) value_error
  raise_if
      (not is_control
        && (not (contains market_scoped_streams d.logical_stream) && is_none d.instrument_key))
      value_error
  raise_if (is_none d.native_channel && not is_control) value_error
  raise_if (not (both_or_neither d.event_time_ns d.event_time_source)) value_error
  raise_if (if is_rest d.transport then is_none d.rest_metadata else not (is_none d.rest_metadata))
      value_error
  raise_if (is_internal d.transport && not is_control) value_error
  raise_if (str_eq d.logical_stream "book_live_bootstrap" && not (is_rest d.transport)) value_error
  raise_if (not (is_none d.integrity_mode) && not (contains book_streams d.logical_stream))
      value_error

-- `RawEnvelope`: the draft, and what the ingress adds to it.
pub record RawEnvelope : Type 0 where
  pub draft : NativeEventDraft
  pub received_at_ns : ℕ
  pub monotonic_ns : ℕ
  pub worker_instance_id : String
  pub connection_id : Option String
  pub connection_generation : Option ℕ
  pub writer_sequence : ℕ
  pub egress_id : Option String
  pub config_sha256 : String

-- `_construct_envelope_from_validated_parts`
unfoldable pub construct_envelope :
    NativeEventDraft
    → (received_at_ns monotonic_ns : ℕ) → (worker_instance_id : String) → SourceContext
    → (writer_sequence : ℕ) → (config_sha256 : String) → RawEnvelope
construct_envelope draft received_at_ns monotonic_ns worker source writer_sequence config_sha256 =
    record {
      draft = draft;
      received_at_ns = received_at_ns;
      monotonic_ns = monotonic_ns;
      worker_instance_id = worker;
      connection_id = source.connection_id;
      connection_generation = source.connection_generation;
      writer_sequence = writer_sequence;
      egress_id = source.egress_id;
      config_sha256 = config_sha256;
    }
