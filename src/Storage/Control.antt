-- ===== src/Storage/Control.antt =====
-- The control drafts of storage/models.py: the request for an association that a control draft may
-- carry, and the associations that answer it.
use crytpo_data.Shared.{
  ℕ, Bool, true, false, ◌||◌, not, Option, none, some, List, [], ◌∷◌, String, str_eq, ◌==◌,
  if◌then◌else◌, any, map, contains, same_members, sort_by, texts_leb, str_leb, repeats, list_beq,
  Result, ok, err, value_error, key_error, scope_error, ◌>>=◌, ◌>>◌, raise_if, or_raise, string_eq,
  list_eq, opt_eq, is_stripped,
}
use crytpo_data.Domain.Types.{Market, market_value, market_of, market_eq}
use crytpo_data.Domain.Json.{
  Json, null, integral, text, array, object, items, Fields, get_field, field_names,
}
use crytpo_data.Domain.Envelope.{NativeEventDraft, is_none, is_internal, market_scoped_streams}

pub record StorageLogicalTarget : Type 0 where
  pub market : Option Market
  pub instrument_key : Option String
  pub logical_stream : String

-- `StorageLogicalTargetV1.validate_scope`
unfoldable pub validate_logical_target : StorageLogicalTarget → Result (Unit {0})
validate_logical_target t =
    if str_eq t.logical_stream "_control"
    then raise_if (not (is_none t.market) || not (is_none t.instrument_key)) value_error
    else raise_if (is_none t.market) value_error
      >> raise_if
          (if contains market_scoped_streams t.logical_stream
            then not (is_none t.instrument_key)
            else is_none t.instrument_key)
          value_error

pub record StorageControlRequest : Type 0 where
  pub control_event_id : String
  pub affected_markets : List Market
  pub target_logical_identities : List StorageLogicalTarget

abbrev pub or_empty : Option String → String
or_empty none = ""
or_empty (some s) = s

abbrev pub market_text : Option Market → String
market_text none = ""
market_text (some m) = market_value m

abbrev target_key : StorageLogicalTarget → List String
target_key t = market_text t.market ∷ or_empty t.instrument_key ∷ t.logical_stream ∷ []

-- A market that a target names is among those affected.
abbrev is_affected : List Market → StorageLogicalTarget → Bool
is_affected affected t = elim t.market [ none ↦ true | some m ↦ contains affected m ]

abbrev pub is_nil {ℓ} : {A : Type ℓ} → List A → Bool
is_nil [] = true
is_nil (_ ∷ _) = false

-- `StorageControlRequestV1.validate_request`. Its last rule, that named markets require affected
-- ones, follows from the one before.
unfoldable pub validate_request : StorageControlRequest → Result (Unit {0})
validate_request r = do
  raise_if (is_nil r.target_logical_identities) value_error
  let markets = map market_value r.affected_markets
  raise_if (not (list_beq markets (sort_by str_leb markets)) || repeats markets) value_error
  let keys = map target_key r.target_logical_identities
  raise_if (not (list_beq keys (sort_by texts_leb keys)) || repeats keys) value_error
  raise_if (any (λ t. not (is_affected r.affected_markets t)) r.target_logical_identities)
      value_error

-- The types of the fields: a text that is not empty, and one that may be null.
abbrev nonempty_text : Json → Result String
nonempty_text (text s) = raise_if (str_eq s "") value_error >> ok s
nonempty_text _ = err value_error

abbrev optional_text : Json → Result (Option String)
optional_text null = ok none
optional_text j = nonempty_text j >>= λ s. ok (some s)

abbrev parse_market : Json → Result Market
parse_market (text s) = or_raise (market_of s) value_error
parse_market _ = err value_error

abbrev optional_market : Json → Result (Option Market)
optional_market null = ok none
optional_market j = parse_market j >>= λ m. ok (some m)

abbrev each {ℓ} : {A : Type ℓ} → (Json → Result A) → List Json → Result (List A)
each parse [] = ok []
each parse (j ∷ js) = parse j >>= λ a. (each parse js >>= λ as'. ok (a ∷ as'))

-- A field that the set of names has.
abbrev required : String → Fields → Result Json
required key fs = or_raise (get_field key fs) key_error

unfoldable pub parse_target : Json → Result StorageLogicalTarget
unfolding validate_logical_target
parse_target (object fs) = do
  raise_if
      (not (same_members (field_names fs) ("market" ∷ "instrument_key" ∷ "logical_stream" ∷ [])))
      value_error
  market ← required "market" fs >>= optional_market
  instrument ← required "instrument_key" fs >>= optional_text
  stream ← required "logical_stream" fs >>= nonempty_text
  let target : StorageLogicalTarget = record {
    market = market;
    instrument_key = instrument;
    logical_stream = stream;
  }
  validate_logical_target target
  ok target
parse_target _ = err value_error

abbrev is_version_one : Json → Bool
is_version_one (integral false n) = n == 1
is_version_one _ = false

abbrev array_items : Json → Result (List Json)
array_items (array js) = ok (items js)
array_items _ = err value_error

unfoldable pub parse_request : Fields → Result StorageControlRequest
unfolding parse_target validate_request
parse_request fs = do
  raise_if
      (not (
        same_members (field_names fs) (
          "schema_version" ∷ "control_event_id" ∷ "affected_markets" ∷ "target_logical_identities"
          ∷ [])))
      value_error
  affected_raw ← required "affected_markets" fs >>= array_items
  targets_raw ← required "target_logical_identities" fs >>= array_items
  affected ← each parse_market affected_raw
  targets ← each parse_target targets_raw
  version ← required "schema_version" fs
  raise_if (not (is_version_one version)) value_error
  event_id ← required "control_event_id" fs >>= nonempty_text
  let request : StorageControlRequest = record {
    control_event_id = event_id;
    affected_markets = affected;
    target_logical_identities = targets;
  }
  validate_request request
  ok request

-- `_parse_control_request`: whatever is wrong is a StorageScopeError.
abbrev as_scope_error {ℓ} : {A : Type ℓ} → Result A → Result A
as_scope_error (err _) = err scope_error
as_scope_error (ok a) = ok a

unfoldable pub parse_control_request : Json → Result StorageControlRequest
unfolding parse_request
parse_control_request (object fs) = as_scope_error (parse_request fs)
parse_control_request _ = err scope_error

-- `ValidatedControlDraft`, without the draft
pub record ValidatedControlDraft : Type 0 where
  pub control_kind : String
  pub association_request : Option StorageControlRequest

-- The kind that a control payload names.
abbrev control_kind_of : Option Json → Result String
control_kind_of (some (text kind)) =
    raise_if (str_eq kind "" || not (is_stripped kind)) scope_error >> ok kind
control_kind_of _ = err scope_error

abbrev optional_request : Option Json → Result (Option StorageControlRequest)
unfolding parse_control_request
optional_request none = ok none
optional_request (some j) = parse_control_request j >>= λ r. ok (some r)

abbrev object_fields : Json → Result Fields
object_fields (object fs) = ok fs
object_fields _ = err scope_error

-- `validate_control_draft`
unfoldable pub validate_control_draft : NativeEventDraft → Result ValidatedControlDraft
unfolding parse_control_request
validate_control_draft d = do
  raise_if (not (str_eq d.logical_stream "_control")) scope_error
  raise_if
      (not (is_none d.market)
        || (not (is_none d.instrument_key)
            || (not (is_none d.wire_symbol)
                || (not (is_none d.native_channel) || not (is_internal d.transport)))))
      scope_error
  fs ← object_fields d.payload
  kind ← control_kind_of (get_field "kind" fs)
  request ← optional_request (get_field "storage_association" fs)
  ok (record { control_kind = kind; association_request = request })

-- `StorageControlTargetV1`
pub record StorageControlTarget : Type 0 where
  pub generation_id : String
  pub data_relative_path : String

-- `StorageControlAssociationV1`
pub record StorageControlAssociation : Type 0 where
  pub control_kind : String
  pub control_event_id : String
  pub targets : List StorageControlTarget
  pub acceptance_ordinal : ℕ
  pub config_generation : ℕ

-- `StorageControlAssociationV1.validate_targets`
unfoldable pub validate_targets : List StorageControlTarget → Result (Unit {0})
validate_targets targets = do
  raise_if (is_nil targets) value_error
  let keys = map (λ t. t.generation_id ∷ t.data_relative_path ∷ []) targets
  raise_if (not (list_beq keys (sort_by texts_leb keys))) value_error
  raise_if
      (repeats (map (λ t. t.generation_id) targets)
        || repeats (map (λ t. t.data_relative_path) targets))
      value_error
