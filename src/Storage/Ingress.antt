-- ===== src/Storage/Ingress.antt =====
-- `RawIngress` of storage/ingress.py: the queues of accepted records, one for each shard, and what is
-- counted beside them. The budget is part of the state, though the code shares it with the writer;
-- what the writer does to it between calls is a step of its own. The readings of the clock, the
-- encoders and the resolver are given from outside.
pub mod Accept
pub mod Drain
pub mod Replace
pub mod Outcome
pub mod Views
pub mod Sound
pub mod Order
use crytpo_data.Shared.{
  ℕ, ◌+◌, ◌-◌, ◌*◌, ◌/◌, Bool, true, false, ◌&&◌, ◌||◌, not, Option, none, some, List, [], ◌∷◌,
  String, str_eq, leb, ◌==◌, if◌then◌else◌, length, map, filter_by, sort_by, str_leb, texts_leb,
  is_stripped, Result, ok, err, value_error, ◌>>=◌, ◌>>◌, raise_if, Dict, lookup, Eq, nat_eq,
  string_eq, pair_eq, opt_eq,
}
use Prim.Native.Char.{code}
use crytpo_data.Shared.Decimal.{Decimal, den}
use crytpo_data.Domain.Types.{Market, market_eq, market_value}
use crytpo_data.Domain.Envelope.{NativeEventDraft, RawEnvelope}
use crytpo_data.Storage.Resident.{
  ResidentBudget, ChargeKey, integer, matches_config, resident_bytes, ResidentBudgetSnapshot,
  snapshot,
}
use crytpo_data.Storage.Control.{StorageControlAssociation, or_empty, market_text}
use crytpo_data.Storage.Record.{AcceptedRecordIdentity, EnqueueResult, IdentityKey}
use crytpo_data.Storage.Association.{Resolver}

-- The fields of `IngressConfig` that the ingress reads.
pub record IngressConfig : Type 0 where
  pub shard_max_records : ℕ
  pub shard_max_bytes : ℕ
  pub worker_max_bytes : ℕ
  pub control_reserve_bytes : ℕ
  pub high_water_ratio : Decimal

-- What third parties write: `dumps` is `orjson.dumps`, which may refuse an envelope; `encode_json` is
-- what pydantic and simplejson then make of it, or raise; `association_bytes` are the canonical
-- bytes of an association.
pub record Outside : Type 0 where
  pub dumps : RawEnvelope → Option (List ℕ)
  pub encode_json : RawEnvelope → Result (List ℕ)
  pub association_bytes : StorageControlAssociation → List ℕ
  pub resolver : Option Resolver

abbrev pub SequenceKey : Type 0
SequenceKey = Option Market × (Option String × String)

instance abbrev pub sequence_key_eq : Eq SequenceKey
sequence_key_eq = pair_eq ⦃e = opt_eq⦄ ⦃f = pair_eq ⦃e = opt_eq⦄ ⦃f = string_eq⦄⦄

pub record RawIngress : Type 0 where
  pub config : IngressConfig
  pub worker_instance_id : String
  pub config_sha256 : String
  pub config_generation : ℕ
  pub resident_budget : ResidentBudget
  pub queues : Dict String (List EnqueueResult)
  pub queued_bytes : Dict String ℕ
  pub next_sequences : Dict SequenceKey ℕ
  pub shard_by_sequence_key : Dict SequenceKey String
  pub next_acceptance_ordinal : ℕ
  pub pending_control_associations : Dict IdentityKey StorageControlAssociation
  pub accepted_count : ℕ
  pub enqueue_high_water_count : ℕ
  pub normal_overflow_count : ℕ
  pub control_overflow_count : ℕ
  pub superseded : Bool
  pub high_water_bytes : ℕ

-- `_nonempty`
abbrev pub nonempty : String → Result String
nonempty s = raise_if (str_eq s "" || not (is_stripped s)) value_error >> ok s

abbrev is_hex : ℕ → Bool
is_hex c = leb b'0' c && leb c b'9' || leb b'a' c && leb c b'f'

abbrev all_hex : String → Bool
all_hex String.[] = true
all_hex (String.◌∷◌ c s) = is_hex (code c) && all_hex s

abbrev characters : String → ℕ
characters String.[] = 0
characters (String.◌∷◌ _ s) = 1 + characters s

-- `_sha256`
unfoldable pub checked_sha256 : String → Result String
checked_sha256 s = raise_if (not (characters s == 64) || not (all_hex s)) value_error >> ok s

-- The bytes from which an accepted record is marked: the product rounded up. The decimal context of
-- the code holds the product exactly up to 28 digits.
abbrev high_water : IngressConfig → ℕ
high_water config =
    let ratio = config.high_water_ratio in
    (config.worker_max_bytes * ratio.coeff + (den ratio - 1)) / den ratio

abbrev pub fresh_ingress :
    IngressConfig
    → (worker_instance_id config_sha256 : String) → (config_generation : ℕ) → ResidentBudget
    → RawIngress
fresh_ingress config worker sha256 generation budget = record {
  config = config;
  worker_instance_id = worker;
  config_sha256 = sha256;
  config_generation = generation;
  resident_budget = budget;
  queues = [];
  queued_bytes = [];
  next_sequences = [];
  shard_by_sequence_key = [];
  next_acceptance_ordinal = 0;
  pending_control_associations = [];
  accepted_count = 0;
  enqueue_high_water_count = 0;
  normal_overflow_count = 0;
  control_overflow_count = 0;
  superseded = false;
  high_water_bytes = high_water config;
}

-- `RawIngress.__init__`
unfoldable pub new_ingress :
    IngressConfig
    → (worker_instance_id config_sha256 : String) → (config_generation : ℕ) → ResidentBudget
    → Result RawIngress
unfolding matches_config checked_sha256 integer
new_ingress config worker_instance_id config_sha256 config_generation budget = do
  raise_if (not (matches_config config.worker_max_bytes config.control_reserve_bytes budget))
      value_error
  worker ← nonempty worker_instance_id
  sha256 ← checked_sha256 config_sha256
  generation ← integer config_generation
  ok (fresh_ingress config worker sha256 generation budget)

-- `queues.get(shard)`, where a queue that is not there is empty, and `queued_bytes.get(shard, 0)`
abbrev pub or_no_queue : Option (List EnqueueResult) → List EnqueueResult
or_no_queue none = []
or_no_queue (some q) = q

abbrev pub queue_of : String → RawIngress → List EnqueueResult
queue_of shard i = or_no_queue (lookup shard i.queues)

abbrev pub or_no_bytes : Option ℕ → ℕ
or_no_bytes none = 0
or_no_bytes (some n) = n

abbrev pub bytes_of : String → RawIngress → ℕ
bytes_of shard i = or_no_bytes (lookup shard i.queued_bytes)

abbrev pub sequence_key : NativeEventDraft → SequenceKey
sequence_key d = (d.market, (d.instrument_key, d.logical_stream))

-- `_charge_key`
abbrev pub charge_key : AcceptedRecordIdentity → ChargeKey
charge_key a = (a.worker_instance_id, a.acceptance_ordinal)

abbrev pub first_of : List EnqueueResult → Option EnqueueResult
first_of [] = none
first_of (r ∷ _) = some r

-- `peek_one`, `queued_records` and `queued_bytes`
unfoldable pub peek_one : (shard : String) → RawIngress → Result (Option EnqueueResult)
peek_one shard i = nonempty shard >>= λ s. ok (first_of (queue_of s i))

unfoldable pub queued_records : (shard : String) → RawIngress → Result ℕ
queued_records shard i = nonempty shard >>= λ s. ok (length (queue_of s i))

unfoldable pub queued_bytes_in : (shard : String) → RawIngress → Result ℕ
queued_bytes_in shard i = nonempty shard >>= λ s. ok (bytes_of s i)

unfoldable pub acceptance_ordinal_high_water : RawIngress → Option ℕ
acceptance_ordinal_high_water i =
    if i.next_acceptance_ordinal == 0 then none else some (i.next_acceptance_ordinal - 1)

abbrev pub is_empty_queue : List EnqueueResult → Bool
is_empty_queue [] = true
is_empty_queue (_ ∷ _) = false

unfoldable pub nonempty_shards : RawIngress → List String
nonempty_shards i =
    sort_by str_leb (map (λ (s, _). s) (filter_by (λ (_, q). not (is_empty_queue q)) i.queues))

-- `RawIngressSnapshot`
pub record RawIngressSnapshot : Type 0 where
  pub accepting : Bool
  pub accepted_count : ℕ
  pub acceptance_ordinal_next : ℕ
  pub pending_control_association_count : ℕ
  pub enqueue_high_water_count : ℕ
  pub normal_overflow_count : ℕ
  pub control_overflow_count : ℕ
  pub queues : List (String × ℕ × ℕ)
  pub next_sequences : List (List String × ℕ)
  pub resident_budget : ResidentBudgetSnapshot

-- `snapshot_for_test`, whose rows differ in the texts that they are sorted by
unfoldable pub snapshot_for_test : RawIngress → RawIngressSnapshot
unfolding snapshot
snapshot_for_test i = record {
  accepting = not i.superseded;
  accepted_count = i.accepted_count;
  acceptance_ordinal_next = i.next_acceptance_ordinal;
  pending_control_association_count = length i.pending_control_associations;
  enqueue_high_water_count = i.enqueue_high_water_count;
  normal_overflow_count = i.normal_overflow_count;
  control_overflow_count = i.control_overflow_count;
  queues =
      sort_by (λ (s, _, _). λ (t, _, _). str_leb s t)
        (map (λ (s, q). (s, length q, bytes_of s i)) i.queues);
  next_sequences =
      sort_by (λ (k, _). λ (l, _). texts_leb k l)
        (map
          (λ ((market, (instrument, stream)), n).
            (market_text market ∷ or_empty instrument ∷ stream ∷ [], n))
          i.next_sequences);
  resident_budget = snapshot i.resident_budget;
}
