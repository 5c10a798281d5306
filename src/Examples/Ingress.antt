-- ===== src/Examples/Ingress.antt =====
-- The raw ingress at concrete inputs.
use crytpo_data.Shared.{
  ◌≡◌, refl, none, some, [], ◌∷◌, ◌++◌, String, ok, err, contract_error, length,
}
use crytpo_data.Shared.Decimal.{den}
use crytpo_data.Domain.Types.{binance, spot, websocket}
use crytpo_data.Domain.Json.{null}
use crytpo_data.Domain.Envelope.{SourceContext, NativeEventDraft, validate_scope_and_transport}
use crytpo_data.Storage.Resident.{ResidentBudget, new_budget}
use crytpo_data.Storage.Ingress.{
  IngressConfig, Outside, RawIngress, new_ingress, queue_of, first_of, fresh_ingress,
}
use crytpo_data.Storage.Ingress.Accept.{try_accept}
use crytpo_data.Storage.Ingress.Drain.{drain_one}
use crytpo_data.Storage.Ingress.Order.{puts, gots, log}
use crytpo_data.Storage.Ingress.Order.Tried.{try_accept-err}
use crytpo_data.Storage.Ingress.Order.Fifo.{Reach-fifo}
use crytpo_data.Storage.Ingress.Order.Ordinals.{Counts, Reach-Counts}
use crytpo_data.Storage.Ingress.Sound.{IsSound}
use crytpo_data.Storage.Ingress.Sound.Calls.{
  Reach, accepting, draining, here, next, Reach-IsSound, drain_one-first,
}

abbrev config : IngressConfig
config = record {
  shard_max_records = 2;
  shard_max_bytes = 50;
  worker_max_bytes = 100;
  control_reserve_bytes = 20;
  high_water_ratio = record { coeff = 8; scale = 1 };
}

-- Three bytes and a newline for every envelope, and no associations.
abbrev outside : Outside
outside = record {
  dumps = λ e. some (1 ∷ 2 ∷ 3 ∷ []);
  encode_json = λ e. err contract_error;
  association_bytes = λ a. [];
  resolver = none;
}

abbrev trade : NativeEventDraft
trade = record {
  exchange = binance;
  market = some spot;
  instrument_key = some "BTC/USDT";
  wire_symbol = some "BTCUSDT";
  logical_stream = "trade";
  native_channel = some "trade";
  transport = websocket;
  event_time_ns = none;
  event_time_source = none;
  integrity_mode = none;
  coverage = none;
  rest_metadata = none;
  payload = null;
}

trade-valid : validate_scope_and_transport trade ≡ ok tt
unfolding validate_scope_and_transport
trade-valid = refl

abbrev socket : SourceContext
socket = record {
  connection_id = some "connection";
  connection_generation = some 1;
  egress_id = some "egress";
}

abbrev sha256 : String
sha256 = "0123456789abcdef0123456789abcdef0123456789abcdef0123456789abcdef"

abbrev budget : ResidentBudget
budget = record {
  worker_max_bytes = 100;
  control_reserve_bytes = 20;
  charges = [];
  normal_resident_records = 0;
  normal_resident_bytes = 0;
  control_resident_records = 0;
  control_resident_bytes = 0;
}

budget-made : new_budget 100 20 ≡ ok budget
unfolding new_budget
budget-made = refl

abbrev start : RawIngress
start = fresh_ingress config "worker" sha256 1 budget

start-made : new_ingress config "worker" sha256 1 budget ≡ ok start
unfolding new_ingress
start-made = refl

abbrev after_one : RawIngress
after_one = (try_accept outside trade socket "shard" 5 6 start).1

abbrev after_two : RawIngress
after_two = (try_accept outside trade socket "shard" 7 8 after_one).1

abbrev after_drain : RawIngress
after_drain = (drain_one "shard" after_two).1

abbrev calls : Reach start after_drain
calls =
    next
      (next (next here (accepting outside trade socket "shard" 5 6 start))
        (accepting outside trade socket "shard" 7 8 after_one))
      (draining "shard" after_two)

Reach-IsSound_example : IsSound after_drain
Reach-IsSound_example =
    Reach-IsSound 100 20 config "worker" sha256 1 budget budget-made start-made calls

start-IsSound : IsSound start
start-IsSound = Reach-IsSound 100 20 config "worker" sha256 1 budget budget-made start-made here

-- Two records are accepted, and one of them is left after the drain.
two-accepted : after_two.next_acceptance_ordinal ≡ 2
unfolding try_accept den
two-accepted = refl

one-left : length (queue_of "shard" after_drain) ≡ 1
unfolding try_accept drain_one den
one-left = refl

Reach-fifo_example :
    queue_of "shard" start ++ puts "shard" (log calls)
    ≡ gots "shard" (log calls) ++ queue_of "shard" after_drain
Reach-fifo_example = Reach-fifo "shard" start-IsSound calls

Reach-Counts_example :
    Counts start.next_acceptance_ordinal (log calls) after_drain.next_acceptance_ordinal
Reach-Counts_example = Reach-Counts start-IsSound calls

drain_one-first_example :
    (drain_one "shard" after_drain).0 ≡ ok (first_of (queue_of "shard" after_drain))
drain_one-first_example = drain_one-first "shard" "shard" after_drain refl Reach-IsSound_example

-- A record of the normal class may not use the control shard.
control-refused : (try_accept outside trade socket "_control" 5 6 after_one).0 ≡ err contract_error
unfolding try_accept den
control-refused = refl

try_accept-err_example : (try_accept outside trade socket "_control" 5 6 after_one).1 ≡ after_one
try_accept-err_example =
    try_accept-err outside trade socket "_control" 5 6 after_one contract_error control-refused
