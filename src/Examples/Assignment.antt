-- ===== src/Examples/Assignment.antt =====
-- The assignment of instruments at concrete inputs.
use Prim.Native.String.{len}
use crytpo_data.Shared.{
  ℕ, ◌≤◌, ◌≡◌, refl, some, List, [], ◌∷◌, String, ok, err, lookup, string_eq, All, Bool, count,
  no_egress, arith,
}
use crytpo_data.Network.Egress.{Egress}
use crytpo_data.Network.Health.{HealthSnapshot, is_available}
use crytpo_data.Network.Assignment.{
  AssignmentKey, parse, validate_fixed, from_parts, StickyAssignment, validated_egresses, Cohort,
  capacity_of, assign_instruments,
}
use crytpo_data.Network.Assignment.Keys.{parse-canonical}
use crytpo_data.Network.Assignment.Pack.{EgressShard, pack_egress_shards}
use crytpo_data.Network.Assignment.Pack.Shards.{held, IsFilled, pack_egress_shards-holds}
use crytpo_data.Network.Assignment.Fits.{uses, AreFor, assign_instruments-fits}

abbrev some_key : AssignmentKey
some_key = record {
  exchange = "okx";
  market = "spot";
  instrument_key = "BTC/USDT";
  channel = "trade";
}

made-key : from_parts "okx" "spot" "BTC/USDT" "trade" ≡ ok some_key
unfolding from_parts
made-key = refl

parse-canonical_example : parse "okx/spot/BTC/USDT/trade" ≡ ok some_key
parse-canonical_example = parse-canonical "okx" "spot" "BTC/USDT" "trade" some_key made-key

abbrev egress_a : Egress
egress_a = record {
  id = "a";
  quota_group = "group";
  max_ws_connections = 1;
  max_http_concurrency = 1;
}

abbrev egress_b : Egress
egress_b = record {
  id = "b";
  quota_group = "group";
  max_ws_connections = 1;
  max_http_concurrency = 1;
}

abbrev cohort : Cohort
cohort = record { exchange = "okx"; market = "spot"; channel = "trade"; generation = 0 }

abbrev all_healthy : HealthSnapshot
all_healthy = record { unavailable = []; probe_eligible = [] }

abbrev instruments : List String
instruments = "BTC/USDT" ∷ "ETH/USDT" ∷ []

abbrev egresses : List Egress
egresses = egress_b ∷ egress_a ∷ []

cohort-valid : validate_fixed "okx" "spot" "trade" ≡ ok tt
unfolding validate_fixed
cohort-valid = refl

egresses-sorted : validated_egresses egresses ≡ ok (egress_a ∷ egress_b ∷ [])
unfolding validated_egresses
egresses-sorted = refl

-- One subscription for each of two connections: the two instruments fit, and a third does not.
assign_instruments-fits_example :
    (list : List StickyAssignment) × (assign_instruments len cohort instruments egresses 1
        all_healthy
      ≡ ok list)
    × AreFor cohort egresses all_healthy instruments list
    × ((id : String) (c : ℕ)
        → lookup id (capacity_of "okx" 1 all_healthy (egress_a ∷ egress_b ∷ [])) ≡ some c
        → uses id list ≤ c)
unfolding is_available
assign_instruments-fits_example =
    assign_instruments-fits len cohort instruments egresses (egress_a ∷ egress_b ∷ []) 1 all_healthy
      cohort-valid (omega arith) refl refl egresses-sorted refl (omega arith)

third-refused :
    assign_instruments len cohort ("SOL/USDT" ∷ instruments) egresses 1 all_healthy ≡ err no_egress
unfolding assign_instruments is_available
third-refused = refl

abbrev bitcoin : StickyAssignment
bitcoin = record {
  key = "okx/spot/BTC/USDT/trade";
  exchange = "okx";
  market = "spot";
  instrument_key = "BTC/USDT";
  channel = "trade";
  egress_id = "a";
  quota_group = "group";
  generation = 0;
}

abbrev ether : StickyAssignment
ether = record bitcoin {
  key = "okx/spot/ETH/USDT/trade";
  instrument_key = "ETH/USDT";
  egress_id = "b";
}

abbrev two_shards : List EgressShard
two_shards =
    record { egress_id = "a"; index = 0; assignments = bitcoin ∷ [] }
    ∷ record { egress_id = "b"; index = 0; assignments = ether ∷ [] }
    ∷ []

two-packed : pack_egress_shards (ether ∷ bitcoin ∷ []) egresses 3 ≡ ok two_shards
unfolding pack_egress_shards
two-packed = refl

pack_egress_shards-holds_example :
    All (IsFilled 3) two_shards
    × ((p : StickyAssignment → Bool) → count p (held two_shards) ≡ count p (ether ∷ bitcoin ∷ []))
pack_egress_shards-holds_example =
    pack_egress_shards-holds (ether ∷ bitcoin ∷ []) egresses 3 two_shards two-packed

abbrev three_instruments : List String
three_instruments = "BTC/USDT" ∷ "ETH/USDT" ∷ "SOL/USDT" ∷ []
