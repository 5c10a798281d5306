-- ===== src/Network/Assignment.antt =====
-- network/assignment.py: which egress an instrument uses, and the shards of an egress. `digest` is the
-- number that SHA-256 makes of a text; the set of the code's `used` counters is a dictionary.
pub mod Keys
pub mod Room
pub mod Ranking
pub mod Fits
pub mod Pack
use Prim.Native.Char.{nul}
use Prim.Native.String.{◌++◌}
use crytpo_data.Shared.{
  ℕ, suc, ◌+◌, ◌*◌, Bool, true, false, ◌&&◌, ◌||◌, not, Option, none, some, List, [], ◌∷◌, String,
  str_eq, str_leb, leb, ltb, ◌==◌, if◌then◌else◌, map, filter_by, any, length, sort_by, repeats,
  split_slashes, join_slashes, has_slash, Result, ok, err, value_error, key_error, no_egress, ◌>>=◌,
  ◌>>◌, raise_if, Dict, lookup, insert, Eq, string_eq,
}
use crytpo_data.Network.Egress.{Egress}
use crytpo_data.Network.Health.{HealthSnapshot, is_available}

-- `_AssignmentKey`
pub record AssignmentKey : Type 0 where
  pub exchange : String
  pub market : String
  pub instrument_key : String
  pub channel : String

-- All parts but the last, joined, and the last: `rsplit("/", 1)`, where there are two at least.
abbrev pub split_last : List String → Option (List String × String)
split_last [] = none
split_last (w ∷ []) = some ([], w)
split_last (w ∷ v ∷ vs) = elim (split_last (v ∷ vs)) [
  | none ↦ none
  | some (firsts, last) ↦ some (w ∷ firsts, last)
]

abbrev pub key_of :
    (exchange market : String) → Option (List String × String) → Result AssignmentKey
key_of exchange market none = err value_error
key_of exchange market (some ([], last)) = err value_error
key_of exchange market (some (w ∷ ws, last)) =
    let instrument = join_slashes (w ∷ ws) in
    raise_if (str_eq exchange "" || (str_eq market "" || (str_eq instrument "" || str_eq last "")))
      value_error
    >> ok (record {
      exchange = exchange;
      market = market;
      instrument_key = instrument;
      channel = last;
    })

abbrev pub parse_parts : List String → Result AssignmentKey
parse_parts (exchange ∷ market ∷ rest) = key_of exchange market (split_last rest)
parse_parts _ = err value_error

-- `_AssignmentKey.parse`
unfoldable pub parse : String → Result AssignmentKey
parse value = parse_parts (split_slashes value)

-- `_validate_fixed_key_components`
unfoldable pub validate_fixed : (exchange market channel : String) → Result (Unit {0})
validate_fixed exchange market channel =
    raise_if
      (str_eq exchange ""
        || (has_slash exchange
            || (str_eq market ""
                || (has_slash market || (str_eq channel "" || has_slash channel)))))
      value_error

-- `_AssignmentKey.from_parts` and `canonical`
unfoldable pub from_parts : (exchange market instrument_key channel : String) → Result AssignmentKey
unfolding validate_fixed
from_parts exchange market instrument_key channel = do
  validate_fixed exchange market channel
  raise_if (str_eq instrument_key "") value_error
  ok (record {
    exchange = exchange;
    market = market;
    instrument_key = instrument_key;
    channel = channel;
  })

abbrev pub canonical : AssignmentKey → String
canonical k = k.exchange ++ "/" ++ k.market ++ "/" ++ k.instrument_key ++ "/" ++ k.channel

pub record StickyAssignment : Type 0 where
  pub key : String
  pub exchange : String
  pub market : String
  pub instrument_key : String
  pub channel : String
  pub egress_id : String
  pub quota_group : String
  pub generation : ℕ

-- `StickyAssignment.__post_init__`
unfoldable pub check_assignment : StickyAssignment → Result (Unit {0})
unfolding parse
check_assignment a = do
  parsed ← parse a.key
  raise_if
      (not (
        str_eq parsed.exchange a.exchange
        && (str_eq parsed.market a.market
            && (str_eq parsed.instrument_key a.instrument_key && str_eq parsed.channel a.channel))))
      value_error
  raise_if (str_eq a.egress_id "" || str_eq a.quota_group "") value_error

abbrev pub assignment_of : AssignmentKey → Egress → ℕ → StickyAssignment
assignment_of k e generation = record {
  key = canonical k;
  exchange = k.exchange;
  market = k.market;
  instrument_key = k.instrument_key;
  channel = k.channel;
  egress_id = e.id;
  quota_group = e.quota_group;
  generation = generation;
}

-- `StickyAssignment.create`
unfoldable pub create : (key : String) → Egress → (generation : ℕ) → Result StickyAssignment
unfolding parse check_assignment
create key e generation = do
  parsed ← parse key
  check_assignment (assignment_of parsed e generation)
  ok (assignment_of parsed e generation)

abbrev pub no_egresses : List Egress → Bool
no_egresses [] = true
no_egresses (_ ∷ _) = false

-- `_validated_egresses`
unfoldable pub validated_egresses : List Egress → Result (List Egress)
validated_egresses egresses = do
  raise_if (no_egresses egresses) no_egress
  raise_if (repeats (map (λ (e : Egress). e.id) egresses)) value_error
  ok (sort_by (λ (a : Egress). λ (b : Egress). str_leb a.id b.id) egresses)

abbrev first_ranked : List Egress → Result Egress
first_ranked [] = err no_egress
first_ranked (e ∷ _) = ok e

abbrev pub used_of : Option ℕ → ℕ
used_of none = 0
used_of (some n) = n

-- The first egress of the ranking with room.
unfoldable pub select_egress : (used capacity : Dict String ℕ) → List Egress → Result Egress
select_egress used capacity [] = err no_egress
select_egress used capacity (e ∷ es) =
    let rest = select_egress used capacity es in
    elim (lookup e.id capacity) [
      | none ↦ err key_error
      | some c ↦ if ltb (used_of (lookup e.id used)) c then ok e else rest
    ]

-- What the assignment is for.
pub record Cohort : Type 0 where
  pub exchange : String
  pub market : String
  pub channel : String
  pub generation : ℕ

abbrev pub capacity_of :
    (exchange : String) → (per_connection : ℕ) → HealthSnapshot → List Egress → Dict String ℕ
unfolding is_available
capacity_of exchange per_connection health candidates =
    map (λ (e : Egress). (e.id, e.max_ws_connections * per_connection))
      (filter_by (λ (e : Egress). is_available exchange e.id health) candidates)

abbrev pub total_capacity : Dict String ℕ → ℕ
total_capacity [] = 0
total_capacity ((_, n) ∷ d) = n + total_capacity d

module _ (digest : String → ℕ) where
  -- `_score`
  abbrev pub score : (key egress_id : String) → ℕ
  score key egress_id = digest (key ++ (String.◌∷◌ nul egress_id))

  -- The order of the ranking: the higher score first, and then the later id.
  abbrev pub ranks_before : (key : String) → Egress → Egress → Bool
  ranks_before key a b =
      let x = score key a.id in let y = score key b.id in ltb y x || x == y && str_leb b.id a.id

  -- `_ranked_healthy_egresses`
  unfoldable pub ranked : AssignmentKey → List Egress → HealthSnapshot → Result (List Egress)
  unfolding validated_egresses is_available
  ranked k egresses health = validated_egresses egresses >>= λ candidates. ok (
      sort_by (ranks_before (canonical k))
        (filter_by (λ (e : Egress). is_available k.exchange e.id health) candidates))

  unfoldable pub choose_egress : (key : String) → List Egress → HealthSnapshot → Result Egress
  unfolding parse ranked
  choose_egress key egresses health = do
    parsed ← parse key
    order ← ranked parsed egresses health
    first_ranked order

  -- The loop of `assign_instruments`
  unfoldable pub assign_all :
      Cohort
      → (candidates : List Egress) → HealthSnapshot
      → (used capacity : Dict String ℕ) → (instruments : List String)
      → Result (List StickyAssignment)
  unfolding from_parts ranked select_egress create
  assign_all h candidates health used capacity [] = ok []
  assign_all h candidates health used capacity (instrument ∷ instruments) =
      from_parts h.exchange h.market instrument h.channel >>= λ key.
      (ranked key candidates health >>= λ order.
      (select_egress used capacity order >>= λ selected.
      (create (canonical key) selected h.generation >>= λ assignment.
      (assign_all h candidates health
          (insert selected.id (used_of (lookup selected.id used) + 1) used) capacity instruments
        >>= λ rest. ok (assignment ∷ rest)))))

  unfoldable pub assign_instruments :
      Cohort
      → (instruments : List String) → (egresses : List Egress) → (subscriptions_per_connection : ℕ)
      → HealthSnapshot
      → Result (List StickyAssignment)
  unfolding validate_fixed validated_egresses assign_all
  assign_instruments h instruments egresses per_connection health = do
    validate_fixed h.exchange h.market h.channel
    raise_if (per_connection == 0) value_error
    raise_if (any (λ i. str_eq i "") instruments) value_error
    raise_if (repeats instruments) value_error
    candidates ← validated_egresses egresses
    let capacity = capacity_of h.exchange per_connection health candidates
    raise_if (ltb (total_capacity capacity) (length instruments)) no_egress
    assign_all h candidates health [] capacity (sort_by str_leb instruments)
