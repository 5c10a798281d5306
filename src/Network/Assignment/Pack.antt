-- ===== src/Network/Assignment/Pack.antt =====
-- `pack_egress_shards` of network/assignment.py.
pub mod Chunks
pub mod Shards
use crytpo_data.Shared.{
  ℕ, zero, suc, ◌+◌, Bool, true, false, ◌&&◌, ◌||◌, not, Option, none, some, List, [], ◌∷◌, ◌++◌,
  String, str_eq, str_leb, ltb, ◌==◌, if◌then◌else◌, map, any, find_first, length, take, drop,
  sort_by, contains, Result, ok, err, value_error, no_egress, or_raise, ◌>>=◌, ◌>>◌, raise_if, Dict,
  lookup, insert, Eq, string_eq,
}
use crytpo_data.Network.Egress.{Egress}
use crytpo_data.Network.Assignment.{StickyAssignment, validated_egresses}

pub record EgressShard : Type 0 where
  pub egress_id : String
  pub index : ℕ
  pub assignments : List StickyAssignment

abbrev pub instrument_keys : EgressShard → List String
instrument_keys s = map (λ (a : StickyAssignment). a.instrument_key) s.assignments

-- The slices of a list from each multiple of a step, on fuel: a round takes one item at least.
abbrev pub chunks {ℓ} : {A : Type ℓ} → (fuel : ℕ) → (step : ℕ) → List A → List (List A)
chunks zero step xs = []
chunks (suc fuel) step [] = []
chunks (suc fuel) step (x ∷ xs) = take step (x ∷ xs) ∷ chunks fuel step (drop step (x ∷ xs))

abbrev same_cohort : StickyAssignment → StickyAssignment → Bool
same_cohort a b =
    str_eq a.exchange b.exchange
    && (str_eq a.market b.market && (str_eq a.channel b.channel && a.generation == b.generation))

-- The set of cohorts has one member at most.
abbrev pub one_cohort : List StickyAssignment → Bool
one_cohort [] = true
one_cohort (a ∷ as') = not (any (λ b. not (same_cohort a b)) as')

abbrev pub Groups : Type 0
Groups = Dict String (List StickyAssignment)

abbrev pub group_of : Option (List StickyAssignment) → List StickyAssignment
group_of none = []
group_of (some g) = g

-- `by_id[egress_id]`, where it is there
abbrev pub by_id : (id : String) → List Egress → Result Egress
by_id id candidates = or_raise (find_first (λ (e : Egress). str_eq id e.id) candidates) value_error

-- The loop over the assignments.
unfoldable pub group_all :
    (candidates : List Egress)
    → (seen : List String) → Groups
    → List StickyAssignment
    → Result Groups
group_all candidates seen grouped [] = ok grouped
group_all candidates seen grouped (a ∷ as') =
    raise_if (contains seen a.key) value_error
    >> (by_id a.egress_id candidates >>= λ e.
        (raise_if (not (str_eq a.quota_group e.quota_group)) value_error
          >> group_all candidates (a.key ∷ seen)
              (insert a.egress_id (group_of (lookup a.egress_id grouped) ++ a ∷ []) grouped) as'))

abbrev pub shards_from :
    (egress_id : String) → (index : ℕ) → List (List StickyAssignment) → List EgressShard
shards_from egress_id index [] = []
shards_from egress_id index (chunk ∷ rest) =
    record { egress_id = egress_id; index = index; assignments = chunk }
    ∷ shards_from egress_id (index + 1) rest

abbrev pub chunks_of : (per_connection : ℕ) → List StickyAssignment → List (List StickyAssignment)
chunks_of per_connection group =
    let items =
      sort_by (λ (a : StickyAssignment). λ (b : StickyAssignment). str_leb a.key b.key) group in
    chunks (length items) per_connection items

-- The loop over the groups.
unfoldable pub shards_of :
    (candidates : List Egress) → (per_connection : ℕ) → Groups → Result (List EgressShard)
shards_of candidates per_connection [] = ok []
shards_of candidates per_connection ((id, group) ∷ groups) = by_id id candidates >>= λ e.
    (raise_if (ltb e.max_ws_connections (length (chunks_of per_connection group))) no_egress
      >> (shards_of candidates per_connection groups >>= λ rest.
          ok (shards_from id 0 (chunks_of per_connection group) ++ rest)))

unfoldable pub pack_egress_shards :
    (assignments : List StickyAssignment)
    → (egresses : List Egress) → (subscriptions_per_connection : ℕ) → Result (List EgressShard)
unfolding validated_egresses group_all shards_of
pack_egress_shards assignments egresses per_connection = do
  raise_if (per_connection == 0) value_error
  candidates ← validated_egresses egresses
  raise_if (not (one_cohort assignments)) value_error
  grouped ← group_all candidates [] [] assignments
  shards_of candidates per_connection (sort_by (λ (i, _). λ (j, _). str_leb i j) grouped)
