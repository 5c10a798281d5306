-- ===== src/Selection/Capacity/Egress.antt =====
-- `calculate_egress_capacity` of selection/capacity.py. A set of egress ids is a list without repeats.
use crytpo_data.Shared.{
  ℕ, ◌*◌, ◌/◌, ◌≤◌, true, false, not, List, [], ◌∷◌, String, ◌≡◌, refl, ◌∙◌, str_eq, str_leb,
  if◌then◌else◌, map, any, sum_by, sort_by, repeats, contains, find_first, Result, ok, value_error,
  key_error, type_error, or_raise, raise_if, ◌>>=◌, ◌>>◌, string_eq, arith, any-sort_by, Bool-cases,
  inl, inr, some, sym,
}
use native.Mathlib.Nat.{mul-le-mul_left, div-mul-le_self, mul_assoc}
use crytpo_data.Network.Egress.{Egress}
use crytpo_data.Selection.Capacity.{bounded_integer}

pub record EgressCapacity : Type 0 where
  pub exchange : String
  pub healthy_egress_ids : List String
  pub quota_groups : List String
  pub ws_connections : ℕ
  pub ws_subscription_slots : ℕ
  pub instrument_slots : ℕ
  pub http_concurrency : ℕ
  pub subscriptions_per_connection : ℕ
  pub subscriptions_per_instrument : ℕ

abbrev pub ids : List Egress → List String
ids es = map (λ (e : Egress). e.id) es

-- `tuple(by_id[item] for item in ...)`
abbrev pub pick : List Egress → List String → Result (List Egress)
pick egresses [] = ok []
pick egresses (id ∷ rest) =
    or_raise (find_first (λ (e : Egress). str_eq id e.id) egresses) key_error >>= λ e.
    (pick egresses rest >>= λ es. ok (e ∷ es))

-- The members of a list, each once.
abbrev pub unique_texts : List String → List String
unique_texts [] = []
unique_texts (x ∷ xs) = let rest = unique_texts xs in if contains xs x then rest else x ∷ rest

abbrev pub egress_capacity :
    (exchange : String)
    → (per_connection per_instrument : ℕ) → (healthy : List Egress) → EgressCapacity
egress_capacity exchange per_connection per_instrument healthy = record {
  exchange = exchange;
  healthy_egress_ids = ids healthy;
  quota_groups = sort_by str_leb (unique_texts (map (λ (e : Egress). e.quota_group) healthy));
  ws_connections = sum_by (λ (e : Egress). e.max_ws_connections) healthy;
  ws_subscription_slots = sum_by (λ (e : Egress). e.max_ws_connections) healthy * per_connection;
  instrument_slots =
      sum_by (λ (e : Egress). e.max_ws_connections * (per_connection / per_instrument)) healthy;
  http_concurrency = sum_by (λ (e : Egress). e.max_http_concurrency) healthy;
  subscriptions_per_connection = per_connection;
  subscriptions_per_instrument = per_instrument;
}

unfoldable pub calculate_egress_capacity :
    (exchange : String) (egresses : List Egress) (reachable_egress_ids : List String)
    (subscriptions_per_connection subscriptions_per_instrument : ℕ)
    → Result EgressCapacity
calculate_egress_capacity exchange egresses reachable per_connection per_instrument = do
  raise_if (str_eq exchange "") value_error
  raise_if (any (λ id. str_eq id "") reachable) type_error
  bounded_integer 1 per_connection
  bounded_integer 1 per_instrument
  raise_if (repeats (ids egresses)) value_error
  raise_if (any (λ id. not (contains (ids egresses) id)) reachable) value_error
  healthy ← pick egresses (sort_by str_leb reachable)
  ok (egress_capacity exchange per_connection per_instrument healthy)

-- An id among those of some egresses is the id of the first one found.
find-ids :
    (id : String) (egresses : List Egress)
    → contains (ids egresses) id ≡ true
    → (e : Egress) × (find_first (λ (e : Egress). str_eq id e.id) egresses ≡ some e) × (e.id ≡ id)
find-ids id [] h = ground arith
find-ids id (e ∷ es) h = elim (Bool-cases (str_eq id e.id)) [
  | inl same ↦ (e, simp same, sym ((string_eq.beq_iff id e.id).0 same))
  | inr other ↦
      let (found, first, named) = find-ids id es (ground arith) in
      (found, simp (other, first), named)
]

pick-ids :
    (egresses : List Egress) (wanted : List String)
    → any (λ id. not (contains (ids egresses) id)) wanted ≡ false
    → (es : List Egress) × (pick egresses wanted ≡ ok es) × (ids es ≡ wanted)
pick-ids egresses [] h = ([], refl, refl)
pick-ids egresses (id ∷ rest) h =
    let (e, first, named) = find-ids id egresses (ground arith) in
    let (es, picked, all) = pick-ids egresses rest (ground arith) in
    (e ∷ es, simp (first, picked), ground (arith, named, all))

slots-fit :
    (per_connection per_instrument : ℕ) (es : List Egress)
    → sum_by (λ (e : Egress). e.max_ws_connections * (per_connection / per_instrument)) es
        * per_instrument
      ≤ sum_by (λ (e : Egress). e.max_ws_connections) es * per_connection
slots-fit per_connection per_instrument [] = omega arith
slots-fit per_connection per_instrument (e ∷ es) =
    let each =
      mul-le-mul_left e.max_ws_connections (div-mul-le_self per_connection per_instrument) in
    let rest = slots-fit per_connection per_instrument es in
    omega (arith, mul_assoc e.max_ws_connections (per_connection / per_instrument) per_instrument)

-- With an exchange, ids of egresses and of reachable ones and counts that pass the checks, there is a
-- capacity: its egresses are the reachable ones in the order of their ids, and as many instruments as
-- it has slots take no more subscriptions than its connections have.
pub calculate_egress_capacity-fits :
    (exchange : String) (egresses : List Egress) (reachable : List String)
    (per_connection per_instrument : ℕ)
    → str_eq exchange "" ≡ false
    → any (λ id. str_eq id "") reachable ≡ false
    → bounded_integer 1 per_connection ≡ ok tt
    → bounded_integer 1 per_instrument ≡ ok tt
    → repeats (ids egresses) ≡ false
    → any (λ id. not (contains (ids egresses) id)) reachable ≡ false
    → (c : EgressCapacity) × (calculate_egress_capacity exchange egresses reachable per_connection
          per_instrument
        ≡ ok c)
      × (c.healthy_egress_ids ≡ sort_by str_leb reachable)
      × (c.instrument_slots * c.subscriptions_per_instrument ≤ c.ws_subscription_slots)
unfolding calculate_egress_capacity
calculate_egress_capacity-fits exchange egresses reachable per_connection per_instrument some_text
      named connections instruments unique known =
    let (es, picked, all) =
      pick-ids egresses (sort_by str_leb reachable)
        (any-sort_by str_leb (λ id. not (contains (ids egresses) id)) reachable ∙ known) in
    (
      egress_capacity exchange per_connection per_instrument es,
      simp (some_text, named, connections, instruments, unique, known, picked),
      all,
      slots-fit per_connection per_instrument es,
    )
