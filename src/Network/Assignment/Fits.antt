-- ===== src/Network/Assignment/Fits.antt =====
-- `assign_instruments` of network/assignment.py succeeds whenever the demand fits.
use Prim.Native.String.{◌++◌}
use crytpo_data.Shared.{
  ℕ, ◌+◌, ◌*◌, ◌≤◌, ◌<◌, ◌≡◌, refl, sym, ap, ◌∙◌, subst, inl, inr, Bool, true, false, ◌||◌, ◌&&◌,
  some, List, [], ◌∷◌, String, str_eq, str_leb, ltb, ◌==◌, if◌then◌else◌, length, map, filter_by,
  any, any-filter_by, any-filter_by-false, sort_by, any-sort_by, length-sort_by, repeats, ok,
  value_error, raise_if, Dict, lookup, string_eq, arith, beq_refl, ok-injective, >>-eq-ok,
  Bool-cases,
}
use crytpo_data.Network.Egress.{Egress}
use crytpo_data.Network.Health.{HealthSnapshot, is_available}
use crytpo_data.Network.Assignment.{
  AssignmentKey, canonical, validate_fixed, from_parts, StickyAssignment, check_assignment,
  assignment_of, create, no_egresses, validated_egresses, Cohort, capacity_of, total_capacity,
  assign_all, assign_instruments,
}
use crytpo_data.Network.Assignment.Keys.{IsKey, validate_fixed-IsKey, IsKey-parse}
use crytpo_data.Network.Assignment.Room.{
  used_at, use_one, used-use_one, row, ids, spare, spare-use_one, distinct-Own, spare-any, Own-rows,
  select_egress-ok,
}
use crytpo_data.Network.Assignment.Ranking.{repeats-filter, validated-distinct, ranked-any}

-- An egress without a name or a quota group, which no configuration has.
abbrev pub is_unnamed : Egress → Bool
is_unnamed e = str_eq e.id "" || str_eq e.quota_group ""

create-ok :
    (k : AssignmentKey) (e : Egress) (generation : ℕ)
    → IsKey k
    → is_unnamed e ≡ false
    → create (canonical k) e generation ≡ ok (assignment_of k e generation)
unfolding create check_assignment
create-ok k e generation v named =
    simp (IsKey-parse k v, create, check_assignment)
      (rw (beq_refl k.exchange, beq_refl k.market, beq_refl k.instrument_key, beq_refl k.channel)
        (ground (arith, named)))

-- How often a list of assignments uses an egress.
abbrev pub uses : String → List StickyAssignment → ℕ
uses id [] = 0
uses id (a ∷ as') = (if str_eq id a.egress_id then 1 else 0) + uses id as'

-- An egress of a configuration that is available to an exchange, with the id and quota group of another.
abbrev pub is_available_as : (exchange : String) → HealthSnapshot → (e c : Egress) → Bool
is_available_as exchange health e c =
    str_eq e.id c.id && (str_eq e.quota_group c.quota_group && is_available exchange c.id health)

-- The assignment is for the instrument in the cohort, and to an available egress of the configuration.
abbrev pub IsFor : Cohort → List Egress → HealthSnapshot → String → StickyAssignment → Type 0
IsFor h egresses health instrument a =
    (e : Egress) × (any (is_available_as h.exchange health e) egresses ≡ true)
    × (a ≡ record {
      key = h.exchange ++ "/" ++ h.market ++ "/" ++ instrument ++ "/" ++ h.channel;
      exchange = h.exchange;
      market = h.market;
      instrument_key = instrument;
      channel = h.channel;
      egress_id = e.id;
      quota_group = e.quota_group;
      generation = h.generation;
    })

-- The assignments are for the instruments, one for each, in their order.
abbrev pub AreFor :
    Cohort → List Egress → HealthSnapshot → List String → List StickyAssignment → Type 0
AreFor h egresses health [] [] = Unit
AreFor h egresses health (i ∷ is) (a ∷ as') =
    IsFor h egresses health i a × AreFor h egresses health is as'
AreFor h egresses health _ _ = ⊥

and_rotate : (a b c : Bool) → (c && (a && b)) ≡ (a && (b && c))
and_rotate a b c = ground arith

any-same :
    (p q : Egress → Bool) (es : List Egress) → ((c : Egress) → p c ≡ q c) → any p es ≡ any q es
any-same p q [] same = refl
any-same p q (c ∷ es) same = rw (same c, any-same p q es same) refl

-- An egress that shares each test with one that is available is available itself.
chosen-available :
    (exchange : String) (health : HealthSnapshot) (e : Egress) (es : List Egress)
    → ((g : Egress → Bool)
        → any g (filter_by (λ (c : Egress). is_available exchange c.id health) es) ≡ false
        → g e ≡ false)
    → any (is_available_as exchange health e) es ≡ true
chosen-available exchange health e es others =
    let is_same : Egress → Bool =
      λ (c : Egress). str_eq e.id c.id && str_eq e.quota_group c.quota_group in
    let q : Egress → Bool = λ (c : Egress). is_available exchange c.id health in
    let moved =
      any-same (λ c. q c && is_same c) (is_available_as exchange health e) es
        (λ c. and_rotate (str_eq e.id c.id) (str_eq e.quota_group c.quota_group) (q c)) in
    elim (Bool-cases (any (is_available_as exchange health e) es)) [
      | inl found ↦ found
      | inr none_left ↦
          let different = others is_same (any-filter_by is_same q es ∙ (moved ∙ none_left)) in
          ground (arith, different, beq_refl e.id, beq_refl e.quota_group)
    ]

-- The egresses may stand in another order.
AreFor-order :
    (h : Cohort) (egresses candidates : List Egress) (health : HealthSnapshot)
    → ((p : Egress → Bool) → any p candidates ≡ any p egresses)
    → (instruments : List String) (list : List StickyAssignment)
    → AreFor h candidates health instruments list
    → AreFor h egresses health instruments list
AreFor-order h egresses candidates health same [] [] all = tt
AreFor-order h egresses candidates health same [] (a ∷ as') all = all
AreFor-order h egresses candidates health same (i ∷ is) [] all = all
AreFor-order h egresses candidates health same (i ∷ is) (a ∷ as') ((e, usable, made), rest) = (
  (e, sym (same (is_available_as h.exchange health e)) ∙ usable, made),
  AreFor-order h egresses candidates health same is as' rest,
)

module _ (digest : String → ℕ) (h : Cohort) (candidates : List Egress) (health : HealthSnapshot)
    (per_connection : ℕ) (fixed : validate_fixed h.exchange h.market h.channel ≡ ok tt)
    (some_left : no_egresses candidates ≡ false) (distinct : repeats (ids candidates) ≡ false)
    (named : any is_unnamed candidates ≡ false) where
  abbrev healthy_ones : List Egress
  healthy_ones = filter_by (λ (e : Egress). is_available h.exchange e.id health) candidates

  abbrev limit : Egress → ℕ
  limit e = e.max_ws_connections * per_connection

  abbrev capacity : Dict String ℕ
  capacity = capacity_of h.exchange per_connection health candidates

  -- The assignments are for the instruments, and with the uses before none is over its limit.
  abbrev Fitting : Dict String ℕ → List String → List StickyAssignment → Type 0
  Fitting used instruments list =
      AreFor h candidates health instruments list
      × ((id : String) (c : ℕ) → lookup id capacity ≡ some c → uses id list + used_at id used ≤ c)

  used-within :
      (sel : String) (used : Dict String ℕ) (n : ℕ)
      → ((id : String) (c : ℕ) → lookup id capacity ≡ some c → used_at id used ≤ c)
      → lookup sel capacity ≡ some n
      → used_at sel used < n
      → (id : String) (c : ℕ) → lookup id capacity ≡ some c
      → used_at id (use_one sel used) ≤ c
  used-within sel used n within has room id c found = elim (Bool-cases (str_eq id sel)) [
    | inl same ↦
        let e = (string_eq.beq_iff id sel).0 same in
        let limit_same : some n ≡ some c =
          sym has ∙ (ap (λ j. lookup j capacity) (sym e) ∙ found) in
        let n_is : n ≡ c = cc in
        let after = rw same at (used-use_one id sel used) in omega (arith, after, room, n_is)
    | inr other ↦
        let after = rw other at (used-use_one id sel used) in
        omega (arith, after, within id c found)
  ]

  assign_all-fits :
      (used : Dict String ℕ) (instruments : List String)
      → any (λ i. str_eq i "") instruments ≡ false
      → length instruments ≤ spare limit used healthy_ones
      → ((id : String) (c : ℕ) → lookup id capacity ≡ some c → used_at id used ≤ c)
      → (list : List StickyAssignment) × (assign_all digest h candidates health used capacity
            instruments
          ≡ ok list)
        × Fitting used instruments list
  unfolding assign_all from_parts
  assign_all-fits used [] named_all demand within =
      ([], refl, (tt, λ id c found. omega (arith, within id c found)))
  assign_all-fits used (i ∷ is) named_all demand within =
      let key : AssignmentKey = record {
        exchange = h.exchange;
        market = h.market;
        instrument_key = i;
        channel = h.channel;
      } in
      let is_named : str_eq i "" ≡ false = ground arith in
      let valid = validate_fixed-IsKey key fixed is_named in
      let (order, is_ranked, members) =
        ranked-any digest key candidates health some_left distinct in
      let own = distinct-Own limit healthy_ones (repeats-filter _ candidates distinct) in
      let free = spare-any limit capacity used healthy_ones own (omega (arith, demand)) in
      let rows = Own-rows limit capacity healthy_ones own in
      let (e, c, chosen, found, room, others) =
        select_egress-ok used capacity order (members _ ∙ rows) (members _ ∙ free) in
      let e_named : is_unnamed e ≡ false =
        others is_unnamed
          (members is_unnamed ∙ any-filter_by-false is_unnamed _ candidates named) in
      let less =
        spare-use_one limit e.id used c healthy_ones (repeats-filter _ candidates distinct) found
          room in
      let usable =
        chosen-available h.exchange health e candidates
          (λ g none_left. others g (members g ∙ none_left)) in
      let (list, made, (all, limits)) =
        assign_all-fits (use_one e.id used) is (ground (arith, named_all))
          (omega (arith, demand, less)) (used-within e.id used c within found room) in
      (
        assignment_of key e h.generation ∷ list,
        simp (
          fixed,
          is_named,
          is_ranked,
          chosen,
          create-ok key e h.generation valid e_named,
          made,
          assign_all,
          from_parts,
        ),
        (
          ((e, usable, refl), all),
          λ id c found.
              ground
                (arith, limits id c found, used-use_one id e.id used, string_eq.beq_iff id e.id),
        ),
      )

spare-unused : (f : Egress → ℕ) (es : List Egress) → spare f [] es ≡ total_capacity (map (row f) es)
spare-unused f [] = refl
spare-unused f (e ∷ es) = omega (arith, spare-unused f es)

validated-any :
    (p : Egress → Bool) (egresses candidates : List Egress)
    → validated_egresses egresses ≡ ok candidates
    → any p candidates ≡ any p egresses
unfolding validated_egresses
validated-any p [] candidates h = cc
validated-any p (e ∷ es) candidates h =
    let leb_by : Egress → Egress → Bool = λ (a : Egress). λ (b : Egress). str_leb a.id b.id in
    let (_, made) = >>-eq-ok (raise_if (repeats (ids (e ∷ es))) value_error) _ h in
    subst (λ cs. any p cs ≡ any p (e ∷ es)) (ok-injective made) (any-sort_by leb_by p (e ∷ es))

-- With components, instruments and egresses that pass the checks, and egresses with names and quota
-- groups, instruments no more than the healthy egresses have capacity for are all assigned: the loop
-- never finds all egresses full, the assignments are for the instruments in the order of their texts,
-- one for each, each with the key and the fields of its instrument and to an available egress of those
-- given, and no egress has more than its connections times the subscriptions of a connection.
pub assign_instruments-fits :
    (digest : String → ℕ) (h : Cohort) (instruments : List String)
    (egresses candidates : List Egress) (per_connection : ℕ) (health : HealthSnapshot)
    → validate_fixed h.exchange h.market h.channel ≡ ok tt
    → 0 < per_connection
    → any (λ i. str_eq i "") instruments ≡ false
    → repeats instruments ≡ false
    → validated_egresses egresses ≡ ok candidates
    → any is_unnamed egresses ≡ false
    → length instruments ≤ total_capacity (capacity_of h.exchange per_connection health candidates)
    → (list : List StickyAssignment) × (assign_instruments digest h instruments egresses
          per_connection health
        ≡ ok list)
      × AreFor h egresses health (sort_by str_leb instruments) list
      × ((id : String) (c : ℕ)
          → lookup id (capacity_of h.exchange per_connection health candidates) ≡ some c
          → uses id list ≤ c)
unfolding assign_instruments
assign_instruments-fits digest h instruments egresses candidates per_connection health fixed
      positive texts distinct checked named demand =
    let (some_left, distinct_ids) = validated-distinct egresses candidates checked in
    let known = validated-any is_unnamed egresses candidates checked ∙ named in
    let sorted = sort_by str_leb instruments in
    let count = length-sort_by str_leb instruments in
    let free =
      spare-unused
        (limit digest h candidates health per_connection fixed some_left distinct_ids known)
        (healthy_ones digest h candidates health per_connection fixed some_left distinct_ids
          known) in
    let (list, made, (all, limits)) =
      assign_all-fits digest h candidates health per_connection fixed some_left distinct_ids known
        [] sorted (any-sort_by str_leb _ instruments ∙ texts) (omega (arith, count, free, demand))
        (λ id c found. omega arith) in
    let enough : ltb (total_capacity (capacity_of h.exchange per_connection health candidates))
          (length instruments)
        ≡ false =
      ground arith in
    let some_connection : (per_connection == 0) ≡ false = ground arith in
    (
      list,
      simp (fixed, some_connection, texts, distinct, checked, enough, made, assign_instruments),
      AreFor-order h egresses candidates health (λ p. validated-any p egresses candidates checked)
          sorted list all,
      λ id c found. omega (arith, limits id c found),
    )
