-- ===== src/Network/Assignment/Ranking.antt =====
-- The egresses that network/assignment.py ranks for a key are the healthy ones, each once.
use crytpo_data.Shared.{
  ℕ, suc, ◌≡◌, refl, sym, ap, ◌∙◌, subst, Bool, false, ◌&&◌, ◌||◌, List, [], ◌∷◌, String, str_eq,
  str_leb, length, filter_by, any, any-filter_by, sort_by, insert_by, any-insert_by, any-sort_by,
  length-sort_by, contains, repeats, ok, value_error, raise_if, string_eq, arith, ok-injective,
  >>-eq-ok,
}
use crytpo_data.Network.Egress.{Egress}
use crytpo_data.Network.Health.{HealthSnapshot, is_available}
use crytpo_data.Network.Assignment.{
  AssignmentKey, canonical, no_egresses, validated_egresses, ranks_before, ranked,
}
use crytpo_data.Network.Assignment.Room.{ids}

contains-ids :
    (k : String) (es : List Egress) → contains (ids es) k ≡ any (λ (e : Egress). str_eq k e.id) es
contains-ids k [] = refl
contains-ids k (e ∷ es) = ground (arith, contains-ids k es)

contains-insert :
    (leb_by : Egress → Egress → Bool) (k : String) (a : Egress) (es : List Egress)
    → contains (ids (insert_by leb_by a es)) k ≡ (str_eq k a.id || contains (ids es) k)
contains-insert leb_by k a es =
    contains-ids k (insert_by leb_by a es)
    ∙ (any-insert_by leb_by (λ (e : Egress). str_eq k e.id) a es
        ∙ ap (λ b. str_eq k a.id || b) (sym (contains-ids k es)))

repeats-insert :
    (leb_by : Egress → Egress → Bool) (a : Egress) (es : List Egress)
    → repeats (ids (insert_by leb_by a es)) ≡ (contains (ids es) a.id || repeats (ids es))
repeats-insert leb_by a [] = refl
repeats-insert leb_by a (e ∷ es) = ground (
  arith,
  repeats-insert leb_by a es,
  contains-insert leb_by e.id a es,
  string_eq.beq_iff a.id e.id,
  string_eq.beq_iff e.id a.id,
)

contains-sort :
    (leb_by : Egress → Egress → Bool) (k : String) (es : List Egress)
    → contains (ids (sort_by leb_by es)) k ≡ contains (ids es) k
contains-sort leb_by k es =
    contains-ids k (sort_by leb_by es)
    ∙ (any-sort_by leb_by (λ (e : Egress). str_eq k e.id) es ∙ sym (contains-ids k es))

repeats-sort :
    (leb_by : Egress → Egress → Bool) (es : List Egress)
    → repeats (ids (sort_by leb_by es)) ≡ repeats (ids es)
repeats-sort leb_by [] = refl
repeats-sort leb_by (e ∷ es) =
    repeats-insert leb_by e (sort_by leb_by es)
    ∙ rw (contains-sort leb_by e.id es, repeats-sort leb_by es)

contains-filter :
    (q : Egress → Bool) (k : String) (es : List Egress)
    → contains (ids es) k ≡ false
    → contains (ids (filter_by q es)) k ≡ false
contains-filter q k [] h = refl
contains-filter q k (e ∷ es) h = ground (arith, contains-filter q k es)

pub repeats-filter :
    (q : Egress → Bool) (es : List Egress)
    → repeats (ids es) ≡ false
    → repeats (ids (filter_by q es)) ≡ false
repeats-filter q [] h = refl
repeats-filter q (e ∷ es) h = ground (arith, contains-filter q e.id es, repeats-filter q es)

length-no_egresses : (n : ℕ) (es : List Egress) → length es ≡ suc n → no_egresses es ≡ false
length-no_egresses n [] h = ground arith
length-no_egresses n (e ∷ es) h = refl

-- Candidates that were validated are distinct and some, so they are validated again.
pub validated-distinct :
    (egresses candidates : List Egress)
    → validated_egresses egresses ≡ ok candidates
    → (no_egresses candidates ≡ false) × (repeats (ids candidates) ≡ false)
unfolding validated_egresses
validated-distinct [] candidates h = cc
validated-distinct (e ∷ es) candidates h =
    let leb_by : Egress → Egress → Bool = λ (a : Egress). λ (b : Egress). str_leb a.id b.id in
    let (distinct, made) = >>-eq-ok (raise_if (repeats (ids (e ∷ es))) value_error) _ h in
    let same = ok-injective made in
    let some_left : no_egresses (sort_by leb_by (e ∷ es)) ≡ false =
      length-no_egresses (length es) (sort_by leb_by (e ∷ es)) (length-sort_by leb_by (e ∷ es)) in
    (
      subst (λ cs. no_egresses cs ≡ false) same some_left,
      subst (λ cs. repeats (ids cs) ≡ false) same
          (repeats-sort leb_by (e ∷ es) ∙ ground (arith, distinct)),
    )

-- The ranking of healthy candidates has the members that the health leaves.
pub ranked-any :
    (digest : String → ℕ) (k : AssignmentKey) (candidates : List Egress) (health : HealthSnapshot)
    → no_egresses candidates ≡ false
    → repeats (ids candidates) ≡ false
    → (order : List Egress) × (ranked digest k candidates health ≡ ok order)
      × ((p : Egress → Bool)
          → any p order
            ≡ any p (filter_by (λ (e : Egress). is_available k.exchange e.id health) candidates))
unfolding ranked validated_egresses
ranked-any digest k candidates health some_left distinct =
    let leb_by : Egress → Egress → Bool = λ (a : Egress). λ (b : Egress). str_leb a.id b.id in
    let q : Egress → Bool = λ (e : Egress). is_available k.exchange e.id health in
    let order =
      sort_by (ranks_before digest (canonical k)) (filter_by q (sort_by leb_by candidates)) in
    (
      order,
      rw (ranked, validated_egresses, some_left, distinct),
      λ p.
          any-sort_by (ranks_before digest (canonical k)) p
            (filter_by q (sort_by leb_by candidates))
          ∙ (any-filter_by p q (sort_by leb_by candidates)
              ∙ (any-sort_by leb_by (λ e. q e && p e) candidates
                  ∙ sym (any-filter_by p q candidates))),
    )
