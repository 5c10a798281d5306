-- ===== src/Network/Assignment/Pack/Shards.antt =====
-- The shards of `pack_egress_shards` in network/assignment.py hold the assignments that were given.
use crytpo_data.Shared.{
  ℕ, ◌+◌, ◌<◌, ◌≡◌, refl, sym, ap, ◌∙◌, subst, inl, inr, Bool, not, List, [], ◌∷◌, ◌++◌, String,
  str_eq, str_leb, ltb, ◌==◌, if◌then◌else◌, length, map, concat, count, sum_by, sum_by-append,
  sum_by-sort_by, sort_by, All, All-append, contains, ok, value_error, no_egress, raise_if, lookup,
  insert, string_eq, arith, Bool-cases, ok-injective, >>=-eq-ok, >>-eq-ok,
}
use crytpo_data.Network.Egress.{Egress}
use crytpo_data.Network.Assignment.{StickyAssignment, validated_egresses}
use crytpo_data.Network.Assignment.Pack.{
  EgressShard, one_cohort, Groups, group_of, by_id, group_all, shards_from, chunks_of, shards_of,
  pack_egress_shards,
}
use crytpo_data.Network.Assignment.Pack.Chunks.{IsSlice, chunks-whole}

abbrev pub held : List EgressShard → List StickyAssignment
held shards = concat (map (λ (s : EgressShard). s.assignments) shards)

abbrev pub IsFilled : ℕ → EgressShard → Type 0
IsFilled step s = IsSlice step s.assignments

-- One group's shards.
held-shards_from :
    (id : String) (n : ℕ) (css : List (List StickyAssignment))
    → held (shards_from id n css) ≡ concat css
held-shards_from id n [] = refl
held-shards_from id n (cs ∷ css) = ap (λ ys. cs ++ ys) (held-shards_from id (n + 1) css)

IsFilled-shards_from :
    (step : ℕ) (id : String) (n : ℕ) (css : List (List StickyAssignment))
    → All (IsSlice step) css
    → All (IsFilled step) (shards_from id n css)
IsFilled-shards_from step id n [] h = tt
IsFilled-shards_from step id n (cs ∷ css) (first, rest) =
    (first, IsFilled-shards_from step id (n + 1) css rest)

module _ (p : StickyAssignment → Bool) where
  abbrev count_groups : Groups → ℕ
  count_groups d = sum_by (λ (_, g). count p g) d

  held-append :
      (ss ts : List EgressShard) → count p (held (ss ++ ts)) ≡ count p (held ss) + count p (held ts)
  held-append [] ts = omega arith
  held-append (s ∷ ss) ts = omega (
    arith,
    held-append ss ts,
    sum_by-append (λ a. if p a then 1 else 0) s.assignments (held (ss ++ ts)),
    sum_by-append (λ a. if p a then 1 else 0) s.assignments (held ss),
  )

  count-insert :
      (g : List StickyAssignment) (id : String) (d : Groups)
      → count_groups (insert id g d) + count p (group_of (lookup id d)) ≡ count_groups d + count p g
  count-insert g id [] = omega arith
  count-insert g id ((k, f) ∷ d) = elim (Bool-cases (str_eq id k)) [
    | inl same ↦ rw same (omega arith)
    | inr other ↦ rw other (omega (arith, count-insert g id d))
  ]

  count-add :
      (a : StickyAssignment) (id : String) (d : Groups)
      → count_groups (insert id (group_of (lookup id d) ++ a ∷ []) d)
        ≡ count_groups d + (if p a then 1 else 0)
  count-add a id d = omega (
    arith,
    count-insert (group_of (lookup id d) ++ a ∷ []) id d,
    sum_by-append (λ a. if p a then 1 else 0) (group_of (lookup id d)) (a ∷ []),
  )

  group_all-count :
      (candidates : List Egress) (seen : List String) (d grouped : Groups)
      (as' : List StickyAssignment)
      → group_all candidates seen d as' ≡ ok grouped
      → count_groups grouped ≡ count_groups d + count p as'
  unfolding group_all
  group_all-count candidates seen d grouped [] h = omega (arith, ap count_groups (ok-injective h))
  group_all-count candidates seen d grouped (a ∷ as') h =
      let (_, h1) = >>-eq-ok (raise_if (contains seen a.key) value_error) _ h in
      let (e, _, h2) = >>=-eq-ok (by_id a.egress_id candidates) _ h1 in
      let (_, h3) =
        >>-eq-ok (raise_if (not (str_eq a.quota_group e.quota_group)) value_error) _ h2 in
      omega (
        arith,
        group_all-count candidates (a.key ∷ seen) _ grouped as' h3,
        count-add a a.egress_id d,
      )

  chunks_of-count :
      (step : ℕ) (group : List StickyAssignment)
      → 0 < step
      → count p (concat (chunks_of step group)) ≡ count p group
  chunks_of-count step group positive =
      let leb_by : StickyAssignment → StickyAssignment → Bool = λ a. λ b. str_leb a.key b.key in
      ap (count p) (chunks-whole step (sort_by leb_by group) positive).0
      ∙ sum_by-sort_by leb_by (λ a. if p a then 1 else 0) group

  shards_of-count :
      (candidates : List Egress) (step : ℕ) (d : Groups) (shards : List EgressShard)
      → 0 < step
      → shards_of candidates step d ≡ ok shards
      → count p (held shards) ≡ count_groups d
  unfolding shards_of
  shards_of-count candidates step [] shards positive h =
      ap (λ ss. count p (held ss)) (sym (ok-injective h))
  shards_of-count candidates step ((id, g) ∷ d) shards positive h =
      let (e, _, h1) = >>=-eq-ok (by_id id candidates) _ h in
      let (_, h2) =
        >>-eq-ok (raise_if (ltb e.max_ws_connections (length (chunks_of step g))) no_egress) _ h1 in
      let (rest, made, h3) = >>=-eq-ok (shards_of candidates step d) _ h2 in
      subst (λ ss. count p (held ss) ≡ count_groups ((id, g) ∷ d)) (ok-injective h3)
        (omega (
          arith,
          held-append (shards_from id 0 (chunks_of step g)) rest,
          ap (count p) (held-shards_from id 0 (chunks_of step g)),
          chunks_of-count step g positive,
          shards_of-count candidates step d rest positive made,
        ))

shards_of-IsFilled :
    (candidates : List Egress) (step : ℕ) (d : Groups) (shards : List EgressShard)
    → 0 < step
    → shards_of candidates step d ≡ ok shards
    → All (IsFilled step) shards
unfolding shards_of
shards_of-IsFilled candidates step [] shards positive h =
    subst (All (IsFilled step)) (ok-injective h) tt
shards_of-IsFilled candidates step ((id, g) ∷ d) shards positive h =
    let (e, _, h1) = >>=-eq-ok (by_id id candidates) _ h in
    let (_, h2) =
      >>-eq-ok (raise_if (ltb e.max_ws_connections (length (chunks_of step g))) no_egress) _ h1 in
    let (rest, made, h3) = >>=-eq-ok (shards_of candidates step d) _ h2 in
    subst (All (IsFilled step)) (ok-injective h3) (
      All-append (IsFilled step) (shards_from id 0 (chunks_of step g)) rest
        (IsFilled-shards_from step id 0 (chunks_of step g) (chunks-whole step _ positive).1)
        (shards_of-IsFilled candidates step d rest positive made))

-- When assignments are packed, each shard has one assignment at least and no more than the
-- subscriptions of a connection, and the shards hold the assignments that were given and no other: of
-- every test, as many satisfy it in the shards as among those given.
pub pack_egress_shards-holds :
    (assignments : List StickyAssignment) (egresses : List Egress) (per_connection : ℕ)
    (shards : List EgressShard)
    → pack_egress_shards assignments egresses per_connection ≡ ok shards
    → All (IsFilled per_connection) shards
      × ((p : StickyAssignment → Bool) → count p (held shards) ≡ count p assignments)
unfolding pack_egress_shards
pack_egress_shards-holds assignments egresses per_connection shards h =
    let (some_step, h1) = >>-eq-ok (raise_if (per_connection == 0) value_error) _ h in
    let (candidates, _, h2) = >>=-eq-ok (validated_egresses egresses) _ h1 in
    let (_, h3) = >>-eq-ok (raise_if (not (one_cohort assignments)) value_error) _ h2 in
    let (grouped, made, h4) = >>=-eq-ok (group_all candidates [] [] assignments) _ h3 in
    let positive : 0 < per_connection = ground (arith, some_step) in
    (
      shards_of-IsFilled candidates per_connection _ shards positive h4,
      λ p. omega (
        arith,
        shards_of-count p candidates per_connection _ shards positive h4,
        sum_by-sort_by (λ (i, _). λ (j, _). str_leb i j) (λ (_, g). count p g) grouped,
        group_all-count p candidates [] [] grouped assignments made,
      ),
    )
