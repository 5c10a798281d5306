-- ===== src/Network/Assignment/Room.antt =====
-- The room that the egresses of network/assignment.py have left, as a number.
use crytpo_data.Shared.{
  ℕ, ◌+◌, ◌-◌, ◌<◌, ◌≡◌, refl, ap, ◌∙◌, inl, inr, Bool, true, false, none, some, List, [], ◌∷◌,
  String, str_eq, ltb, if◌then◌else◌, map, any, All, contains, repeats, ok, Dict, lookup, insert,
  string_eq, arith, Bool-cases, Option-cases, lookup-insert, ap-if,
}
use crytpo_data.Network.Egress.{Egress}
use crytpo_data.Network.Assignment.{used_of, select_egress}

abbrev pub used_at : String → Dict String ℕ → ℕ
used_at id used = used_of (lookup id used)

-- One more use of an egress.
abbrev pub use_one : String → Dict String ℕ → Dict String ℕ
use_one id used = insert id (used_at id used + 1) used

pub used-use_one :
    (id sel : String) (used : Dict String ℕ)
    → used_at id (use_one sel used)
      ≡ (if str_eq id sel then used_at sel used + 1 else used_at id used)
used-use_one id sel used =
    ap used_of (lookup-insert id sel (used_at sel used + 1) used)
    ∙ ap-if used_of (str_eq id sel) _ _

abbrev pub ids : List Egress → List String
ids es = map (λ (e : Egress). e.id) es

module _ (f : Egress → ℕ) where
  abbrev pub row : Egress → String × ℕ
  row e = (e.id, f e)

  -- What the counters leave of the capacities.
  abbrev pub spare : Dict String ℕ → List Egress → ℕ
  spare used [] = 0
  spare used (e ∷ es) = (f e - used_at e.id used) + spare used es

  spare-other :
      (sel : String) (used : Dict String ℕ) (es : List Egress)
      → contains (ids es) sel ≡ false
      → spare (use_one sel used) es ≡ spare used es
  spare-other sel used [] h = refl
  spare-other sel used (e ∷ es) h = ground (
    arith,
    used-use_one e.id sel used,
    string_eq.beq_iff e.id sel,
    string_eq.beq_iff sel e.id,
    spare-other sel used es,
  )

  -- A use of an egress with room takes one from the spare.
  pub spare-use_one :
      (sel : String) (used : Dict String ℕ) (c : ℕ) (es : List Egress)
      → repeats (ids es) ≡ false
      → lookup sel (map row es) ≡ some c
      → used_at sel used < c
      → spare (use_one sel used) es + 1 ≡ spare used es
  spare-use_one sel used c [] d found room = cc
  spare-use_one sel used c (e ∷ es) d found room = elim (Bool-cases (str_eq sel e.id)) [
    | inl same ↦
        let here = (string_eq.beq_iff sel e.id).0 same in
        let own : f e ≡ c = ground (arith, rw same at found) in
        let after = used-use_one e.id sel used in
        ground (
          arith,
          here,
          own,
          after,
          string_eq.beq_iff e.id sel,
          spare-other sel used es (ground arith),
        )
    | inr other ↦
        let rest = spare-use_one sel used c es (ground arith) (rw other at found) room in
        ground (
          arith,
          rest,
          used-use_one e.id sel used,
          string_eq.beq_iff e.id sel,
          string_eq.beq_iff sel e.id,
        )
  ]

  -- Each egress has its own capacity in the dictionary.
  abbrev pub Own : Dict String ℕ → List Egress → Type 0
  Own d es = All (λ (e : Egress). lookup e.id d ≡ some (f e)) es

  Own-skip :
      (id : String) (n : ℕ) (d : Dict String ℕ) (es : List Egress)
      → contains (ids es) id ≡ false
      → Own d es
      → Own ((id, n) ∷ d) es
  Own-skip id n d [] h own = tt
  Own-skip id n d (e ∷ es) h (first, rest) = (
    ground (arith, string_eq.beq_iff e.id id, string_eq.beq_iff id e.id, first),
    Own-skip id n d es (ground arith) rest,
  )

  pub distinct-Own : (es : List Egress) → repeats (ids es) ≡ false → Own (map row es) es
  distinct-Own [] h = tt
  distinct-Own (e ∷ es) h = (
    ground (arith, string_eq.beq_iff e.id e.id),
    Own-skip e.id (f e) (map row es) es (ground arith) (distinct-Own es (ground arith)),
  )

-- The test that `assign_instruments` makes of an egress.
abbrev pub is_free : (capacity used : Dict String ℕ) → Egress → Bool
is_free capacity used e = elim (lookup e.id capacity) [
  | none ↦ false
  | some c ↦ ltb (used_at e.id used) c
]

abbrev pub has_no_row : (capacity : Dict String ℕ) → Egress → Bool
has_no_row capacity e = elim (lookup e.id capacity) [ none ↦ true | some _ ↦ false ]

module _ (f : Egress → ℕ) where
  -- Where something is spare, an egress has room.
  pub spare-any :
      (d used : Dict String ℕ) (es : List Egress)
      → Own f d es
      → 0 < spare f used es
      → any (is_free d used) es ≡ true
  spare-any d used [] own h = ground arith
  spare-any d used (e ∷ es) (first, rest) h = elim (Bool-cases (ltb (used_at e.id used) (f e))) [
    | inl free ↦ rw (first, free, any, is_free)
    | inr busy ↦
        let more : 0 < spare f used es = ground (arith, h, busy) in
        rw (first, busy, any, is_free) (spare-any d used es rest more)
  ]

  pub Own-rows : (d : Dict String ℕ) (es : List Egress) → Own f d es → any (has_no_row d) es ≡ false
  Own-rows d [] own = refl
  Own-rows d (e ∷ es) (first, rest) = rw (first, any, has_no_row) (Own-rows d es rest)

-- Where all egresses have rows and one has room, one with room is selected.
pub select_egress-ok :
    (used capacity : Dict String ℕ) (order : List Egress)
    → any (has_no_row capacity) order ≡ false
    → any (is_free capacity used) order ≡ true
    → (e : Egress) × (c : ℕ) × (select_egress used capacity order ≡ ok e)
      × (lookup e.id capacity ≡ some c)
      × (used_at e.id used < c)
      × ((g : Egress → Bool) → any g order ≡ false → g e ≡ false)
unfolding select_egress
select_egress-ok used capacity [] rows room = cc
select_egress-ok used capacity (e ∷ es) rows room = elim (Option-cases (lookup e.id capacity)) [
  | inl absent ↦ cc (rw (absent, any, has_no_row) at rows)
  | inr (c, found) ↦
      let rows' = rw (found, any, has_no_row) at rows in
      let room' = rw (found, any, is_free) at room in
      elim (Bool-cases (ltb (used_at e.id used) c)) [
        | inl free ↦ (
          e,
          c,
          rw (found, free, select_egress),
          found,
          ground (arith, free),
          λ g h. ground (arith, h),
        )
        | inr busy ↦
            let (e', c', chosen, found', room_left, others) =
              select_egress-ok used capacity es rows' (rw busy at room') in
            (
              e',
              c',
              rw (found, busy, chosen, select_egress),
              found',
              room_left,
              λ g h. others g (ground (arith, h)),
            )
      ]
]
