-- ===== src/Network/Budgets/First.antt =====
-- `BudgetRegistry.try_acquire_one` of network/rate_limit.py.
use crytpo_data.Shared.{
  ℕ, ◌≡◌, ◌≢◌, ◌&&◌, not, ◌++◌, refl, sym, ◌∙◌, ap, subst, Bool, true, false, Option, some, List,
  [], ◌∷◌, Result, ok, lookup, insert, contains, string_eq, pair_eq, arith, inl, inr, Bool-cases,
  Option-cases, Result-cases, lookup-insert_self, lookup-insert_ne, contains_cons-false,
  contains_cons_self, contains_cons_ne, contains-ne, Key-cases,
}
use crytpo_data.Network.Bucket.{TokenBucket, DecimalInput, try_acquire}
use crytpo_data.Network.Budgets.{
  BudgetKey, Registry, is_valid_key, bucket, with_bucket, acquire_first, try_acquire_one,
}

-- A key names a bucket that granted or refused the cost, and the bucket stands as that call left it.
abbrev pub Answered :
    DecimalInput
    → (clock : ℕ) → Option ℕ
    → (granted : Bool) → BudgetKey
    → (r r' : Registry) → Type 0
Answered cost clock now_ns granted key r r' =
    (b : TokenBucket) × (b' : TokenBucket) × (lookup key r ≡ some b)
    × (try_acquire cost clock now_ns b ≡ (ok granted, b'))
    × (lookup key r' ≡ some b')

-- The buckets of the keys before the first `key` refused the cost, that of `key` granted it, and no
-- other bucket was touched.
abbrev pub TakenFrom :
    DecimalInput
    → (clock : ℕ) → Option ℕ
    → List BudgetKey
    → BudgetKey
    → Registry
    → Registry
    → Type 0
TakenFrom cost clock now_ns keys key r r' =
    (before : List BudgetKey) × (after : List BudgetKey) × (keys ≡ before ++ key ∷ after)
    × (contains before key ≡ false)
    × Answered cost clock now_ns true key r r'
    × ((j : BudgetKey) → contains before j ≡ true → Answered cost clock now_ns false j r r')
    × ((j : BudgetKey) → contains before j ≡ false → j ≢ key → lookup j r' ≡ lookup j r)

with_bucket-ok :
    {A : Type 0} (key : BudgetKey) (method : TokenBucket → Result A × TokenBucket) (r r' : Registry)
    (a : A)
    → with_bucket key method r ≡ (ok a, r')
    → (b : TokenBucket) × (lookup key r ≡ some b)
      × ((method b).0 ≡ ok a)
      × (r' ≡ insert key (method b).1 r)
unfolding with_bucket bucket
with_bucket-ok key method r r' a h = elim (Bool-cases (is_valid_key key)) [
  | inr bad ↦ cc (rw (bad, with_bucket, bucket) at h)
  | inl good ↦ elim (Option-cases (lookup key r)) [
    | inl absent ↦ cc (rw (good, absent, with_bucket, bucket) at h)
    | inr (b, found) ↦
        let e = rw (good, found, with_bucket, bucket) at h in
        (
          b,
          found,
          ap (λ (p : Result _ × Registry). p.0) e,
          sym (ap (λ (p : Result _ × Registry). p.1) e),
        )
  ]
]

both_parts :
    {A : Type 0} (p : Result A × Registry) {x : Result A} {r : Registry}
    → p.0 ≡ x
    → p.1 ≡ r
    → p ≡ (x, r)
both_parts (y, s) h k = cc (h, k)

module _ (k : BudgetKey) (before seen : List BudgetKey) where
  not_outside :
      contains seen k ≡ false → (contains (k ∷ before) k && not (contains seen k)) ≡ false → ⊥
  not_outside new outside = let e = rw (contains_cons_self k before, new) at outside in cc

  later_first : (contains before k && not (contains (k ∷ seen) k)) ≡ false
  later_first = rw (contains_cons_self k seen) (ground arith)

  later_new :
      (j : BudgetKey)
      → j ≢ k
      → (contains (k ∷ before) j && not (contains seen j)) ≡ false
      → (contains before j && not (contains (k ∷ seen) j)) ≡ false
  later_new j ne outside =
      rw (contains_cons_ne k j seen ne) (rw (contains_cons_ne k j before ne) at outside)

  later_seen :
      (j : BudgetKey)
      → contains seen k ≡ true
      → (contains (k ∷ before) j && not (contains seen j)) ≡ false
      → (contains before j && not (contains seen j)) ≡ false
  later_seen j again outside = elim (Key-cases j k) [
    | inl now ↦
        subst (λ i. (contains before i && not (contains seen i)) ≡ false) (sym now)
          (rw again (ground arith))
    | inr ne ↦ rw (contains_cons_ne k j before ne) at outside
  ]

module _ (cost : DecimalInput) (clock : ℕ) (now_ns : Option ℕ) where
  with_bucket-Answered :
      (k : BudgetKey) (granted : Bool) (r r' : Registry)
      → with_bucket k (try_acquire cost clock now_ns) r ≡ (ok granted, r')
      → Answered cost clock now_ns granted k r r'
        × ((j : BudgetKey) → j ≢ k → lookup j r' ≡ lookup j r)
  with_bucket-Answered k granted r r' called =
      let (b, found, took, put) =
        with_bucket-ok k (try_acquire cost clock now_ns) r r' granted called in
      let b' = (try_acquire cost clock now_ns b).1 in
      (
        (
          b,
          b',
          found,
          ap (λ (x : Result Bool). (x, b')) took,
          ap (lookup k) put ∙ lookup-insert_self k b' r,
        ),
        λ j other. ap (lookup j) put ∙ lookup-insert_ne j k b' r other,
      )

  -- An answer, where the bucket before is the same in another registry, and the bucket after too.
  Answered-same :
      (granted : Bool) (j : BudgetKey) (r r1 r2 r' : Registry)
      → lookup j r1 ≡ lookup j r
      → lookup j r' ≡ lookup j r2
      → Answered cost clock now_ns granted j r1 r2
      → Answered cost clock now_ns granted j r r'
  Answered-same granted j r r1 r2 r' same same' (b, b', found, answer, now) =
      (b, b', sym same ∙ found, answer, same' ∙ now)

  -- The same for the keys of the rest, where those seen before are left out.
  TakenAmong : (seen keys : List BudgetKey) → BudgetKey → (r r' : Registry) → Type 0
  TakenAmong seen keys key r r' =
      (before : List BudgetKey) × (after : List BudgetKey) × (keys ≡ before ++ key ∷ after)
      × (contains before key ≡ false)
      × (contains seen key ≡ false)
      × Answered cost clock now_ns true key r r'
      × ((j : BudgetKey)
          → contains before j ≡ true
          → contains seen j ≡ false
          → Answered cost clock now_ns false j r r')
      × ((j : BudgetKey)
          → (contains before j && not (contains seen j)) ≡ false
          → j ≢ key
          → lookup j r' ≡ lookup j r)

  -- The key that is tried now granted the cost.
  TakenAmong-first :
      (k : BudgetKey) (ks seen : List BudgetKey) (r r' : Registry)
      → contains seen k ≡ false
      → with_bucket k (try_acquire cost clock now_ns) r ≡ (ok true, r')
      → TakenAmong seen (k ∷ ks) k r r'
  unfolding TakenAmong
  TakenAmong-first k ks seen r r' new called =
      let (answer, others) = with_bucket-Answered k true r r' called in
      ([], ks, refl, refl, new, answer, λ j none_before. cc, λ j h other. others j other)

  -- The key that is tried now did not, and a later one did.
  TakenAmong-later :
      (k : BudgetKey) (ks seen : List BudgetKey) (r r1 r' : Registry) (key : BudgetKey)
      → contains seen k ≡ false
      → with_bucket k (try_acquire cost clock now_ns) r ≡ (ok false, r1)
      → TakenAmong (k ∷ seen) ks key r1 r'
      → TakenAmong seen (k ∷ ks) key r r'
  unfolding TakenAmong
  TakenAmong-later k ks seen r r1 r' key new called
        (before, after, from, fresh, unseen, answer, refused, same) =
      let (first, others) = with_bucket-Answered k false r r1 called in
      let (other, unseen') = contains_cons-false k key seen unseen in
      let same_now = same k (later_first k before seen) (λ e. other (sym e)) in
      (
        k ∷ before,
        after,
        ap (λ js. k ∷ js) from,
        contains_cons_ne k key before other ∙ fresh,
        unseen',
        Answered-same true key r r1 r' r' (others key other) refl answer,
        λ j inside unseen_j. elim (Key-cases j k) [
          | inl now ↦
              subst (λ i. Answered cost clock now_ns false i r r') (sym now)
                (Answered-same false k r r r1 r' refl same_now first)
          | inr ne ↦ Answered-same false j r r1 r' r' (others j ne) refl (
              refused j (sym (contains_cons_ne k j before ne) ∙ inside)
                (contains_cons_ne k j seen ne ∙ unseen_j))
        ],
        λ j outside j_other. elim (Key-cases j k) [
          | inl now ↦ absurd (
              not_outside k before seen new (
                subst (λ i. (contains (k ∷ before) i && not (contains seen i)) ≡ false) now
                  outside))
          | inr ne ↦ same j (later_new k before seen j ne outside) j_other ∙ others j ne
        ],
      )

  -- The key that is tried now was seen before.
  TakenAmong-again :
      (k : BudgetKey) (ks seen : List BudgetKey) (r r' : Registry) (key : BudgetKey)
      → contains seen k ≡ true
      → TakenAmong seen ks key r r'
      → TakenAmong seen (k ∷ ks) key r r'
  unfolding TakenAmong
  TakenAmong-again k ks seen r r' key again
        (before, after, from, fresh, unseen, answer, refused, same) =
      (
        k ∷ before,
        after,
        ap (λ js. k ∷ js) from,
        contains_cons_ne k key before (contains-ne k key seen again unseen) ∙ fresh,
        unseen,
        answer,
        λ j inside unseen_j.
            refused j
              (sym (contains_cons_ne k j before (contains-ne k j seen again unseen_j)) ∙ inside)
              unseen_j,
        λ j outside j_other. same j (later_seen k before seen j again outside) j_other,
      )

  -- What a key that is returned says.
  Taken :
      (seen keys : List BudgetKey) (r : Registry) (x : Result (Option BudgetKey) × Registry)
      → Type 0
  Taken seen keys r x =
      (key : BudgetKey) (r' : Registry) → x ≡ (ok (some key), r') → TakenAmong seen keys key r r'

  Taken-granted :
      (k : BudgetKey) (ks seen : List BudgetKey) (r r1 : Registry)
      → contains seen k ≡ false
      → with_bucket k (try_acquire cost clock now_ns) r ≡ (ok true, r1)
      → Taken seen (k ∷ ks) r (ok (some k), r1)
  unfolding Taken
  Taken-granted k ks seen r r1 new called key r' e =
      let same : k ≡ key = cc in
      let after = ap (λ (p : Result (Option BudgetKey) × Registry). p.1) e in
      subst (λ j. TakenAmong seen (k ∷ ks) j r r') same
        (TakenAmong-first k ks seen r r' new (called ∙ ap (λ (s : Registry). (ok true, s)) after))

  acquire_first-Taken :
      (seen keys : List BudgetKey) (r : Registry)
      → Taken seen keys r (acquire_first cost clock now_ns seen keys r)
  unfolding acquire_first Taken
  acquire_first-Taken seen [] r = λ key r' h. cc
  acquire_first-Taken seen (k ∷ ks) r = elim (Bool-cases (is_valid_key k)) [
    | inr bad ↦ rw (bad, acquire_first) (λ key r' h. cc)
    | inl good ↦ elim (Bool-cases (contains seen k)) [
      | inl again ↦
          rw (good, again, acquire_first)
            (λ key r' h.
              TakenAmong-again k ks seen r r' key again (acquire_first-Taken seen ks r key r' h))
      | inr new ↦ elim (Result-cases (with_bucket k (try_acquire cost clock now_ns) r).0) [
        | inl (e, failed) ↦ rw (good, new, failed, acquire_first) (λ key r' h. cc)
        | inr (true, called) ↦
            rw (good, new, called, acquire_first)
              (Taken-granted k ks seen r _ new (both_parts _ called refl))
        | inr (false, called) ↦
            rw (good, new, called, acquire_first)
              (λ key r' h.
                TakenAmong-later k ks seen r _ r' key new (both_parts _ called refl)
                  (acquire_first-Taken (k ∷ seen) ks _ key r' h))
      ]
    ]
  ]

  -- When `try_acquire_one` returns a key, it is one of the keys that it was given. The bucket of each
  -- key before its first place refused the cost, its own bucket, as it was before the call, granted the
  -- cost, and these buckets stand as those answers left them; no other bucket was touched.
  pub try_acquire_one-TakenFrom :
      (keys : List BudgetKey) (r r' : Registry) (key : BudgetKey)
      → try_acquire_one keys cost clock now_ns r ≡ (ok (some key), r')
      → TakenFrom cost clock now_ns keys key r r'
  unfolding try_acquire_one Taken TakenAmong
  try_acquire_one-TakenFrom [] r r' key h = cc
  try_acquire_one-TakenFrom (k ∷ ks) r r' key h =
      let (before, after, from, fresh, _, answer, refused, same) =
        acquire_first-Taken [] (k ∷ ks) r key r' h in
      (
        before,
        after,
        from,
        fresh,
        answer,
        λ j inside. refused j inside refl,
        λ j outside other. same j (ground arith) other,
      )
