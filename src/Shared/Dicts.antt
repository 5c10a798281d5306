-- ===== src/Shared/Dicts.antt =====
-- A Python dict in insertion order: an association list whose updates keep the place of a key.
use mathlib.Core.Path.{◌≡◌, refl}
use mathlib.Core.Logic.{◌≢◌}
use mathlib.Core.Option.{Option, none, some}
use mathlib.Core.List.{List, [], ◌∷◌}
use native.Mathlib.Omega.{arith}
use crytpo_data.Shared.Tests.{if◌then◌else◌}
use crytpo_data.Shared.Keys.{Eq}

abbrev pub Dict {ℓ} : Type 0 → Type ℓ → Type ℓ
Dict K V = List (K × V)

module _ {ℓ} {K : Type 0} {V : Type ℓ} ⦃e : Eq K⦄ where
  -- `d.get(k)`
  abbrev pub lookup : K → Dict K V → Option V
  lookup k [] = none
  lookup k ((j, v) ∷ d) = if e.beq k j then some v else lookup k d

  -- `d[k] = v`
  abbrev pub insert : K → V → Dict K V → Dict K V
  insert k v [] = (k, v) ∷ []
  insert k v ((j, w) ∷ d) = if e.beq k j then (j, v) ∷ d else (j, w) ∷ insert k v d

  -- `del d[k]`, where the key is present once at most
  abbrev pub erase : K → Dict K V → Dict K V
  erase k [] = []
  erase k ((j, w) ∷ d) = if e.beq k j then d else (j, w) ∷ erase k d

  pub lookup-insert_self : (k : K) (v : V) (d : Dict K V) → lookup k (insert k v d) ≡ some v
  lookup-insert_self k v [] = ground (arith, e.beq_iff k k)
  lookup-insert_self k v ((j, w) ∷ d) = ground (arith, lookup-insert_self k v d)

  pub lookup-insert_ne :
      (j k : K) (v : V) (d : Dict K V) → j ≢ k → lookup j (insert k v d) ≡ lookup j d
  lookup-insert_ne j k v [] h = ground (arith, e.beq_iff j k)
  lookup-insert_ne j k v ((i, w) ∷ d) h =
      ground (arith, e.beq_iff j k, e.beq_iff k i, e.beq_iff j i, lookup-insert_ne j k v d h)

  pub lookup-erase_ne : (j k : K) (d : Dict K V) → j ≢ k → lookup j (erase k d) ≡ lookup j d
  lookup-erase_ne j k [] h = refl
  lookup-erase_ne j k ((i, w) ∷ d) h =
      ground (arith, e.beq_iff k i, e.beq_iff j i, lookup-erase_ne j k d h)

  -- The two laws at once.
  pub lookup-insert :
      (j k : K) (v : V) (d : Dict K V)
      → lookup j (insert k v d) ≡ (if e.beq j k then some v else lookup j d)
  lookup-insert j k v [] = refl
  lookup-insert j k v ((i, w) ∷ d) =
      ground (arith, e.beq_iff j k, e.beq_iff k i, e.beq_iff j i, lookup-insert j k v d)
