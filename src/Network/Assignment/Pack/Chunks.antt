-- ===== src/Network/Assignment/Pack/Chunks.antt =====
-- The slices of `pack_egress_shards` in network/assignment.py.
use crytpo_data.Shared.{
  ℕ, zero, suc, ◌≤◌, ◌<◌, ◌≡◌, refl, ap, ◌∙◌, List, [], ◌∷◌, ◌++◌, length, take, drop, concat, All,
  take-drop, length-take-le, length-drop-le, arith,
}
use crytpo_data.Network.Assignment.Pack.{chunks}

module _ {ℓ} {A : Type ℓ} where
  -- A slice has an item and is no longer than the step.
  abbrev pub IsSlice : ℕ → List A → Type 0
  IsSlice step xs = (0 < length xs) × (length xs ≤ step)

  take-pos : (step : ℕ) (x : A) (xs : List A) → 0 < step → 0 < length (take step (x ∷ xs))
  take-pos zero x xs h = omega (arith, h)
  take-pos (suc step) x xs h = omega arith

  length-drop-lt :
      (step : ℕ) (x : A) (xs : List A) → 0 < step → length (drop step (x ∷ xs)) ≤ length xs
  length-drop-lt zero x xs h = omega (arith, h)
  length-drop-lt (suc step) x xs h = length-drop-le step xs

  chunks-slices :
      (fuel step : ℕ) (xs : List A)
      → 0 < step
      → length xs ≤ fuel
      → (concat (chunks fuel step xs) ≡ xs) × All (IsSlice step) (chunks fuel step xs)
  chunks-slices zero step [] h enough = (refl, tt)
  chunks-slices zero step (x ∷ xs) h enough = ground (arith, enough)
  chunks-slices (suc fuel) step [] h enough = (refl, tt)
  chunks-slices (suc fuel) step (x ∷ xs) h enough =
      let (joined, slices) =
        chunks-slices fuel step (drop step (x ∷ xs)) h
          (omega (arith, enough, length-drop-lt step x xs h)) in
      (
        ap (λ ys. take step (x ∷ xs) ++ ys) joined ∙ take-drop step (x ∷ xs),
        ((take-pos step x xs h, length-take-le step (x ∷ xs)), slices),
      )

  -- With a positive step, as many rounds as the list is long are enough: the slices together are the
  -- list, and each has one item at least and no more than the step.
  pub chunks-whole :
      (step : ℕ) (xs : List A)
      → 0 < step
      → (concat (chunks (length xs) step xs) ≡ xs) × All (IsSlice step) (chunks (length xs) step xs)
  chunks-whole step xs h = chunks-slices (length xs) step xs h (omega arith)
