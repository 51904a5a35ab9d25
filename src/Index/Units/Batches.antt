-- ===== src/Index/Units/Batches.antt =====
-- The batches of an embedding run.
use agent_coderag.Prelude.{
  ℕ, zero, suc, ◌≤◌, ◌<◌, ◌≡◌, refl, ap, ◌∙◌, List, [], ◌∷◌, ◌++◌, arith, All, length, take, drop,
  take-append-drop, length-drop, length-take-le,
}
use mathlib.Core.List.{flatten}
use agent_coderag.Index.Units.{batches}

-- A batch that is sent to the embedder: it has a text, and at most `size` of them.
abbrev pub IsBatch {ℓ} : {A : Type ℓ} → ℕ → List A → Type 0
IsBatch size xs = (0 < length xs) × (length xs ≤ size)

module _ {ℓ} {A : Type ℓ} where
  batches-All :
      (rounds size : ℕ) (xs : List A) → 0 < size → All (IsBatch size) (batches rounds size xs)
  unfolding batches
  batches-All zero size xs h = tt
  batches-All (suc rounds) size [] h = tt
  batches-All (suc rounds) zero (x ∷ xs) h = absurd (omega arith)
  batches-All (suc rounds) (suc size) (x ∷ xs) h = (
    (omega arith, length-take-le (suc size) (x ∷ xs)),
    batches-All rounds (suc size) (drop size xs) h,
  )

  flatten-batches :
      (rounds size : ℕ) (xs : List A)
      → 0 < size
      → length xs ≤ rounds
      → flatten (batches rounds size xs) ≡ xs
  unfolding batches flatten
  flatten-batches zero size [] h l = refl
  flatten-batches zero size (x ∷ xs) h l = absurd (omega arith)
  flatten-batches (suc rounds) size [] h l = refl
  flatten-batches (suc rounds) zero (x ∷ xs) h l = absurd (omega arith)
  flatten-batches (suc rounds) (suc size) (x ∷ xs) h l =
      ap (λ t. x ∷ (take size xs ++ t))
        (flatten-batches rounds (suc size) (drop size xs) h (omega (arith, length-drop size xs)))
      ∙ ap (λ t. x ∷ t) (take-append-drop size xs)

  -- With a positive size and a round for each text, every batch has a text and at most `size` of
  -- them, and the batches in order are the whole list.
  pub batches_lem :
      (rounds size : ℕ) (xs : List A)
      → 0 < size
      → length xs ≤ rounds
      → All (IsBatch size) (batches rounds size xs) × (flatten (batches rounds size xs) ≡ xs)
  batches_lem rounds size xs h l =
      (batches-All rounds size xs h, flatten-batches rounds size xs h l)
