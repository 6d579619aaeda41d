-- ===== src/Protocol/PathChunks/Chunks.antt =====
-- crates/drv-thru/src/protocol/path_chunks.rs: `slice::chunks` that its writer calls.
use drv_thru.Base.{
  ℕ, zero, suc, ◌+◌, ◌*◌, ◌-◌, ◌≤◌, ◌<◌, ◌≡◌, ◌≢◌, refl, ap, ◌∙◌, List, [], ◌∷◌, ◌++◌, arith,
  length, take, drop, take-append-drop, length-take, length-drop, All,
}

-- One more chunk of a list that is not empty.
one_more : (n size l : ℕ) → n * size < (l - size) + size → 0 < l → suc n * size < l + size
one_more zero size l h k = omega arith
one_more (suc n) size l h k = omega arith

module _ {ℓ} {A : Type ℓ} where
  -- At most as many chunks as entries, so the length is fuel enough.
  chunks_from : ℕ → ℕ → List A → List (List A)
  chunks_from zero size xs = []
  chunks_from (suc fuel) size [] = []
  chunks_from (suc fuel) size (x ∷ xs) =
      take size (x ∷ xs) ∷ chunks_from fuel size (drop size (x ∷ xs))

  unfoldable pub chunks : ℕ → List A → List (List A)
  unfolding chunks_from
  chunks size xs = chunks_from (length xs) size xs

  pub chunks-parts :
      (size : ℕ) (x : A) (xs : List A)
      → (part : List A) × (parts : List (List A)) × (chunks size (x ∷ xs) ≡ part ∷ parts)
  unfolding chunks chunks_from
  chunks-parts size x xs = (_, _, refl)

  abbrev pub concat : List (List A) → List A
  concat [] = []
  concat (xs ∷ parts) = xs ++ concat parts

  drop_shorter :
      (size : ℕ) (x : A) (xs : List A) → 0 < size → length (drop size (x ∷ xs)) ≤ length xs
  drop_shorter size x xs h = omega (arith, length-drop size (x ∷ xs))

  concat-chunks_from :
      (fuel size : ℕ) (xs : List A)
      → 0 < size
      → length xs ≤ fuel
      → concat (chunks_from fuel size xs) ≡ xs
  unfolding chunks_from
  concat-chunks_from zero size [] h k = refl
  concat-chunks_from zero size (x ∷ xs) h k = absurd (omega arith)
  concat-chunks_from (suc fuel) size [] h k = refl
  concat-chunks_from (suc fuel) size (x ∷ xs) h k =
      ap (◌++◌ (take size (x ∷ xs))) (
        concat-chunks_from fuel size (drop size (x ∷ xs)) h
          (omega (arith, drop_shorter size x xs h)))
      ∙ take-append-drop size (x ∷ xs)

  length-chunks_from :
      (fuel size : ℕ) (xs : List A)
      → 0 < size
      → length (chunks_from fuel size xs) * size < length xs + size
  unfolding chunks_from
  length-chunks_from zero size xs h = omega arith
  length-chunks_from (suc fuel) size [] h = omega arith
  length-chunks_from (suc fuel) size (x ∷ xs) h =
      one_more (length (chunks_from fuel size (drop size (x ∷ xs)))) size (suc (length xs))
        (omega
          (arith, length-drop size (x ∷ xs), length-chunks_from fuel size (drop size (x ∷ xs)) h))
        (omega arith)

  chunks_from-All :
      (fuel size : ℕ) (xs : List A) → All (λ part. length part ≤ size) (chunks_from fuel size xs)
  unfolding chunks_from
  chunks_from-All zero size xs = tt
  chunks_from-All (suc fuel) size [] = tt
  chunks_from-All (suc fuel) size (x ∷ xs) =
      (omega (arith, length-take size (x ∷ xs)), chunks_from-All fuel size (drop size (x ∷ xs)))

  pub concat-chunks : (size : ℕ) (xs : List A) → 0 < size → concat (chunks size xs) ≡ xs
  unfolding chunks
  concat-chunks size xs h = concat-chunks_from (length xs) size xs h (omega arith)

  -- As few chunks as the size allows.
  pub length-chunks :
      (size : ℕ) (xs : List A) → 0 < size → length (chunks size xs) * size < length xs + size
  unfolding chunks
  length-chunks size xs h = length-chunks_from (length xs) size xs h

  pub chunks-All : (size : ℕ) (xs : List A) → All (λ part. length part ≤ size) (chunks size xs)
  unfolding chunks
  chunks-All size xs = chunks_from-All (length xs) size xs

  pub chunks-ne-nil : (size : ℕ) (x : A) (xs : List A) → chunks size (x ∷ xs) ≢ []
  unfolding chunks
  chunks-ne-nil size x xs e = ground arith
