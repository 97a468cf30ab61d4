-- ===== src/Scripts/Lint/Lists/Batches.antt =====
-- The batches of `split_list()` in scripts/kconfig/lint.py.
use ve_root.Base.{
  ℕ, zero, suc, ◌-◌, ◌≤◌, ◌<◌, min, ◌≡◌, refl, ap, ◌∙◌, arith, List, [], ◌∷◌, ◌++◌, length, take,
  drop, take-append-drop, length-take, length-drop,
}
use ve_root.Scripts.Lint.Lists.{batches_from, split_list}

module _ {A : Type 0} where
  abbrev pub concat : List (List A) → List A
  concat [] = []
  concat (b ∷ bs) = b ++ concat bs

  -- All batches are full, but for the last one, which is not empty.
  abbrev pub IsEven : ℕ → List (List A) → Type 0
  IsEven size [] = Unit {0}
  IsEven size (b ∷ []) = (0 < length b) × (length b ≤ size)
  IsEven size (b ∷ (c ∷ bs)) = (length b ≡ size) × IsEven size (c ∷ bs)

  concat-batches :
      (fuel size : ℕ) (xs : List A)
      → 0 < size
      → length xs ≤ fuel
      → concat (batches_from fuel size xs) ≡ xs
  unfolding batches_from
  concat-batches zero size [] pos_size enough = refl
  concat-batches zero size (x ∷ xs) pos_size enough = absurd (omega arith)
  concat-batches (suc fuel) size [] pos_size enough = refl
  concat-batches (suc fuel) size (x ∷ xs) pos_size enough =
      let fits : length (drop size (x ∷ xs)) ≤ fuel = omega (arith, length-drop size (x ∷ xs)) in
      ap (take size (x ∷ xs) ++◌) (concat-batches fuel size (drop size (x ∷ xs)) pos_size fits)
      ∙ take-append-drop size (x ∷ xs)

  -- A batch in front of the others, which is full if there are others.
  IsEven-cons :
      (fuel size : ℕ) (b rest : List A)
      → 0 < length b
      → length b ≤ size
      → (0 < length rest → length b ≡ size)
      → IsEven size (batches_from fuel size rest)
      → IsEven size (b ∷ batches_from fuel size rest)
  unfolding batches_from
  IsEven-cons zero size b rest h k full even = (h, k)
  IsEven-cons (suc fuel) size b [] h k full even = (h, k)
  IsEven-cons (suc fuel) size b (y ∷ ys) h k full even = (full (omega arith), even)

  IsEven-batches :
      (fuel size : ℕ) (xs : List A) → 0 < size → IsEven size (batches_from fuel size xs)
  unfolding batches_from
  IsEven-batches zero size xs pos_size = tt
  IsEven-batches (suc fuel) size [] pos_size = tt
  IsEven-batches (suc fuel) size (x ∷ xs) pos_size =
      let taken : length (take size (x ∷ xs)) ≡ min size (suc (length xs)) =
        length-take size (x ∷ xs) in
      let left : length (drop size (x ∷ xs)) ≡ suc (length xs) - size = length-drop size (x ∷ xs) in
      IsEven-cons fuel size (take size (x ∷ xs)) (drop size (x ∷ xs)) (omega arith) (omega arith)
        (λ more. omega arith) (IsEven-batches fuel size (drop size (x ∷ xs)) pos_size)

  -- For a positive size the slices come to an end and give the whole list, in order; all of them
  -- are full but for the last one, which is not empty and not longer.
  pub split_list-IsEven :
      (lst : List A) (size : ℕ)
      → 0 < size
      → (concat (split_list lst size) ≡ lst) × IsEven size (split_list lst size)
  unfolding split_list
  split_list-IsEven lst size h =
      (concat-batches (length lst) size lst h (omega arith), IsEven-batches (length lst) size lst h)
