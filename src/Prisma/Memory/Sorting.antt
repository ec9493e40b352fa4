-- ===== src/Prisma/Memory/Sorting.antt =====
-- Sorting by insertion, as the table of Prisma/Memory does it.
use secondhand_api.Prisma.Delegate.{is_sorted}
use secondhand_api.Prelude.{
  Bool, true, false, Bool-cases, inl, inr, List, [], ◌∷◌, ◌≡◌, refl, if◌then◌else◌, any, arith,
  length, suc, ◌||◌, ap, ◌∙◌,
}

module _ {Row : Type 0} (before : Row → Row → Bool) where
  unfoldable pub place : Row → List Row → List Row
  place r [] = r ∷ []
  place r (x ∷ xs) = let rest = place r xs in if before r x then r ∷ x ∷ xs else x ∷ rest

  unfoldable pub sort : List Row → List Row
  unfolding place
  sort [] = []
  sort (x ∷ xs) = place x (sort xs)

  length-place : (r : Row) (xs : List Row) → length (place r xs) ≡ suc (length xs)
  unfolding place
  length-place r [] = refl
  length-place r (x ∷ xs) = ground (arith, length-place r xs)

  pub length-sort : (xs : List Row) → length (sort xs) ≡ length xs
  unfolding sort
  length-sort [] = refl
  length-sort (x ∷ xs) = length-place x (sort xs) ∙ ap suc (length-sort xs)

  any-place : (q : Row → Bool) (r : Row) (xs : List Row) → any q (place r xs) ≡ q r || any q xs
  unfolding place
  any-place q r [] = refl
  any-place q r (x ∷ xs) = ground (arith, any-place q r xs)

  pub any-sort : (q : Row → Bool) (xs : List Row) → any q (sort xs) ≡ any q xs
  unfolding sort
  any-sort q [] = refl
  any-sort q (x ∷ xs) = rw (any-place q x (sort xs), any-sort q xs)

  is_sorted-place :
      ((r x : Row) → before r x ≡ true → before x r ≡ false)
      → (r : Row) (xs : List Row) → is_sorted before xs ≡ true
      → is_sorted before (place r xs) ≡ true
  unfolding place
  is_sorted-place asym r [] h = refl
  is_sorted-place asym r (x ∷ []) h = elim (Bool-cases (before r x)) [
    | inl first ↦ ground (arith, first, asym r x first)
    | inr second ↦ ground (arith, second)
  ]
  is_sorted-place asym r (x ∷ y ∷ ys) h =
      let rest = is_sorted-place asym r (y ∷ ys) (ground (arith, h)) in
      elim (Bool-cases (before r x)) [
        | inl first ↦ ground (arith, first, asym r x first, h)
        | inr second ↦ elim (Bool-cases (before r y)) [
          | inl between ↦ ground (arith, second, between, rest, h)
          | inr later ↦ ground (arith, second, later, rest, h)
        ]
      ]

  pub is_sorted-sort :
      ((r x : Row) → before r x ≡ true → before x r ≡ false)
      → (xs : List Row) → is_sorted before (sort xs) ≡ true
  unfolding sort
  is_sorted-sort asym [] = refl
  is_sorted-sort asym (x ∷ xs) = is_sorted-place asym x (sort xs) (is_sorted-sort asym xs)
