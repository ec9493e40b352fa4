-- ===== src/Prisma/Counting.antt =====
-- What a count of rows says of single rows.
use secondhand_api.Prelude.{
  ℕ, String, Bool, true, false, Option, none, some, List, [], ◌∷◌, ◌≡◌, refl, sym, ◌∙◌, any, length,
  ltb, eqb, arith, filled_of_any, Bool-cases, inl, inr,
}
use secondhand_api.Prisma.Delegate.{Delegate, keep_unless}

pub any_of_filled : {A : Type 0} (l : List A) → ltb 0 (length l) ≡ true → any (λ _. true) l ≡ true
any_of_filled [] h = cc
any_of_filled (x ∷ xs) h = refl

pub spared_by :
    {A : Type 0} (p : A → Bool) (m : Option A) (x : A)
    → keep_unless p m ≡ some x
    → (m ≡ some x) × (p x ≡ false)
spared_by p none x h = cc
spared_by p (some y) x h = ground arith

pub counted : (n : ℕ) → ltb 0 n ≡ true → eqb n 0 ≡ false
counted n h = ground arith

pub uncounted : (n : ℕ) → ltb 0 n ≡ false → n ≡ 0
uncounted n h = ground arith

module _ {Row : Type 0} {key : Row → String} {conflicts : Row → Row → Bool}
    (d : Delegate Row key conflicts) where
  -- A row that passes is counted.
  pub count_of_row :
      (p : Row → Bool) (t : d.Table) (k : String) (r : Row)
      → d.find_unique k t ≡ some r
      → p r ≡ true
      → ltb 0 (length (d.find_many p t)) ≡ true
  count_of_row p t k r there passes = elim (Bool-cases (any p (d.find_many p t))) [
    | inl some_ ↦ filled_of_any _ _ some_
    | inr none_ ↦ absurd (let e = sym (d.none_many p p t none_ k r there passes) ∙ passes in cc)
  ]

  -- A positive count has a row.
  pub row_of_count :
      (p : Row → Bool) (t : d.Table)
      → ltb 0 (length (d.find_many p t)) ≡ true
      → (r : Row) × (d.find_unique (key r) t ≡ some r) × (p r ≡ true)
  row_of_count p t counted_ =
      let (r, there, passes, _) = d.some_many p (λ _. true) t (any_of_filled _ counted_) in
      (r, there, passes)

  -- A count of nought has none.
  pub no_row_of_count :
      (p : Row → Bool) (t : d.Table)
      → ltb 0 (length (d.find_many p t)) ≡ false
      → (k : String) (r : Row) → d.find_unique k t ≡ some r
      → p r ≡ false
  no_row_of_count p t none_ k r there = elim (Bool-cases (p r)) [
    | inr fails ↦ fails
    | inl passes ↦ absurd (let e = sym (count_of_row p t k r there passes) ∙ none_ in cc)
  ]
