-- ===== src/Prisma/Memory/Rows.antt =====
-- Lookup, change and deletion in a list of rows, as the table of Prisma/Memory does them.
use mathlib.Core.Option
use secondhand_api.Prelude.{
  String, Bool, true, false, Option, none, some, List, [], ◌∷◌, ◌≡◌, refl, ◌==◌, if◌then◌else◌, any,
  select, map, arith, eq_iff, Option-cases, Bool-cases, inl, inr,
}
use secondhand_api.Prisma.Delegate.{keep_unless}

module _ {Row : Type 0} (key : Row → String) where
  unfoldable pub find : String → List Row → Option Row
  find k [] = none
  find k (r ∷ rs) = if key r == k then some r else find k rs

  -- Each row as `find` shows it.
  unfoldable pub rows_of : List Row → List Row → List Row
  rows_of full [] = []
  rows_of full (r ∷ rs) =
      let rest = rows_of full rs in elim (find (key r) full) [ none ↦ rest | some x ↦ x ∷ rest ]

  unfoldable pub first_row : (Row → Bool) → List Row → Option Row
  first_row p [] = none
  first_row p (r ∷ rs) = if p r then some r else first_row p rs

  unfoldable pub change : String → (Row → Row) → List Row → List Row
  change k f [] = []
  change k f (r ∷ rs) = (if key r == k then f r else r) ∷ change k f rs

  unfoldable pub without : String → List Row → List Row
  without k [] = []
  without k (r ∷ rs) = let rest = without k rs in if key r == k then rest else r ∷ rest

  unfoldable pub sweep : (Row → Bool) → List Row → List Row → List Row
  sweep p full [] = []
  sweep p full (r ∷ rs) =
      let rest = sweep p full rs in
      elim (keep_unless p (find (key r) full)) [ none ↦ rest | some _ ↦ r ∷ rest ]

  pub key-find : (k : String) (t : List Row) (r : Row) → find k t ≡ some r → key r ≡ k
  unfolding find
  key-find k [] r h = cc
  key-find k (x ∷ xs) r h = ground (arith, eq_iff (key x) k, key-find k xs r)

  any-rows_of :
      (q : Row → Bool) (full t : List Row)
      → any q (rows_of full t) ≡ true
      → (r : Row) × (find (key r) full ≡ some r) × (q r ≡ true)
  unfolding rows_of
  any-rows_of q full [] h = cc
  any-rows_of q full (x ∷ xs) h = elim (Option-cases (find (key x) full)) [
    | inl gone ↦ any-rows_of q full xs (rw (gone, rows_of) at h)
    | inr (y, found) ↦ elim (Bool-cases (q y)) [
      | inl yes_q ↦ (y, rw (key-find (key x) full y found) found, yes_q)
      | inr no_q ↦ any-rows_of q full xs (ground arith)
    ]
  ]

  find-rows_of :
      (q : Row → Bool) (full t : List Row) (k : String) (r0 r : Row)
      → find k t ≡ some r0
      → find k full ≡ some r
      → any q (rows_of full t) ≡ false
      → q r ≡ false
  unfolding find rows_of
  find-rows_of q full [] k r0 r h found a = cc
  find-rows_of q full (x ∷ xs) k r0 r h found a =
      ground (arith, eq_iff (key x) k, find-rows_of q full xs k r0 r)

  any-select :
      (p q : Row → Bool) (l : List Row)
      → any q (select p l) ≡ any (λ r. if p r then q r else false) l
  any-select p q [] = refl
  any-select p q (x ∷ xs) = ground (arith, any-select p q xs)

  pub first_row-rows_of :
      (p : Row → Bool) (full t : List Row) (r : Row)
      → first_row p (rows_of full t) ≡ some r
      → (find (key r) full ≡ some r) × (p r ≡ true)
  unfolding rows_of first_row
  first_row-rows_of p full [] r h = cc
  first_row-rows_of p full (x ∷ xs) r h = elim (Option-cases (find (key x) full)) [
    | inl gone ↦ first_row-rows_of p full xs r (rw (gone, rows_of) at h)
    | inr (y, found) ↦ elim (Bool-cases (p y)) [
      | inl here ↦
          let same : y ≡ r = ground arith in
          (rw (← same) (rw (key-find (key x) full y found) found), rw (← same) here)
      | inr later ↦ first_row-rows_of p full xs r (ground arith)
    ]
  ]

  pub first_row-none : (p : Row → Bool) (l : List Row) → first_row p l ≡ none → any p l ≡ false
  unfolding first_row
  first_row-none p [] h = refl
  first_row-none p (x ∷ xs) h = ground (arith, first_row-none p xs)

  pub find-change :
      (k j : String) (f : Row → Row) (t : List Row)
      → ((r : Row) → key (f r) ≡ key r)
      → find j (change k f t) ≡ (if k == j then Option.map f (find j t) else find j t)
  unfolding find change
  find-change k j f [] same = ground arith
  find-change k j f (x ∷ xs) same = ground (
    arith,
    same x,
    eq_iff (key x) k,
    eq_iff (key x) j,
    eq_iff k j,
    eq_iff (key (f x)) j,
    find-change k j f xs same,
  )

  pub find-map :
      (f : Row → Row) (t : List Row) (j : String)
      → ((r : Row) → key (f r) ≡ key r)
      → find j (map f t) ≡ Option.map f (find j t)
  unfolding find
  find-map f [] j same = refl
  find-map f (x ∷ xs) j same = ground (arith, same x, find-map f xs j same)

  pub find-without :
      (k j : String) (t : List Row) → find j (without k t) ≡ (if k == j then none else find j t)
  unfolding find without
  find-without k j [] = ground arith
  find-without k j (x ∷ xs) =
      ground (arith, eq_iff (key x) k, eq_iff (key x) j, eq_iff k j, find-without k j xs)

  find-sweep-none :
      (p : Row → Bool) (full t : List Row) (j : String)
      → find j t ≡ none
      → find j (sweep p full t) ≡ none
  unfolding find sweep
  find-sweep-none p full [] j h = refl
  find-sweep-none p full (x ∷ xs) j h = ground (arith, find-sweep-none p full xs j)

  find-sweep-some :
      (p : Row → Bool) (full t : List Row) (j : String) (r : Row)
      → find j full ≡ some r
      → find j (sweep p full t) ≡ (if p r then none else find j t)
  unfolding find sweep
  find-sweep-some p full [] j r h = ground arith
  find-sweep-some p full (x ∷ xs) j r h =
      ground (arith, eq_iff (key x) j, find-sweep-some p full xs j r h)

  pub find-sweep :
      (p : Row → Bool) (t : List Row) (j : String) → find j (sweep p t t) ≡ keep_unless p (find j t)
  find-sweep p t j = elim (Option-cases (find j t)) [
    | inl gone ↦ rw gone (find-sweep-none p t t j gone)
    | inr (r, found) ↦ rw found (rw found at (find-sweep-some p t t j r found))
  ]

  pub any_of_find :
      (q : Row → Bool) (t : List Row) (k : String) (r : Row)
      → find k t ≡ some r
      → any q (rows_of t t) ≡ false
      → q r ≡ false
  any_of_find q t k r h a = find-rows_of q t t k r r h h a

  pub any-many :
      (p q : Row → Bool) (t : List Row)
      → any q (select p (rows_of t t)) ≡ true
      → (r : Row) × (find (key r) t ≡ some r) × (p r ≡ true) × (q r ≡ true)
  any-many p q t h =
      let (r, found, both) =
        any-rows_of (λ r. if p r then q r else false) t t
          (rw (any-select p q (rows_of t t)) at h) in
      (r, found, ground arith, ground arith)

  pub none-many :
      (p q : Row → Bool) (t : List Row)
      → any q (select p (rows_of t t)) ≡ false
      → (k : String) (r : Row) → find k t ≡ some r
      → p r ≡ true
      → q r ≡ false
  none-many p q t h k r found pr =
      let a =
        any_of_find (λ r. if p r then q r else false) t k r found
          (rw (any-select p q (rows_of t t)) at h) in
      ground arith
