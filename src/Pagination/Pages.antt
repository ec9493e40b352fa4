-- ===== src/Pagination/Pages.antt =====
-- What the offset pages of src/common/utils/pagination.util.ts add up to.
use Prim.Native.Nat.{◌≤◌}
use native.Mathlib.Nat.{zero-add, suc-add}
use mathlib.Core.Option
use secondhand_api.Prelude.{
  ℕ, zero, suc, ◌+◌, ◌-◌, ◌*◌, ◌<◌, true, false, none, some, List, [], ◌∷◌, ◌++◌, ◌≡◌, refl, ◌↔◌,
  arith, ltb, ceil_div, length, take, drop, get_last?, min, Bool-cases, inl, inr, ap, ◌∙◌,
  if◌then◌else◌,
}
use secondhand_api.Pagination.{
  get_skip, get_take, get_total_pages, create_meta, is_valid_page, cursor_paginate,
}

-- `Math.ceil` is the least number of pages that hold all items.
ceil_div-le_iff : (total limit k : ℕ) → 0 < limit → (ceil_div total limit ≤ k) ↔ (total ≤ k * limit)
ceil_div-le_iff total limit k pos = (λ h. grind arith, λ h. grind arith)

-- The total number of pages holds all items, and one page fewer does not.
pub get_total_pages-covers :
    (total limit : ℕ)
    → 0 < limit
    → (total ≤ get_total_pages total limit * limit)
      × ((k : ℕ) → total ≤ k * limit → get_total_pages total limit ≤ k)
unfolding get_total_pages
get_total_pages-covers total limit pos = (
  (ceil_div-le_iff total limit _ pos).0 (omega arith),
  λ k. (ceil_div-le_iff total limit k pos).1,
)

-- The page of a list that a query with `skip` and `take` returns.
abbrev pub page_of {ℓ} : {A : Type ℓ} → List A → ℕ → ℕ → List A
page_of xs page limit = take (get_take limit) (drop (get_skip page limit) xs)

-- The first n pages, one after the other.
abbrev pub pages {ℓ} : {A : Type ℓ} → List A → ℕ → ℕ → List A
pages xs limit zero = []
pages xs limit (suc n) = pages xs limit n ++ page_of xs (suc n) limit

module _ {ℓ} {A : Type ℓ} where
  take-add : (m n : ℕ) (xs : List A) → take m xs ++ take n (drop m xs) ≡ take (m + n) xs
  take-add zero n xs = rw zero-add
  take-add (suc m) zero [] = rw suc-add
  take-add (suc m) (suc n) [] = rw suc-add
  take-add (suc m) n (x ∷ xs) = rw (suc-add, take-add m n xs)

  take-all : (n : ℕ) (xs : List A) → length xs ≤ n → take n xs ≡ xs
  take-all zero [] h = refl
  take-all zero (x ∷ xs) h = absurd (omega arith)
  take-all (suc n) [] h = refl
  take-all (suc n) (x ∷ xs) h = ap (λ r. x ∷ r) (take-all n xs (omega arith))

  -- The pages one to n are the first n * limit items.
  pages-eq-take : (xs : List A) (limit n : ℕ) → pages xs limit n ≡ take (n * limit) xs
  unfolding get_skip get_take
  pages-eq-take xs limit zero = let e : 0 * limit ≡ 0 = omega arith in rw e refl
  pages-eq-take xs limit (suc n) =
      let back : suc n - 1 ≡ n = omega arith in
      let sum : suc n * limit ≡ n * limit + limit = grind arith in
      rw (pages-eq-take xs limit n, back, sum) (take-add (n * limit) limit xs)

  -- Read one after the other, the pages from the first to the last that `getTotalPages` counts give
  -- every item of the list exactly once and in order.
  pub pages_complete :
      (xs : List A) (limit : ℕ)
      → 0 < limit
      → pages xs limit (get_total_pages (length xs) limit) ≡ xs
  pages_complete xs limit pos =
      let total = get_total_pages (length xs) limit in
      pages-eq-take xs limit total
      ∙ take-all (total * limit) xs (get_total_pages-covers (length xs) limit pos).0

-- A page comes before the last exactly if items remain after it.
lt-ceil_div_iff : (total limit k : ℕ) → 0 < limit → (k < ceil_div total limit) ↔ (k * limit < total)
lt-ceil_div_iff total limit k pos =
    let (to, from) = ceil_div-le_iff total limit k pos in (λ h. grind arith, λ h. grind arith)

skipped_iff : (page limit : ℕ) → 0 < limit → (1 < page) ↔ (0 < (page - 1) * limit)
skipped_iff page limit pos = (λ h. grind arith, λ h. grind arith)

-- A page is valid exactly if it is from 1 on and an item stands on it.
pub is_valid_page_iff :
    (page total limit : ℕ)
    → 0 < limit
    → (is_valid_page page total limit ≡ true) ↔ ((1 ≤ page) × (get_skip page limit < total))
unfolding is_valid_page get_total_pages get_skip
is_valid_page_iff page total limit pos =
    let (to, from) = lt-ceil_div_iff total limit (page - 1) pos in
    (λ h. (ground arith, to (ground arith)), λ h. let lt = from h.1 in ground arith)

-- The metadata of a page, from 1 on: another page is said to follow exactly if items remain after
-- this one, and one to precede exactly if items were skipped; the next page that is named is the
-- following number and valid, and the previous one is the preceding number and from 1 on.
pub create_meta-neighbours :
    (total page limit : ℕ)
    → 1 ≤ page
    → 0 < limit
    → let meta = create_meta total (record { page = page; limit = limit }) in
      ((meta.has_next_page ≡ true) ↔ (page * limit < total))
      × ((meta.has_previous_page ≡ true) ↔ (0 < get_skip page limit))
      × ((n : ℕ)
          → (meta.next_page ≡ some n) ↔ ((n ≡ page + 1) × (is_valid_page n total limit ≡ true)))
      × ((n : ℕ) → (meta.previous_page ≡ some n) ↔ ((n + 1 ≡ page) × (1 ≤ n)))
unfolding create_meta is_valid_page get_total_pages get_skip
create_meta-neighbours total page limit first pos =
    let (to, from) = lt-ceil_div_iff total limit page pos in
    let (to', from') = skipped_iff page limit pos in
    (
      (λ h. to (ground arith), λ h. let lt = from h in ground arith),
      (λ h. to' (ground arith), λ h. let lt = from' h in ground arith),
      λ n. (λ h. (ground arith, ground arith), λ h. ground arith),
      λ n. (λ h. (ground arith, ground arith), λ h. ground arith),
    )

module _ {ℓ} {A : Type ℓ} where
  length-take : (n : ℕ) (xs : List A) → length (take n xs) ≡ min n (length xs)
  length-take zero xs = omega arith
  length-take (suc n) [] = omega arith
  length-take (suc n) (x ∷ xs) = omega (arith, length-take n xs)

  take-take : (n : ℕ) (xs : List A) → take n (take (suc n) xs) ≡ take n xs
  take-take zero xs = refl
  take-take (suc n) [] = refl
  take-take (suc n) (x ∷ xs) = ap (λ r. x ∷ r) (take-take n xs)

-- A query by cursor asks for one item more than the limit. Given the first items of what remains,
-- that many, the page is the first `limit` items that remain; another page follows exactly if more
-- remain; and then the cursor, for a positive limit, is that of the last item of the page.
pub cursor_paginate_lem :
    {A C : Type 0} (rest : List A) (limit : ℕ) (get_cursor : A → C)
    → let result = cursor_paginate (take (suc limit) rest) limit get_cursor in
      (result.items ≡ take limit rest)
      × ((result.has_next_page ≡ true) ↔ (limit < length rest))
      × (result.next_cursor ≡ (
          if ltb limit (length rest)
          then Option.map get_cursor (get_last? (take limit rest))
          else none))
unfolding cursor_paginate
cursor_paginate_lem rest limit get_cursor =
    let count = length-take (suc limit) rest in
    elim (Bool-cases (ltb limit (length (take (suc limit) rest)))) [
      | inl more ↦
          let lt : limit < length rest = ground (arith, count) in
          let more' : ltb limit (length rest) ≡ true = ground arith in
          rw (more, more', take-take limit rest) (refl, (λ _. lt, λ _. refl), refl)
      | inr last ↦
          let few : length rest ≤ limit = ground (arith, count) in
          let last' : ltb limit (length rest) ≡ false = ground arith in
          rw (last, last', take-all (suc limit) rest (omega arith), take-all limit rest few)
            (refl, (λ h. cc, λ h. absurd (omega arith)), refl)
    ]
