-- ===== src/Pagination/Ranges.antt =====
-- `getPageRange` of src/common/utils/pagination.util.ts: the pages that a pager shows.
use Prim.Native.Nat.{◌≤◌}
use native.Mathlib.Decide.{dec_lt}
use secondhand_api.Prelude.{
  ℕ, zero, suc, ◌+◌, ◌-◌, ◌<◌, Bool, true, false, ◌||◌, List, [], ◌∷◌, ◌++◌, ◌≡◌, refl, arith, ltb,
  ltb→lt, eqb, any, min, max, Bool-cases, inl, inr,
}
use secondhand_api.Pagination.{PageMark, page, gap, gap_if, last_page, pages_from, get_page_range}

-- Whether a range shows a page.
abbrev pub is_page : ℕ → PageMark → Bool
is_page n (page m) = eqb n m
is_page n gap = false

abbrev pub shows : List PageMark → ℕ → Bool
shows range n = any (is_page n) range

-- Ascending pages from a bound on, up to another.
abbrev pub Ascending : ℕ → ℕ → List PageMark → Type 0
Ascending low high [] = Unit
Ascending low high (page n ∷ rest) = (low ≤ n) × (n ≤ high) × Ascending (suc n) high rest
Ascending low high (gap ∷ rest) = Ascending low high rest

shows-append : (xs ys : List PageMark) (n : ℕ) → shows (xs ++ ys) n ≡ (shows xs n || shows ys n)
shows-append [] ys n = refl
shows-append (x ∷ xs) ys n = ground (arith, shows-append xs ys n)

-- The run of pages from `left` shows those of its numbers.
shows-pages_from :
    (left rounds n : ℕ) → left ≤ n → n < left + rounds → shows (pages_from left rounds) n ≡ true
unfolding pages_from
shows-pages_from left zero n from to = absurd (omega arith)
shows-pages_from left (suc rounds) n from to = elim (Bool-cases (eqb n left)) [
  | inl here ↦ rw here refl
  | inr later ↦ rw later (shows-pages_from (suc left) rounds n (ground arith) (omega arith))
]

Ascending-weaken :
    (low low' high : ℕ) (xs : List PageMark)
    → low ≤ low'
    → Ascending low' high xs
    → Ascending low high xs
Ascending-weaken low low' high [] le up = tt
Ascending-weaken low low' high (page n ∷ rest) le up = (omega arith, up.1, up.2)
Ascending-weaken low low' high (gap ∷ rest) le up = Ascending-weaken low low' high rest le up

-- A run of pages, then ascending pages.
Ascending-pages_from :
    (low high left rounds : ℕ) (rest : List PageMark)
    → low ≤ left
    → left + rounds ≤ suc high
    → Ascending (left + rounds) high rest
    → Ascending low high (pages_from left rounds ++ rest)
unfolding pages_from
Ascending-pages_from low high left zero rest from to up =
    Ascending-weaken low (left + 0) high rest (omega arith) up
Ascending-pages_from low high left (suc rounds) rest from to up =
    let next : suc left + rounds ≡ left + suc rounds = omega arith in
    (
      from,
      omega arith,
      Ascending-pages_from (suc left) high (suc left) rounds rest (omega arith) (omega arith)
          (rw next up),
    )

Ascending-gap :
    (b : Bool) (low high : ℕ) (rest : List PageMark)
    → Ascending low high rest
    → Ascending low high (gap_if b ++ rest)
Ascending-gap true low high rest up = up
Ascending-gap false low high rest up = up

-- The last page, shown if it is not the first.
Ascending-last : (low total : ℕ) → (1 < total → low ≤ total) → Ascending low total (last_page total)
Ascending-last low total fits = elim (Bool-cases (ltb 1 total)) [
  | inl more ↦ rw more (fits (ltb→lt 1 total more), omega arith, tt)
  | inr one ↦ rw one tt
]

get_page_range-Ascending :
    (current_page total_pages delta : ℕ)
    → 1 ≤ current_page
    → current_page ≤ total_pages
    → Ascending 1 total_pages (get_page_range current_page total_pages delta)
unfolding get_page_range
get_page_range-Ascending current_page total_pages delta first last =
    let left = max 2 (current_page - delta) in
    let right = min (total_pages - 1) (current_page + delta) in
    (
      omega arith,
      omega arith,
      Ascending-gap (ltb 2 left) 2 total_pages _ (
          Ascending-pages_from 2 total_pages left (suc right - left) _ (omega arith) (omega arith) (
            Ascending-gap (ltb right (total_pages - 1)) (left + (suc right - left)) total_pages _
              (Ascending-last (left + (suc right - left)) total_pages (λ more. omega arith)))),
    )

shows-last : (total : ℕ) → 1 < total → shows (last_page total) total ≡ true
shows-last total more = ground arith

or-true : (a : Bool) → (a || true) ≡ true
or-true a = ground arith

-- A page that one of the later parts of a range shows.
shows-third :
    (a b c d : List PageMark) (n : ℕ) → shows b n ≡ true → shows (a ++ (b ++ (c ++ d))) n ≡ true
shows-third a b c d n h =
    rw (shows-append a (b ++ (c ++ d)) n, shows-append b (c ++ d) n, h) (or-true (shows a n))

or-last : (a b c : Bool) → (a || (b || (c || true))) ≡ true
or-last a b c = ground arith

shows-fourth :
    (a b c d : List PageMark) (n : ℕ) → shows d n ≡ true → shows (a ++ (b ++ (c ++ d))) n ≡ true
shows-fourth a b c d n h =
    rw (shows-append a (b ++ (c ++ d)) n, shows-append b (c ++ d) n, shows-append c d n, h)
      (or-last (shows a n) (shows b n) (shows c n))

module _ (current_page total_pages delta : ℕ) (first : 1 ≤ current_page)
    (last : current_page ≤ total_pages) where
  abbrev left : ℕ
  left = max 2 (current_page - delta)

  abbrev right : ℕ
  right = min (total_pages - 1) (current_page + delta)

  abbrev middle : List PageMark
  middle = pages_from left (suc right - left)

  get_page_range-shows_last :
      shows (get_page_range current_page total_pages delta) total_pages ≡ true
  unfolding get_page_range
  get_page_range-shows_last = elim (Bool-cases (eqb total_pages 1)) [
    | inl one ↦ rw one refl
    | inr more ↦ rw more (
        shows-fourth (gap_if (ltb 2 left)) middle (gap_if (ltb right (total_pages - 1)))
          (last_page total_pages) total_pages (shows-last total_pages (ground arith)))
  ]

  get_page_range-shows_near :
      (n : ℕ)
      → 1 < n
      → n < total_pages
      → current_page ≤ n + delta
      → n ≤ current_page + delta
      → shows (get_page_range current_page total_pages delta) n ≡ true
  unfolding get_page_range
  get_page_range-shows_near n above below near near' =
      let other : eqb n 1 ≡ false = ground arith in
      rw other (
        shows-third (gap_if (ltb 2 left)) middle (gap_if (ltb right (total_pages - 1)))
          (last_page total_pages) n
          (shows-pages_from left (suc right - left) n (omega arith) (omega arith)))

  shows_first : shows (get_page_range current_page total_pages delta) 1 ≡ true
  unfolding get_page_range
  shows_first = refl

  -- For a current page that is valid, the range shows ascending pages between the first and the last,
  -- both of these, and every page from `delta` below to `delta` above the current one.
  pub get_page_range_lem :
      Ascending 1 total_pages (get_page_range current_page total_pages delta)
      × (shows (get_page_range current_page total_pages delta) 1 ≡ true)
      × (shows (get_page_range current_page total_pages delta) total_pages ≡ true)
      × ((n : ℕ)
          → 1 ≤ n
          → n ≤ total_pages
          → current_page ≤ n + delta
          → n ≤ current_page + delta
          → shows (get_page_range current_page total_pages delta) n ≡ true)
  get_page_range_lem = (
    get_page_range-Ascending current_page total_pages delta first last,
    shows_first,
    get_page_range-shows_last,
    λ n from to near near'. elim (dec_lt 1 n) [
      | yes above ↦ elim (dec_lt n total_pages) [
        | yes below ↦ get_page_range-shows_near n above below near near'
        | no reached ↦ let e : n ≡ total_pages = omega arith in rw e get_page_range-shows_last
      ]
      | no low ↦ let e : n ≡ 1 = omega arith in rw e shows_first
    ],
  )
