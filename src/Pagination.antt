-- ===== src/Pagination.antt =====
-- src/common/utils/pagination.util.ts: pages and cursors. A page number or a limit is a number from
-- 0; the DTOs admit those from 1.
pub mod Pages
pub mod Ranges
use secondhand_api.Prelude.{
  ℕ, zero, suc, ◌+◌, ◌-◌, ◌*◌, String, Bool, true, false, ◌&&◌, Option, none, some, List, [], ◌∷◌,
  ltb, leb, ceil_div, length, take, get_last?, if◌then◌else◌, min, max, ◌++◌,
}
use mathlib.Core.Option

-- src/common/types/pagination.types.ts
pub data SortOrder : Type 0 where
  asc desc : SortOrder

pub record PaginationOptions : Type 0 where
  pub page : ℕ
  pub limit : ℕ

pub record PaginationMeta : Type 0 where
  pub total : ℕ
  pub page : ℕ
  pub limit : ℕ
  pub total_pages : ℕ
  pub has_next_page : Bool
  pub has_previous_page : Bool
  pub next_page : Option ℕ
  pub previous_page : Option ℕ

pub record PaginatedResult (A : Type 0) : Type 0 where
  pub items : List A
  pub meta : PaginationMeta

pub record CursorPaginatedResult (A : Type 0) (C : Type 0) : Type 0 where
  pub items : List A
  pub next_cursor : Option C
  pub has_next_page : Bool

unfoldable pub get_total_pages : ℕ → ℕ → ℕ
get_total_pages total limit = ceil_div total limit

unfoldable pub create_meta : ℕ → PaginationOptions → PaginationMeta
create_meta total options =
    let page = options.page in
    let limit = options.limit in
    let total_pages = ceil_div total limit in
    record {
      total = total;
      page = page;
      limit = limit;
      total_pages = total_pages;
      has_next_page = ltb page total_pages;
      has_previous_page = ltb 1 page;
      next_page = if ltb page total_pages then some (page + 1) else none;
      previous_page = if ltb 1 page then some (page - 1) else none;
    }

unfoldable pub get_skip : ℕ → ℕ → ℕ
get_skip page limit = (page - 1) * limit

unfoldable pub get_take : ℕ → ℕ
get_take limit = limit

unfoldable pub is_valid_page : ℕ → ℕ → ℕ → Bool
unfolding get_total_pages
is_valid_page page total limit = leb 1 page && leb page (get_total_pages total limit)

-- PaginationDto and PaginationPipe (src/common/pipe/pagination.pipe.ts).
pub record PaginationDto : Type 0 where
  pub page : Option ℕ
  pub limit : Option ℕ
  pub sort_by : Option String
  pub sort_order : Option SortOrder

pub record RequiredOptions : Type 0 where
  pub page : ℕ
  pub limit : ℕ
  pub sort_by : String
  pub sort_order : SortOrder

abbrev or_default {ℓ} : {A : Type ℓ} → Option A → A → A
or_default none d = d
or_default (some a) d = a

unfoldable pub transform : PaginationDto → RequiredOptions
transform value = record {
  page = or_default value.page 1;
  limit = or_default value.limit 10;
  sort_by = or_default value.sort_by "updatedAt";
  sort_order = or_default value.sort_order desc;
}

module _ {A : Type 0} where
  unfoldable pub paginate : List A → ℕ → PaginationOptions → PaginatedResult A
  unfolding create_meta
  paginate items total options = record { items = items; meta = create_meta total options }

  unfoldable pub create_empty_result : PaginationOptions → PaginatedResult A
  unfolding paginate
  create_empty_result options = paginate [] 0 options

  -- `hasNextPage && paginatedData.length > 0 ? getCursor(last) : null`
  abbrev cursor_of : {C : Type 0} → Bool → (A → C) → List A → Option C
  cursor_of true get_cursor xs = Option.map get_cursor (get_last? xs)
  cursor_of false get_cursor xs = none

  unfoldable pub cursor_paginate : {C : Type 0} → List A → ℕ → (A → C) → CursorPaginatedResult A C
  cursor_paginate data_ limit get_cursor =
      let has_next_page = ltb limit (length data_) in
      let paginated_data = if has_next_page then take limit data_ else data_ in
      record {
        items = paginated_data;
        next_cursor = cursor_of has_next_page get_cursor paginated_data;
        has_next_page = has_next_page;
      }

-- An entry of a page range: a page, or the mark '...'.
pub data PageMark : Type 0 where
  page : ℕ → PageMark
  gap : PageMark

-- `for (let i = left; i <= right; i++) range.push(i);`, by the number of rounds.
unfoldable pub pages_from : ℕ → ℕ → List PageMark
pages_from left zero = []
pages_from left (suc n) = page left ∷ pages_from (suc left) n

abbrev pub gap_if : Bool → List PageMark
gap_if b = if b then gap ∷ [] else []

abbrev pub last_page : ℕ → List PageMark
last_page total_pages = if ltb 1 total_pages then page total_pages ∷ [] else []

-- `totalPages - 1` may be -1 where there is no page: `right` is compared, never shown, below 2.
unfoldable pub get_page_range : ℕ → ℕ → ℕ → List PageMark
unfolding pages_from
get_page_range current_page total_pages delta =
    let left = max 2 (current_page - delta) in
    let right = min (total_pages - 1) (current_page + delta) in
    let right_gap = gap_if (ltb right (total_pages - 1)) in
    page 1
    ∷ (gap_if (ltb 2 left)
        ++ (pages_from left (suc right - left) ++ (right_gap ++ last_page total_pages)))
