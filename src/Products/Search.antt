-- ===== src/Products/Search.antt =====
-- What `search` of src/modules/products/products.service.ts finds: its pages against its totals.
use Prim.Native.Nat.{◌≤◌}
use secondhand_api.Prelude.{
  truthy_text, any, leb, sym, eq_self, ℕ, zero, suc, ◌<◌, Bool, true, false, ◌&&◌, some, List, [],
  ◌∷◌, ◌++◌, ◌==◌, ◌≡◌, refl, ap, ◌∙◌, arith, Bool-cases, inl, inr, length, take, select, given,
  ceil_div,
}
use secondhand_api.Http.{Result, ok, err}
use secondhand_api.Schema.{Product, same_product_status}
use secondhand_api.World.{Backend, World, product_at}
use secondhand_api.Pagination.{get_total_pages, get_skip, get_take}
use secondhand_api.Pagination.Pages.{page_of, pages, pages_complete}
use secondhand_api.Products.ProductsRepository.{
  newest, given_status, status_or_active, truthy_number, keyword_filter, find_by_location,
  find_many,
}
use secondhand_api.Products.Matching.{search_filter, IsMatch, search_filter_iff}
use secondhand_api.Prisma.Delegate.{is_sorted}
use secondhand_api.Products.ProductsService
use secondhand_api.Products.ProductsService.{SearchProductDto, ProductPage, search_options}

-- A request with both coordinates is a search by location.
abbrev pub located : SearchProductDto → Bool
located dto = truthy_number dto.latitude && truthy_number dto.longitude

-- No product is newer than the one before it.
abbrev pub is_newest_first : List Product → Bool
is_newest_first [] = true
is_newest_first (p ∷ []) = true
is_newest_first (p ∷ q ∷ rest) =
    let later = is_newest_first (q ∷ rest) in leb q.created_at p.created_at && later

module _ ⦃b : Backend⦄ where
  -- The rows that the database finds for a request, in its order.
  abbrev pub matches : SearchProductDto → World → List Product
  matches dto w = b.product.find_sorted (search_filter dto) newest w.products

  module _ (dto : SearchProductDto) where
    filter_keyword :
        truthy_text dto.keyword ≡ true
        → search_filter dto ≡ keyword_filter (given dto.keyword "") (search_options dto)
    unfolding search_filter
    filter_keyword keyword = rw keyword refl

    filter_seller :
        truthy_text dto.keyword ≡ false
        → truthy_text dto.seller_id ≡ true
        → search_filter dto
          ≡ (λ p. p.seller_id == given dto.seller_id "" && given_status dto.status p)
    unfolding search_filter
    filter_seller no_keyword seller = rw (no_keyword, seller) refl

    filter_category :
        truthy_text dto.keyword ≡ false
        → truthy_text dto.seller_id ≡ false
        → truthy_text dto.category_id ≡ true
        → search_filter dto ≡ (λ p.
          p.category_id == given dto.category_id ""
          && same_product_status p.status (status_or_active dto.status))
    unfolding search_filter
    filter_category no_keyword no_seller category = rw (no_keyword, no_seller, category) refl

    filter_all :
        truthy_text dto.keyword ≡ false
        → truthy_text dto.seller_id ≡ false
        → truthy_text dto.category_id ≡ false
        → search_filter dto ≡ (λ p. same_product_status p.status (status_or_active dto.status))
    unfolding search_filter
    filter_all no_keyword no_seller no_category = rw (no_keyword, no_seller, no_category) refl

  search_lem :
      (dto : SearchProductDto) (w : World)
      → located dto ≡ false
      → let limit = given dto.limit 20 in
        let total = length (matches dto w) in
        ProductsService.search dto w ≡ (
          ok (record {
            items = page_of (matches dto w) (given dto.page 1) limit;
            total = total;
            page = given dto.page 1;
            limit = limit;
            total_pages = get_total_pages total limit;
          }),
          w,
        )
  unfolding ProductsService.search ProductsService.search_text ProductsService.listed
      get_total_pages get_skip get_take keyword_filter
  search_lem dto w away = elim (Bool-cases (truthy_text dto.keyword)) [
    | inl keyword ↦ rw (away, keyword, ← filter_keyword dto keyword, b.product.length_sorted) refl
    | inr no_keyword ↦ elim (Bool-cases (truthy_text dto.seller_id)) [
      | inl seller ↦
          rw
            (
              away,
              no_keyword,
              seller,
              ← filter_seller dto no_keyword seller,
              b.product.length_sorted,
            )
            refl
      | inr no_seller ↦ elim (Bool-cases (truthy_text dto.category_id)) [
        | inl category ↦
            rw
              (
                away,
                no_keyword,
                no_seller,
                category,
                ← filter_category dto no_keyword no_seller category,
                b.product.length_sorted,
              )
              refl
        | inr no_category ↦
            rw
              (
                away,
                no_keyword,
                no_seller,
                no_category,
                ← filter_all dto no_keyword no_seller no_category,
                b.product.length_sorted,
              )
              refl
      ]
    ]
  ]

  abbrev pub items_of : Result ProductPage → List Product
  items_of (ok page) = page.items
  items_of (err e) = []

  -- The items of the pages one to n of a search, one after the other.
  unfoldable pub collect : SearchProductDto → World → ℕ → List Product
  collect dto w zero = []
  collect dto w (suc n) =
      collect dto w n ++ items_of (ProductsService.search (record dto { page = some (suc n) }) w).0

  collect-eq-pages :
      (dto : SearchProductDto) (w : World) (n : ℕ)
      → located dto ≡ false
      → collect dto w n ≡ pages (matches dto w) (given dto.limit 20) n
  unfolding collect search_filter keyword_filter
  collect-eq-pages dto w zero away = refl
  collect-eq-pages dto w (suc n) away =
      let shown = ap (λ r. items_of r.0) (search_lem (record dto { page = some (suc n) }) w away) in
      rw (collect-eq-pages dto w n away, shown) refl

  newest_asym : (p q : Product) → newest p q ≡ true → newest q p ≡ false
  newest_asym p q h = ground arith

  sorted-newest_first : (ps : List Product) → is_sorted newest ps ≡ true → is_newest_first ps ≡ true
  sorted-newest_first [] h = refl
  sorted-newest_first (p ∷ []) h = refl
  sorted-newest_first (p ∷ q ∷ rest) h =
      let later = sorted-newest_first (q ∷ rest) (ground (arith, h)) in ground (arith, h, later)

  matches-newest_first :
      (dto : SearchProductDto) (w : World) → is_newest_first (matches dto w) ≡ true
  matches-newest_first dto w =
      sorted-newest_first (matches dto w)
        (b.product.sorted (search_filter dto) newest w.products newest_asym)

  matched_found :
      (dto : SearchProductDto) (w : World) (p : Product)
      → product_at w p.id ≡ some p
      → IsMatch dto p
      → any (λ x. x.id == p.id) (matches dto w) ≡ true
  matched_found dto w p there wanted =
      let is_p = λ (x : Product). x.id == p.id in
      elim (Bool-cases (any is_p (matches dto w))) [
        | inl found ↦ found
        | inr missed ↦
            let none_ =
              sym (b.product.any_sorted (search_filter dto) newest is_p w.products) ∙ missed in
            let other =
              b.product.none_many (search_filter dto) is_p w.products none_ p.id p there
                ((search_filter_iff dto p).1 wanted) in
            absurd (let e = sym other ∙ eq_self p.id in cc)
      ]

  found_matched :
      (dto : SearchProductDto) (w : World) (q : Product → Bool)
      → any q (matches dto w) ≡ true
      → (p : Product) × (product_at w p.id ≡ some p) × IsMatch dto p × (q p ≡ true)
  found_matched dto w q found =
      let (p, there, passes, holds) =
        b.product.some_many (search_filter dto) q w.products
          (sym (b.product.any_sorted (search_filter dto) newest q w.products) ∙ found) in
      (p, there, (search_filter_iff dto p).0 passes, holds)

  -- A search without a location and with a positive limit returns. The items of its pages, from the
  -- first to the last one after the other, are as many as the total that it tells, each no newer
  -- than the one before it; among them is every stored product that matches the request, and they
  -- are such products only.
  pub search_complete :
      (dto : SearchProductDto) (w : World)
      → located dto ≡ false
      → 0 < given dto.limit 20
      → (r : ProductPage) × (ProductsService.search dto w ≡ (ok r, w))
        × (r.total ≡ length (collect dto w r.total_pages))
        × (is_newest_first (collect dto w r.total_pages) ≡ true)
        × ((p : Product)
            → product_at w p.id ≡ some p
            → IsMatch dto p
            → any (λ x. x.id == p.id) (collect dto w r.total_pages) ≡ true)
        × ((q : Product → Bool)
            → any q (collect dto w r.total_pages) ≡ true
            → (p : Product) × (product_at w p.id ≡ some p) × IsMatch dto p × (q p ≡ true))
  search_complete dto w away pos =
      let limit = given dto.limit 20 in
      let total = length (matches dto w) in
      let all =
        collect-eq-pages dto w (get_total_pages total limit) away
        ∙ pages_complete (matches dto w) limit pos in
      (
        record {
          items = page_of (matches dto w) (given dto.page 1) limit;
          total = total;
          page = given dto.page 1;
          limit = limit;
          total_pages = get_total_pages total limit;
        },
        search_lem dto w away,
        ap length (sym all),
        ap is_newest_first all ∙ matches-newest_first dto w,
        λ p there wanted. ap (any (λ x. x.id == p.id)) all ∙ matched_found dto w p there wanted,
        λ q found. found_matched dto w q (ap (any q) (sym all) ∙ found),
      )

  length-select-le : (p : Product → Bool) (xs : List Product) → length (select p xs) ≤ length xs
  length-select-le p [] = omega arith
  length-select-le p (x ∷ xs) = ground (arith, length-select-le p xs)

  length-take-le_count : (n : ℕ) (xs : List Product) → length (take n xs) ≤ n
  length-take-le_count zero xs = omega arith
  length-take-le_count (suc n) [] = omega arith
  length-take-le_count (suc n) (x ∷ xs) = omega (arith, length-take-le_count n xs)

  one_page : (total limit : ℕ) → 0 < limit → total ≤ limit → ceil_div total limit ≤ 1
  one_page total limit pos le = grind arith

  -- A search by location with a positive limit returns, and its total is the number of products on
  -- the page shown: it never tells of more than one page, however many products match.
  pub search-located_total :
      (dto : SearchProductDto) (w : World)
      → located dto ≡ true
      → 0 < given dto.limit 20
      → (r : ProductPage) × (ProductsService.search dto w ≡ (ok r, w))
        × (r.total ≡ length r.items)
        × (r.total_pages ≤ 1)
  unfolding ProductsService.search ProductsService.search_location find_by_location find_many
  search-located_total dto w near pos =
      let limit = given dto.limit 20 in
      rw near (
        _,
        refl,
        refl,
        one_page _ limit pos
            (omega (arith, length-select-le _ (take limit _), length-take-le_count limit _)),
      )
