-- ===== src/Products/Matching.antt =====
-- What a search without a location asks for, by `search` of
-- src/modules/products/products.service.ts: the conditions of its four branches, and the same in
-- words of their own.
use Prim.Native.Nat.{◌≤◌}
use secondhand_api.Prelude.{
  truthy_text, ℕ, ◌<◌, String, Bool, true, false, ◌&&◌, ◌||◌, Option, none, some, ◌==◌, ◌≡◌, ◌↔◌,
  refl, ◌∙◌, arith, if◌then◌else◌, Bool-cases, inl, inr, given, leb, eqb, eq_iff,
}
use secondhand_api.Schema.{Product, ProductStatus, active, same_product_status}
use secondhand_api.World.{Backend}
use secondhand_api.Products.ProductsRepository.{
  given_status, status_or_active, if_text, if_number, keyword_filter,
}
use secondhand_api.Products.ProductsService.{SearchProductDto, search_options}

pub same_product_status_iff : (s t : ProductStatus) → (same_product_status s t ≡ true) ↔ (s ≡ t)
same_product_status_iff ProductStatus.active ProductStatus.active = (λ _. refl, λ _. refl)
same_product_status_iff ProductStatus.reserved ProductStatus.reserved = (λ _. refl, λ _. refl)
same_product_status_iff ProductStatus.sold ProductStatus.sold = (λ _. refl, λ _. refl)
same_product_status_iff ProductStatus.deleted ProductStatus.deleted = (λ _. refl, λ _. refl)
same_product_status_iff _ _ = (λ h. cc, λ h. cc)

given_text :
    (o : Option String) → truthy_text o ≡ true → (t : String) × (o ≡ some t) × ((t == "") ≡ false)
given_text none h = cc
given_text (some t) h = (t, refl, ground (arith, h))

truthy_of_given :
    (o : Option String) (t : String) → o ≡ some t → (t == "") ≡ false → truthy_text o ≡ true
truthy_of_given o t h full = rw (h, full) refl

if_text_iff :
    (o : Option String) (x : String)
    → (if_text o (λ t. x == t) ≡ true) ↔ ((t : String) → o ≡ some t → (t == "") ≡ false → x ≡ t)
if_text_iff none x = (λ _ t h full. cc, λ _. refl)
if_text_iff (some s) x = (
  λ h t same full. let e : s ≡ t = cc in ground (arith, h, full, e, eq_iff x s),
  λ h. elim (Bool-cases (s == "")) [
    | inl empty ↦ rw empty refl
    | inr full ↦ rw (full, (eq_iff x s).1 (h s refl full)) refl
  ],
)

if_min_iff :
    (o : Option ℕ) (x : ℕ) → (if_number o (λ n. leb n x) ≡ true) ↔ ((n : ℕ) → o ≡ some n → n ≤ x)
if_min_iff none x = (λ _ n h. cc, λ _. refl)
if_min_iff (some m) x = (
  λ h n same. let e : m ≡ n = cc in ground (arith, h, e),
  λ h. let le = h m refl in ground (arith, le),
)

if_max_iff :
    (o : Option ℕ) (x : ℕ)
    → (if_number o (λ n. leb x n) ≡ true) ↔ ((n : ℕ) → o ≡ some n → 0 < n → x ≤ n)
if_max_iff none x = (λ _ n h. cc, λ _. refl)
if_max_iff (some m) x = (
  λ h n same positive. let e : m ≡ n = cc in ground (arith, h, e, positive),
  λ h. elim (Bool-cases (eqb m 0)) [
    | inl zero_ ↦ rw zero_ refl
    | inr more ↦ let le = h m refl (ground (arith, more)) in ground (arith, more, le)
  ],
)

given_status_iff :
    (o : Option ProductStatus) (p : Product)
    → (given_status o p ≡ true) ↔ ((s : ProductStatus) → o ≡ some s → p.status ≡ s)
given_status_iff none p = (λ _ s h. cc, λ _. refl)
given_status_iff (some t) p = (
  λ h s same. let e : t ≡ s = cc in (same_product_status_iff p.status t).0 h ∙ e,
  λ h. (same_product_status_iff p.status t).1 (h t refl),
)

status_or_active_lem : (o : Option ProductStatus) → status_or_active o ≡ given o active
status_or_active_lem none = refl
status_or_active_lem (some s) = refl

module _ ⦃b : Backend⦄ where
  -- The condition of the branch that a request takes.
  unfoldable pub search_filter : SearchProductDto → Product → Bool
  search_filter dto =
      if truthy_text dto.keyword
      then keyword_filter (given dto.keyword "") (search_options dto)
      else if truthy_text dto.seller_id
      then (λ p. p.seller_id == given dto.seller_id "" && given_status dto.status p)
      else if truthy_text dto.category_id
      then (λ p.
          p.category_id == given dto.category_id ""
          && same_product_status p.status (status_or_active dto.status))
      else (λ p. same_product_status p.status (status_or_active dto.status))

  -- What the product of a search by keyword has.
  pub record HasKeyword (dto : SearchProductDto) (keyword : String) (p : Product) : Type 0 where
    pub text :
        (b.contains_insensitive keyword p.title || b.contains_insensitive keyword p.description)
        ≡ true
    pub category : (c : String) → dto.category_id ≡ some c → (c == "") ≡ false → p.category_id ≡ c
    pub at_least : (n : ℕ) → dto.min_price ≡ some n → n ≤ p.price
    pub at_most : (n : ℕ) → dto.max_price ≡ some n → 0 < n → p.price ≤ n
    pub status : p.status ≡ given dto.status active

  -- What the products of a request have: those of its keyword, else of its seller, else of its
  -- category, else all; of the status asked for, and without one active, except a seller's.
  pub data IsMatch (dto : SearchProductDto) (p : Product) : Type 0 where
    of_keyword :
        (keyword : String)
        → dto.keyword ≡ some keyword
        → (keyword == "") ≡ false
        → HasKeyword dto keyword p
        → IsMatch dto p
    of_seller :
        (seller_id : String)
        → truthy_text dto.keyword ≡ false
        → dto.seller_id ≡ some seller_id
        → (seller_id == "") ≡ false
        → p.seller_id ≡ seller_id
        → ((s : ProductStatus) → dto.status ≡ some s → p.status ≡ s)
        → IsMatch dto p
    of_category :
        (category_id : String)
        → truthy_text dto.keyword ≡ false
        → truthy_text dto.seller_id ≡ false
        → dto.category_id ≡ some category_id
        → (category_id == "") ≡ false
        → p.category_id ≡ category_id
        → p.status ≡ given dto.status active
        → IsMatch dto p
    of_any :
        truthy_text dto.keyword ≡ false
        → truthy_text dto.seller_id ≡ false
        → truthy_text dto.category_id ≡ false
        → p.status ≡ given dto.status active
        → IsMatch dto p

  module _ (dto : SearchProductDto) (p : Product) where
    at_status_iff :
        (same_product_status p.status (status_or_active dto.status) ≡ true)
        ↔ (p.status ≡ given dto.status active)
    at_status_iff =
        rw (status_or_active_lem dto.status)
          (same_product_status_iff p.status (given dto.status active))

    keyword_filter_iff :
        (keyword : String)
        → (keyword == "") ≡ false
        → (keyword_filter keyword (search_options dto) p ≡ true) ↔ HasKeyword dto keyword p
    unfolding keyword_filter
    keyword_filter_iff keyword full = (
      λ h. record {
        text = ground (arith, h, full);
        category = (if_text_iff dto.category_id p.category_id).0 (ground (arith, h));
        at_least = (if_min_iff dto.min_price p.price).0 (ground (arith, h));
        at_most = (if_max_iff dto.max_price p.price).0 (ground (arith, h));
        status = at_status_iff.0 (ground (arith, h));
      },
      λ h.
          rw
            (
              full,
              h.text,
              (if_text_iff dto.category_id p.category_id).1 h.category,
              (if_min_iff dto.min_price p.price).1 h.at_least,
              (if_max_iff dto.max_price p.price).1 h.at_most,
              at_status_iff.1 h.status,
            )
            refl,
    )

    search_filter-IsMatch : search_filter dto p ≡ true → IsMatch dto p
    unfolding search_filter
    search_filter-IsMatch h = elim (Bool-cases (truthy_text dto.keyword)) [
      | inl keyword ↦
          let (k, at, full) = given_text dto.keyword keyword in
          of_keyword k at full ((keyword_filter_iff k full).0 (rw (keyword, at) at h))
      | inr no_keyword ↦ elim (Bool-cases (truthy_text dto.seller_id)) [
        | inl seller ↦
            let (s, at, full) = given_text dto.seller_id seller in
            let both : (p.seller_id == s && given_status dto.status p) ≡ true =
              rw (no_keyword, seller, at) at h in
            of_seller s no_keyword at full ((eq_iff p.seller_id s).0 (ground (arith, both)))
              ((given_status_iff dto.status p).0 (ground (arith, both)))
        | inr no_seller ↦ elim (Bool-cases (truthy_text dto.category_id)) [
          | inl category ↦
              let (c, at, full) = given_text dto.category_id category in
              let both : (p.category_id == c
                    && same_product_status p.status (status_or_active dto.status))
                  ≡ true =
                rw (no_keyword, no_seller, category, at) at h in
              of_category c no_keyword no_seller at full
                ((eq_iff p.category_id c).0 (ground (arith, both)))
                (at_status_iff.0 (ground (arith, both)))
          | inr no_category ↦
              of_any no_keyword no_seller no_category
                (at_status_iff.0 (rw (no_keyword, no_seller, no_category) at h))
        ]
      ]
    ]

    filter_of_IsMatch : IsMatch dto p → search_filter dto p ≡ true
    unfolding search_filter
    filter_of_IsMatch (of_keyword k at full has) =
        rw (truthy_of_given dto.keyword k at full, at) ((keyword_filter_iff k full).1 has)
    filter_of_IsMatch (of_seller s no_keyword at full same at_status) =
        rw
          (
            no_keyword,
            truthy_of_given dto.seller_id s at full,
            at,
            (eq_iff p.seller_id s).1 same,
            (given_status_iff dto.status p).1 at_status,
          )
          refl
    filter_of_IsMatch (of_category c no_keyword no_seller at full same at_status) =
        rw
          (
            no_keyword,
            no_seller,
            truthy_of_given dto.category_id c at full,
            at,
            (eq_iff p.category_id c).1 same,
            at_status_iff.1 at_status,
          )
          refl
    filter_of_IsMatch (of_any no_keyword no_seller no_category at_status) =
        rw (no_keyword, no_seller, no_category) (at_status_iff.1 at_status)

    -- The code's condition is that of the request.
    pub search_filter_iff : (search_filter dto p ≡ true) ↔ IsMatch dto p
    search_filter_iff = (search_filter-IsMatch, filter_of_IsMatch)
