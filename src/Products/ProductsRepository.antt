-- ===== src/Products/ProductsRepository.antt =====
-- src/modules/products/repositories/products.repository.ts. The relations that a call includes in
-- its result (`include`, `select`) are left out: a row stands for them. A change given to `update`
-- is a function on rows.
use secondhand_api.Prelude.{
  ℕ, ◌+◌, String, Bool, true, false, not, ◌||◌, ◌&&◌, eqb, leb, select, Option, none, some, List,
  ◌==◌, ltb, take, drop, length,
}
use secondhand_api.Http.{ok}
use secondhand_api.Exec.{Exec, pure, ◌>>=◌}
use secondhand_api.Schema.{Product, ProductStatus, active, deleted, same_product_status}
use secondhand_api.World.{Backend, World, product_at, or_reject}

-- orderBy: { createdAt: 'desc' }
abbrev pub newest : Product → Product → Bool
newest p q = ltb q.created_at p.created_at

-- The options of the list calls: skip, take and a status.
pub record ListOptions : Type 0 where
  pub skip : ℕ
  pub count : ℕ
  pub status : Option ProductStatus

-- `...(status && { status })`
abbrev pub given_status : Option ProductStatus → Product → Bool
given_status none p = true
given_status (some s) p = same_product_status p.status s

-- `status || ProductStatus.ACTIVE`
abbrev pub status_or_active : Option ProductStatus → ProductStatus
status_or_active none = active
status_or_active (some s) = s

-- A number that JavaScript takes for true.
abbrev pub truthy_number : Option ℕ → Bool
truthy_number none = false
truthy_number (some n) = not (eqb n 0)

-- `...(x ? [{ column: x }] : [])` and the like
abbrev pub if_text : Option String → (String → Bool) → Bool
if_text none test = true
if_text (some t) test = t == "" || test t

abbrev pub if_number : Option ℕ → (ℕ → Bool) → Bool
if_number none test = true
if_number (some n) test = eqb n 0 || test n

-- The options of `search`.
pub record SearchOptions : Type 0 where
  pub skip : ℕ
  pub count : ℕ
  pub category_id : Option String
  pub min_price : Option ℕ
  pub max_price : Option ℕ
  pub status : Option ProductStatus

module _ ⦃b : Backend⦄ where
  unfoldable pub create : Product → Exec World Product
  create p w =
      let (r, t) = b.product.create p w.products in (or_reject "P2002" r, record w { products = t })

  unfoldable pub find_by_id : String → Exec World (Option Product)
  find_by_id id w = (ok (product_at w id), w)

  unfoldable pub find_many :
      (Product → Bool) → (Product → Product → Bool) → ℕ → ℕ → Exec World (List Product)
  find_many where_ before skip count w =
      (ok (take count (drop skip (b.product.find_sorted where_ before w.products))), w)

  unfoldable pub count : (Product → Bool) → Exec World ℕ
  count where_ w = (ok (length (b.product.find_many where_ w.products)), w)

  unfoldable pub update : String → (Product → Product) → Exec World Product
  update id f w =
      let (r, t) = b.product.update id f w.products in
      (or_reject "P2025" r, record w { products = t })

  -- The hard delete.
  unfoldable pub delete : String → Exec World Product
  delete id w =
      let (r, t) = b.product.delete id w.products in
      (or_reject "P2025" r, record w { products = t })

  unfoldable pub soft_delete : String → Exec World Product
  unfolding update
  soft_delete id = update id (λ p. record p { status = deleted })

  unfoldable pub increment_view_count : String → Exec World Product
  unfolding update
  increment_view_count id = update id (λ p. record p { view_count = p.view_count + 1 })

  unfoldable pub find_by_seller : String → ListOptions → Exec World (List Product)
  unfolding find_many
  find_by_seller seller_id o =
      find_many (λ p. p.seller_id == seller_id && given_status o.status p) newest o.skip o.count

  unfoldable pub find_by_category : String → ListOptions → Exec World (List Product)
  unfolding find_many
  find_by_category category_id o =
      find_many
        (λ p.
          p.category_id == category_id && same_product_status p.status (status_or_active o.status))
        newest o.skip o.count

  -- The condition of a search by keyword.
  unfoldable pub keyword_filter : String → SearchOptions → Product → Bool
  keyword_filter keyword o p =
      (keyword == ""
        || b.contains_insensitive keyword p.title
        || b.contains_insensitive keyword p.description)
      && if_text o.category_id (λ c. p.category_id == c)
      && if_number o.min_price (λ n. leb n p.price)
      && if_number o.max_price (λ n. leb p.price n)
      && same_product_status p.status (status_or_active o.status)

  unfoldable pub search : String → SearchOptions → Exec World (List Product)
  unfolding find_many
  search keyword o = find_many (keyword_filter keyword o) newest o.skip o.count

  abbrev is_near : (latitude longitude radius_km : ℕ) → Option ℕ → Option ℕ → Bool
  is_near latitude longitude radius_km (some lat) (some lon) =
      not (eqb lat 0) && not (eqb lon 0) && b.within latitude longitude lat lon radius_km
  is_near latitude longitude radius_km _ _ = false

  abbrev is_given {ℓ} : {A : Type ℓ} → Option A → Bool
  is_given none = false
  is_given (some _) = true

  unfoldable pub find_by_location :
      (latitude longitude radius_km : ℕ) → ListOptions → Exec World (List Product)
  unfolding find_many
  find_by_location latitude longitude radius_km o = do
    products ←
        find_many
          (λ p.
            is_given p.latitude
            && is_given p.longitude
            && same_product_status p.status (status_or_active o.status))
          newest o.skip o.count
    pure (select (λ p. is_near latitude longitude radius_km p.latitude p.longitude) products)
