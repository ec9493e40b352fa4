-- ===== src/Products/ProductsService.antt =====
-- src/modules/products/products.service.ts, with the DTOs of src/modules/products/dto. A field of a
-- DTO that is absent is `none`.
use secondhand_api.Prelude.{
  truthy_text, text_or_kept, ℕ, ◌-◌, ◌*◌, String, Bool, true, false, not, ◌&&◌, ◌||◌, Option, none,
  some, List, [], ◌==◌, eqb, length, if◌then◌else◌, given, given_or_kept, ceil_div,
}
use secondhand_api.Http.{bad_request, forbidden, not_found}
use secondhand_api.Exec.{Exec, pure, or_throw, throw_if, ignore_failure, ◌>>=◌, ◌>>◌}
use secondhand_api.Schema.{
  Product, ProductCondition, ProductStatus, active, deleted, same_product_status,
}
use secondhand_api.World.{Backend, World, new_date, new_id}
use secondhand_api.Products.ProductsRepository
use secondhand_api.Products.ProductsRepository.{
  ListOptions, SearchOptions, newest, given_status, status_or_active, truthy_number, keyword_filter,
}

pub record CreateProductDto : Type 0 where
  pub title : String
  pub description : String
  pub price : ℕ
  pub category_id : String
  pub condition : ProductCondition
  pub images : Option (List String)
  pub latitude : Option ℕ
  pub longitude : Option ℕ
  pub location : Option String

pub record UpdateProductDto : Type 0 where
  pub title : Option String
  pub description : Option String
  pub price : Option ℕ
  pub category_id : Option String
  pub condition : Option ProductCondition
  pub status : Option ProductStatus
  pub images : Option (List String)
  pub latitude : Option ℕ
  pub longitude : Option ℕ
  pub location : Option String

pub record SearchProductDto : Type 0 where
  pub keyword : Option String
  pub category_id : Option String
  pub min_price : Option ℕ
  pub max_price : Option ℕ
  pub status : Option ProductStatus
  pub seller_id : Option String
  pub latitude : Option ℕ
  pub longitude : Option ℕ
  pub radius_km : Option ℕ
  pub page : Option ℕ
  pub limit : Option ℕ

pub record ProductPage : Type 0 where
  pub items : List Product
  pub total : ℕ
  pub page : ℕ
  pub limit : ℕ
  pub total_pages : ℕ

-- One of the two coordinates alone.
abbrev pub half_given : Option ℕ → Option ℕ → Bool
half_given latitude longitude =
    truthy_number latitude && not (truthy_number longitude)
    || not (truthy_number latitude) && truthy_number longitude

-- The row that `create` stores; columns that it does not name have their defaults.
unfoldable pub new_product : String → ℕ → String → CreateProductDto → Product
new_product id now seller_id dto = record {
  id = id;
  seller_id = seller_id;
  category_id = dto.category_id;
  title = dto.title;
  description = dto.description;
  price = dto.price;
  condition = dto.condition;
  status = active;
  shipping_available = false;
  local_pickup = true;
  location = dto.location;
  latitude = dto.latitude;
  longitude = dto.longitude;
  images = given dto.images [];
  thumbnail = none;
  view_count = 0;
  created_at = now;
  sold_at = none;
}

-- The data of `update`.
unfoldable pub update_data : UpdateProductDto → Product → Product
update_data dto p = record p {
  title = text_or_kept dto.title p.title;
  description = text_or_kept dto.description p.description;
  price = given dto.price p.price;
  condition = given dto.condition p.condition;
  status = given dto.status p.status;
  images = given dto.images p.images;
  latitude = given_or_kept dto.latitude p.latitude;
  longitude = given_or_kept dto.longitude p.longitude;
  location = given_or_kept dto.location p.location;
  category_id = text_or_kept dto.category_id p.category_id;
}

-- `searchDto.radiusKm || 5`
abbrev pub radius_or_five : Option ℕ → ℕ
radius_or_five none = 5
radius_or_five (some r) = if eqb r 0 then 5 else r

abbrev pub page_result : List Product → ℕ → ℕ → ℕ → ProductPage
page_result items total page limit = record {
  items = items;
  total = total;
  page = page;
  limit = limit;
  total_pages = ceil_div total limit;
}

-- `.status` of the options of a search, in a list call
abbrev pub at_status : ℕ → ℕ → Option ProductStatus → ListOptions
at_status skip limit status = record { skip = skip; count = limit; status = status }

module _ ⦃b : Backend⦄ where
  unfoldable pub create : String → CreateProductDto → Exec World Product
  unfolding ProductsRepository.create new_product new_id new_date
  create seller_id dto = do
    throw_if (half_given dto.latitude dto.longitude) (bad_request "위도와 경도는 함께 제공되어야 합니다")
    id ← new_id
    now ← new_date
    ProductsRepository.create (new_product id now seller_id dto)

  -- The count of views goes up on its own; its failure is ignored.
  unfoldable pub find_by_id : String → Exec World Product
  unfolding ProductsRepository.find_by_id ProductsRepository.increment_view_count
  find_by_id id = do
    found ← ProductsRepository.find_by_id id
    product ← or_throw (not_found "상품을 찾을 수 없습니다") found
    ignore_failure (ProductsRepository.increment_view_count id)
    pure product

  unfoldable pub find_all : ℕ → ℕ → Exec World ProductPage
  unfolding ProductsRepository.find_many ProductsRepository.count
  find_all page limit = do
    let where_ = λ (p : Product). same_product_status p.status active
    products ← ProductsRepository.find_many where_ newest ((page - 1) * limit) limit
    total ← ProductsRepository.count where_
    pure (page_result products total page limit)

  -- The rows of a page and their total number.
  unfoldable pub listed :
      Exec World (List Product) → (Product → Bool) → ℕ → ℕ → Exec World ProductPage
  unfolding ProductsRepository.count
  listed find where_ page limit = do
    products ← find
    total ← ProductsRepository.count where_
    pure (page_result products total page limit)

  -- The branch of a search by location: the rows that are shown are counted.
  unfoldable pub search_location :
      (latitude longitude : ℕ) → SearchProductDto → Exec World ProductPage
  unfolding ProductsRepository.find_by_location
  search_location latitude longitude dto = do
    let page = given dto.page 1
    let limit = given dto.limit 20
    products ←
        ProductsRepository.find_by_location latitude longitude (radius_or_five dto.radius_km)
          (at_status ((page - 1) * limit) limit (some (status_or_active dto.status)))
    pure (page_result products (length products) page limit)

  abbrev pub search_options : SearchProductDto → SearchOptions
  search_options dto = record {
    skip = (given dto.page 1 - 1) * given dto.limit 20;
    count = given dto.limit 20;
    category_id = dto.category_id;
    min_price = dto.min_price;
    max_price = dto.max_price;
    status = some (status_or_active dto.status);
  }

  -- The other branches, in order: by keyword, by seller, by category, or all.
  unfoldable pub search_text : SearchProductDto → Exec World ProductPage
  unfolding ProductsRepository.search ProductsRepository.find_by_seller
      ProductsRepository.find_by_category ProductsRepository.find_many listed keyword_filter
  search_text dto =
      let page = given dto.page 1 in
      let limit = given dto.limit 20 in
      let skip = (page - 1) * limit in
      let status = status_or_active dto.status in
      let keyword = given dto.keyword "" in
      let seller_id = given dto.seller_id "" in
      let category_id = given dto.category_id "" in
      if truthy_text dto.keyword
      then listed (ProductsRepository.search keyword (search_options dto))
          (keyword_filter keyword (search_options dto)) page limit
      else if truthy_text dto.seller_id
      then listed (ProductsRepository.find_by_seller seller_id (at_status skip limit dto.status))
          (λ p. p.seller_id == seller_id && given_status dto.status p) page limit
      else if truthy_text dto.category_id
      then listed
          (ProductsRepository.find_by_category category_id (at_status skip limit (some status)))
          (λ p. p.category_id == category_id && same_product_status p.status status) page limit
      else listed
          (ProductsRepository.find_many (λ p. same_product_status p.status status) newest skip
            limit)
          (λ p. same_product_status p.status status) page limit

  unfoldable pub search : SearchProductDto → Exec World ProductPage
  unfolding search_location search_text
  search dto =
      if truthy_number dto.latitude && truthy_number dto.longitude
      then search_location (given dto.latitude 0) (given dto.longitude 0) dto
      else search_text dto

  unfoldable pub update : String → String → UpdateProductDto → Exec World Product
  unfolding ProductsRepository.find_by_id ProductsRepository.update update_data
  update id user_id dto = do
    found ← ProductsRepository.find_by_id id
    product ← or_throw (not_found "상품을 찾을 수 없습니다") found
    throw_if (not (product.seller_id == user_id)) (forbidden "본인의 상품만 수정할 수 있습니다")
    throw_if (same_product_status product.status deleted) (bad_request "삭제된 상품은 수정할 수 없습니다")
    throw_if (half_given dto.latitude dto.longitude) (bad_request "위도와 경도는 함께 제공되어야 합니다")
    ProductsRepository.update id (update_data dto)

  unfoldable pub remove : String → String → Exec World Product
  unfolding ProductsRepository.find_by_id ProductsRepository.soft_delete
  remove id user_id = do
    found ← ProductsRepository.find_by_id id
    product ← or_throw (not_found "상품을 찾을 수 없습니다") found
    throw_if (not (product.seller_id == user_id)) (forbidden "본인의 상품만 삭제할 수 있습니다")
    throw_if (same_product_status product.status deleted) (bad_request "이미 삭제된 상품입니다")
    ProductsRepository.soft_delete id

  unfoldable pub find_my_products : String → ℕ → ℕ → Option ProductStatus → Exec World ProductPage
  unfolding ProductsRepository.find_by_seller listed
  find_my_products user_id page limit status =
      listed
        (ProductsRepository.find_by_seller user_id (at_status ((page - 1) * limit) limit status))
        (λ p. p.seller_id == user_id && given_status status p) page limit

  unfoldable pub ensure_product_exists : String → Exec World (Unit {0})
  unfolding ProductsRepository.find_by_id
  ensure_product_exists product_id = do
    found ← ProductsRepository.find_by_id product_id
    product ← or_throw (not_found "상품을 찾을 수 없습니다") found
    pure tt
