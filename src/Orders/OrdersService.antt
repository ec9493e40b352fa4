-- ===== src/Orders/OrdersService.antt =====
-- src/modules/orders/orders.service.ts, with the DTOs of src/modules/orders/dto. A field of a DTO
-- that is absent is `none`. `fuel` bounds the draws of an order number.
use secondhand_api.Prelude.{
  ℕ, ◌-◌, ◌*◌, String, Bool, not, ◌&&◌, ◌||◌, Option, none, some, List, [], ◌∷◌, ◌==◌, any, given,
  given_or_kept, ceil_div,
}
use secondhand_api.Http.{bad_request, forbidden, not_found}
use secondhand_api.Exec.{Exec, pure, or_throw, throw_if, ◌>>=◌, ◌>>◌}
use secondhand_api.Schema.{
  Order, OrderStatus, pending, payment_pending, paid, shipping, delivered, confirmed, cancelled,
  PaymentMethod, Product, active, reserved, sold, same_order_status, same_product_status,
  includes_status,
}
use secondhand_api.World.{Backend, World, new_date, new_id}
use secondhand_api.Products.ProductsRepository
use secondhand_api.Orders.OrdersRepository
use secondhand_api.Orders.OrdersRepository.{ListOptions, given_status}
use secondhand_api.Orders.Transitions.{validate_status_transition}

pub record CreateOrderDto : Type 0 where
  pub product_id : String
  pub total_amount : ℕ
  pub shipping_fee : Option ℕ
  pub recipient_name : Option String
  pub recipient_phone : Option String
  pub shipping_address : Option String
  pub shipping_postcode : Option String
  pub payment_method : Option PaymentMethod

pub record UpdateOrderDto : Type 0 where
  pub status : Option OrderStatus
  pub recipient_name : Option String
  pub recipient_phone : Option String
  pub shipping_address : Option String
  pub shipping_postcode : Option String
  pub tracking_number : Option String
  pub payment_method : Option PaymentMethod
  pub payment_id : Option String

pub record QueryOrdersDto : Type 0 where
  pub page : Option ℕ
  pub limit : Option ℕ
  pub status : Option OrderStatus

-- The role by which `findAll` lists.
pub data Side : Type 0 where
  buyer seller : Side

pub record OrderPage : Type 0 where
  pub items : List Order
  pub page : ℕ
  pub limit : ℕ
  pub total : ℕ
  pub total_pages : ℕ

-- The row that `create` stores; columns that it does not name have their defaults.
unfoldable pub new_order : String → ℕ → String → Product → CreateOrderDto → String → Order
new_order id now buyer_id product dto order_number = record {
  id = id;
  buyer_id = buyer_id;
  seller_id = product.seller_id;
  product_id = dto.product_id;
  order_number = order_number;
  total_amount = dto.total_amount;
  shipping_fee = given dto.shipping_fee 0;
  status = pending;
  recipient_name = dto.recipient_name;
  recipient_phone = dto.recipient_phone;
  shipping_address = dto.shipping_address;
  shipping_postcode = dto.shipping_postcode;
  tracking_number = none;
  payment_method = dto.payment_method;
  payment_id = none;
  paid_at = none;
  created_at = now;
  confirmed_at = none;
  completed_at = none;
  cancelled_at = none;
}

-- `data: updateOrderDto`
unfoldable pub update_data : UpdateOrderDto → Order → Order
update_data dto o = record o {
  status = given dto.status o.status;
  recipient_name = given_or_kept dto.recipient_name o.recipient_name;
  recipient_phone = given_or_kept dto.recipient_phone o.recipient_phone;
  shipping_address = given_or_kept dto.shipping_address o.shipping_address;
  shipping_postcode = given_or_kept dto.shipping_postcode o.shipping_postcode;
  tracking_number = given_or_kept dto.tracking_number o.tracking_number;
  payment_method = given_or_kept dto.payment_method o.payment_method;
  payment_id = given_or_kept dto.payment_id o.payment_id;
}

-- Buyer and seller of an order.
abbrev pub takes_part : String → Order → Bool
takes_part user_id o = o.buyer_id == user_id || o.seller_id == user_id

abbrev pub reserve : Product → Product
reserve p = record p { status = reserved }

abbrev pub release : Product → Product
release p = record p { status = active }

abbrev pub sell : ℕ → Product → Product
sell now p = record p { status = sold; sold_at = some now }

module _ ⦃b : Backend⦄ where
  -- The checks of `create`, up to where it begins to write.
  unfoldable pub check_create : String → CreateOrderDto → Exec World Product
  unfolding ProductsRepository.find_by_id
  check_create buyer_id dto = do
    found ← ProductsRepository.find_by_id dto.product_id
    product ← or_throw (not_found "상품을 찾을 수 없습니다") found
    throw_if (not (same_product_status product.status active)) (bad_request "판매 중인 상품이 아닙니다")
    throw_if (product.seller_id == buyer_id) (bad_request "자신의 상품은 구매할 수 없습니다")
    pure product

  -- The writes of `create`.
  unfoldable pub commit_create : ℕ → String → CreateOrderDto → Product → Exec World Order
  unfolding OrdersRepository.create ProductsRepository.update new_order new_id new_date
  commit_create fuel buyer_id dto product = do
    order_number ← OrdersRepository.generate_order_number fuel "ORD"
    id ← new_id
    now ← new_date
    order ← OrdersRepository.create (new_order id now buyer_id product dto order_number)
    ProductsRepository.update dto.product_id reserve
    pure order

  unfoldable pub create : ℕ → String → CreateOrderDto → Exec World Order
  create fuel buyer_id dto = do
    product ← check_create buyer_id dto
    commit_create fuel buyer_id dto product

  unfoldable pub find_by_id : String → Exec World Order
  unfolding OrdersRepository.find_by_id
  find_by_id id = do
    found ← OrdersRepository.find_by_id id
    or_throw (not_found "주문을 찾을 수 없습니다") found

  unfoldable pub find_one : String → String → Exec World Order
  unfolding find_by_id
  find_one id user_id = do
    order ← find_by_id id
    throw_if (not (takes_part user_id order)) (forbidden "주문 정보에 접근할 수 없습니다")
    pure order

  -- `ordersRepository.findByBuyer` or `findBySeller`
  unfoldable pub find_by_side : Side → String → ListOptions → Exec World (List Order)
  unfolding OrdersRepository.find_by_buyer OrdersRepository.find_by_seller
  find_by_side buyer user_id = OrdersRepository.find_by_buyer user_id
  find_by_side seller user_id = OrdersRepository.find_by_seller user_id

  abbrev pub side_id : Side → Order → String
  side_id buyer o = o.buyer_id
  side_id seller o = o.seller_id

  unfoldable pub find_all : String → QueryOrdersDto → Side → Exec World OrderPage
  unfolding find_by_side OrdersRepository.count
  find_all user_id query role = do
    let page = given query.page 1
    let limit = given query.limit 20
    let skip = (page - 1) * limit
    orders ←
        find_by_side role user_id (record { skip = skip; count = limit; status = query.status })
    total ← OrdersRepository.count (λ o. side_id role o == user_id && given_status query.status o)
    pure (record {
      items = orders;
      page = page;
      limit = limit;
      total = total;
      total_pages = ceil_div total limit;
    })

  -- `if (updateOrderDto.status) this.validateStatusTransition(…)`
  abbrev pub validate_given : Option OrderStatus → String → Order → Exec World (Unit {0})
  validate_given none user_id order = pure tt
  validate_given (some new) user_id order =
      validate_status_transition order.status new user_id order

  unfoldable pub update : String → String → UpdateOrderDto → Exec World Order
  unfolding OrdersRepository.find_by_id OrdersRepository.update update_data
  update id user_id dto = do
    found ← OrdersRepository.find_by_id id
    order ← or_throw (not_found "주문을 찾을 수 없습니다") found
    throw_if (not (takes_part user_id order)) (forbidden "주문 정보를 수정할 수 없습니다")
    validate_given dto.status user_id order
    OrdersRepository.update id (update_data dto)

  abbrev pub cancellable_statuses : List OrderStatus
  cancellable_statuses = pending ∷ payment_pending ∷ paid ∷ []

  unfoldable pub cancel : String → String → Exec World Order
  unfolding OrdersRepository.find_by_id OrdersRepository.update_status ProductsRepository.update
  cancel id user_id = do
    found ← OrdersRepository.find_by_id id
    order ← or_throw (not_found "주문을 찾을 수 없습니다") found
    throw_if (not (order.buyer_id == user_id)) (forbidden "주문을 취소할 수 없습니다")
    throw_if (not (includes_status order.status cancellable_statuses))
        (bad_request "취소할 수 없는 주문 상태입니다")
    cancelled_order ← OrdersRepository.update_status id cancelled
    ProductsRepository.update order.product_id release
    pure cancelled_order

  unfoldable pub confirm : String → String → Exec World Order
  unfolding OrdersRepository.find_by_id OrdersRepository.update_status ProductsRepository.update
      new_date
  confirm id user_id = do
    found ← OrdersRepository.find_by_id id
    order ← or_throw (not_found "주문을 찾을 수 없습니다") found
    throw_if (not (order.buyer_id == user_id)) (forbidden "주문을 확정할 수 없습니다")
    throw_if (not (same_order_status order.status delivered)) (bad_request "확정할 수 없는 주문 상태입니다")
    confirmed_order ← OrdersRepository.update_status id confirmed
    now ← new_date
    ProductsRepository.update order.product_id (sell now)
    pure confirmed_order

  unfoldable pub remove : String → Exec World Order
  unfolding OrdersRepository.find_by_id OrdersRepository.delete
  remove id = do
    found ← OrdersRepository.find_by_id id
    order ← or_throw (not_found "주문을 찾을 수 없습니다") found
    OrdersRepository.delete id

  abbrev pub is_ongoing : Order → Bool
  is_ongoing o =
      same_order_status o.status paid
      || same_order_status o.status shipping
      || same_order_status o.status delivered

  unfoldable pub has_ongoing_orders_by_user_id : String → Exec World Bool
  unfolding OrdersRepository.find_all
  has_ongoing_orders_by_user_id user_id = do
    ongoing_orders ←
        OrdersRepository.find_all (λ o. o.seller_id == user_id || o.buyer_id == user_id)
    pure (any is_ongoing ongoing_orders)
