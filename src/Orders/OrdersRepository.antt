-- ===== src/Orders/OrdersRepository.antt =====
-- src/modules/orders/repositories/orders.repository.ts, as in Products/ProductsRepository.
use Prim.Native.String.{◌++◌ as text_append}
use secondhand_api.Prelude.{
  ℕ, zero, suc, ◌/◌, ◌%◌, String, Bool, true, ◌&&◌, Option, none, some, List, ◌==◌, ltb, take, drop,
  length,
}
use secondhand_api.Http.{ok, exhausted}
use secondhand_api.Exec.{Exec, pure, throw, ◌>>=◌}
use secondhand_api.Prisma.Delegate.{update_unique}
use secondhand_api.Schema.{
  Order, OrderStatus, paid, delivered, confirmed, cancelled, refunded, same_order_status,
}
use secondhand_api.World.{Backend, World, order_at, or_reject, new_date, random_below}

-- orderBy: { createdAt: 'desc' }
abbrev pub newest : Order → Order → Bool
newest o p = ltb p.created_at o.created_at

pub record ListOptions : Type 0 where
  pub skip : ℕ
  pub count : ℕ
  pub status : Option OrderStatus

-- `...(params?.status && { status: params.status })`
abbrev pub given_status : Option OrderStatus → Order → Bool
given_status none o = true
given_status (some s) o = same_order_status o.status s

-- The digit of a number below 10.
digit : ℕ → String
digit zero = "0"
digit (suc zero) = "1"
digit (suc (suc zero)) = "2"
digit (suc (suc (suc zero))) = "3"
digit (suc (suc (suc (suc zero)))) = "4"
digit (suc (suc (suc (suc (suc zero))))) = "5"
digit (suc (suc (suc (suc (suc (suc zero)))))) = "6"
digit (suc (suc (suc (suc (suc (suc (suc zero))))))) = "7"
digit (suc (suc (suc (suc (suc (suc (suc (suc zero)))))))) = "8"
digit _ = "9"

-- `n.toString().padStart(6, '0')`, for n below 1000000
unfoldable pub six_digits : ℕ → String
unfolding digit
six_digits n = text_append (digit (n / 100000 % 10)) (
    text_append (digit (n / 10000 % 10)) (
      text_append (digit (n / 1000 % 10))
        (text_append (digit (n / 100 % 10)) (text_append (digit (n / 10 % 10)) (digit (n % 10))))))

module _ ⦃b : Backend⦄ where
  -- `${prefix}-${dateStr}-${random}`
  unfoldable pub order_number : String → ℕ → ℕ → String
  unfolding six_digits
  order_number prefix date random =
      text_append prefix
        (text_append "-" (text_append (b.compact_date date) (text_append "-" (six_digits random))))

  unfoldable pub create : Order → Exec World Order
  create o w =
      let (r, t) = b.order.create o w.orders in (or_reject "P2002" r, record w { orders = t })

  unfoldable pub find_by_id : String → Exec World (Option Order)
  find_by_id id w = (ok (order_at w id), w)

  unfoldable pub find_by_order_number : String → Exec World (Option Order)
  find_by_order_number n w = (ok (b.order.find_first (λ o. n == o.order_number) w.orders), w)

  unfoldable pub find_many :
      (Order → Bool) → (Order → Order → Bool) → ℕ → ℕ → Exec World (List Order)
  find_many where_ before skip count w =
      (ok (take count (drop skip (b.order.find_sorted where_ before w.orders))), w)

  -- The same with neither order nor bounds.
  unfoldable pub find_all : (Order → Bool) → Exec World (List Order)
  find_all where_ w = (ok (b.order.find_many where_ w.orders), w)

  unfoldable pub count : (Order → Bool) → Exec World ℕ
  count where_ w = (ok (length (b.order.find_many where_ w.orders)), w)

  -- `update`, for data that may name the unique payment_id.
  unfoldable pub update : String → (Order → Order) → Exec World Order
  update id f w = let (r, t) = update_unique b.order id f w.orders in (r, record w { orders = t })

  -- `update`, for data that names no unique column.
  unfoldable pub set_columns : String → (Order → Order) → Exec World Order
  set_columns id f w =
      let (r, t) = b.order.update id f w.orders in (or_reject "P2025" r, record w { orders = t })

  -- The review of an order that is deleted goes with it (onDelete: Cascade).
  abbrev pub cascade : String → Option Order → b.review.Table → b.review.Table
  cascade id none reviews = reviews
  cascade id (some _) reviews = b.review.delete_many (λ r. r.order_id == id) reviews

  unfoldable pub delete : String → Exec World Order
  delete id w =
      let (r, t) = b.order.delete id w.orders in
      (or_reject "P2025" r, record w { orders = t; reviews = cascade id r w.reviews })

  unfoldable pub find_by_buyer : String → ListOptions → Exec World (List Order)
  unfolding find_many
  find_by_buyer buyer_id p =
      find_many (λ o. o.buyer_id == buyer_id && given_status p.status o) newest p.skip p.count

  unfoldable pub find_by_seller : String → ListOptions → Exec World (List Order)
  unfolding find_many
  find_by_seller seller_id p =
      find_many (λ o. o.seller_id == seller_id && given_status p.status o) newest p.skip p.count

  unfoldable pub find_by_product : String → ListOptions → Exec World (List Order)
  unfolding find_many
  find_by_product product_id p =
      find_many (λ o. o.product_id == product_id && given_status p.status o) newest p.skip p.count

  -- The `updateData` of `updateStatus`: a status, and the time at which it was reached.
  unfoldable pub status_data : OrderStatus → Exec World (Order → Order)
  unfolding new_date
  status_data paid = do now ← new_date; pure (λ o. record o { status = paid; paid_at = some now })
  status_data confirmed = do
    now ← new_date
    pure (λ o. record o { status = confirmed; confirmed_at = some now })
  status_data delivered = do
    now ← new_date
    pure (λ o. record o { status = delivered; completed_at = some now })
  status_data cancelled = do
    now ← new_date
    pure (λ o. record o { status = cancelled; cancelled_at = some now })
  status_data refunded = do
    now ← new_date
    pure (λ o. record o { status = refunded; cancelled_at = some now })
  status_data s = pure (λ o. record o { status = s })

  unfoldable pub update_status : String → OrderStatus → Exec World Order
  unfolding status_data set_columns
  update_status id s = do data_ ← status_data s; set_columns id data_

  -- The `while (exists)` loop, on fuel.
  unfoldable pub generate_order_number : ℕ → String → Exec World String
  unfolding new_date random_below find_by_order_number
  generate_order_number zero prefix = throw exhausted
  generate_order_number (suc fuel) prefix = do
    date ← new_date
    random ← random_below 1000000
    existing ← find_by_order_number (order_number prefix date random)
    elim existing [
      | none ↦ pure (order_number prefix date random)
      | some _ ↦ generate_order_number fuel prefix
    ]
