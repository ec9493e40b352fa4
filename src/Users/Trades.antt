-- ===== src/Users/Trades.antt =====
-- What the statements on leaving, by `remove` of src/modules/users/users.service.ts, say of an order
-- and of a product, in words of their own, beside the conditions of the code.
use secondhand_api.Prelude.{String, Bool, true, false, ◌&&◌, ◌||◌, ◌≡◌, refl, ap, arith, ◌==◌, ◌∙◌}
use secondhand_api.Schema.{
  Order, OrderStatus, pending, payment_pending, paid, shipping, delivered, confirmed, cancelled,
  refunded, same_order_status, Product, ProductStatus, active, same_product_status,
}
use secondhand_api.World.{Backend}
use secondhand_api.Orders.OrdersService.{is_ongoing}
use secondhand_api.Users.UsersRepository.{is_unpaid_of, is_offer_of}

-- The user buys or sells in the order.
abbrev pub is_party : String → Order → Bool
is_party id o = o.buyer_id == id || o.seller_id == id

-- Nothing has been paid.
abbrev pub is_awaiting : OrderStatus → Bool
is_awaiting pending = true
is_awaiting payment_pending = true
is_awaiting _ = false

-- Paid, and not over.
abbrev pub is_under_way : OrderStatus → Bool
is_under_way paid = true
is_under_way shipping = true
is_under_way delivered = true
is_under_way _ = false

abbrev pub is_over : OrderStatus → Bool
is_over confirmed = true
is_over cancelled = true
is_over refunded = true
is_over _ = false

abbrev pub is_offered : ProductStatus → Bool
is_offered active = true
is_offered _ = false

pub over_lem : (s : OrderStatus) → is_awaiting s ≡ false → is_under_way s ≡ false → is_over s ≡ true
over_lem pending h k = cc
over_lem payment_pending h k = cc
over_lem paid h k = cc
over_lem shipping h k = cc
over_lem delivered h k = cc
over_lem confirmed h k = refl
over_lem cancelled h k = refl
over_lem refunded h k = refl

awaiting_lem :
    (s : OrderStatus)
    → (same_order_status s pending || same_order_status s payment_pending) ≡ is_awaiting s
awaiting_lem pending = refl
awaiting_lem payment_pending = refl
awaiting_lem paid = refl
awaiting_lem shipping = refl
awaiting_lem delivered = refl
awaiting_lem confirmed = refl
awaiting_lem cancelled = refl
awaiting_lem refunded = refl

under_way_lem :
    (s : OrderStatus)
    → (same_order_status s paid || same_order_status s shipping || same_order_status s delivered)
      ≡ is_under_way s
under_way_lem pending = refl
under_way_lem payment_pending = refl
under_way_lem paid = refl
under_way_lem shipping = refl
under_way_lem delivered = refl
under_way_lem confirmed = refl
under_way_lem cancelled = refl
under_way_lem refunded = refl

offered_lem : (s : ProductStatus) → same_product_status s active ≡ is_offered s
offered_lem ProductStatus.active = refl
offered_lem ProductStatus.reserved = refl
offered_lem ProductStatus.sold = refl
offered_lem ProductStatus.deleted = refl

or_comm : (x y : Bool) → (x || y) ≡ (y || x)
or_comm x y = ground arith

pub is_unpaid_lem :
    (id : String) (o : Order) → is_unpaid_of id o ≡ (is_party id o && is_awaiting o.status)
is_unpaid_lem id o =
    ap
      (λ c. c && (same_order_status o.status pending || same_order_status o.status payment_pending))
      (or_comm (o.seller_id == id) (o.buyer_id == id))
    ∙ ap (λ c. is_party id o && c) (awaiting_lem o.status)

pub is_offer_lem :
    (id : String) (p : Product) → is_offer_of id p ≡ (p.seller_id == id && is_offered p.status)
is_offer_lem id p = ap (λ c. p.seller_id == id && c) (offered_lem p.status)

module _ ⦃b : Backend⦄ where
  pub is_ongoing_lem : (o : Order) → is_ongoing o ≡ is_under_way o.status
  is_ongoing_lem o = under_way_lem o.status
