-- ===== src/Orders/Transitions.antt =====
-- `validateStatusTransition` of src/modules/orders/orders.service.ts.
use Prim.Native.String.{◌++◌ as text_append}
use secondhand_api.Prelude.{String, not, ◌&&◌, List, [], ◌∷◌, ◌==◌}
use secondhand_api.Http.{bad_request, forbidden}
use secondhand_api.Exec.{Exec, throw_if, ◌>>◌}
use secondhand_api.Schema.{
  Order, OrderStatus, pending, payment_pending, paid, shipping, delivered, confirmed, cancelled,
  refunded, includes_status,
}

-- The value of a status, a string of that name.
order_status_name : OrderStatus → String
order_status_name pending = "PENDING"
order_status_name payment_pending = "PAYMENT_PENDING"
order_status_name paid = "PAID"
order_status_name shipping = "SHIPPING"
order_status_name delivered = "DELIVERED"
order_status_name confirmed = "CONFIRMED"
order_status_name cancelled = "CANCELLED"
order_status_name refunded = "REFUNDED"

unfoldable pub allowed_transitions : OrderStatus → List OrderStatus
allowed_transitions pending = payment_pending ∷ cancelled ∷ []
allowed_transitions payment_pending = paid ∷ cancelled ∷ []
allowed_transitions paid = shipping ∷ refunded ∷ []
allowed_transitions shipping = delivered ∷ []
allowed_transitions delivered = confirmed ∷ refunded ∷ []
allowed_transitions confirmed = []
allowed_transitions cancelled = []
allowed_transitions refunded = []

abbrev pub seller_only_status : List OrderStatus
seller_only_status = shipping ∷ delivered ∷ []

abbrev pub buyer_only_status : List OrderStatus
buyer_only_status = confirmed ∷ cancelled ∷ []

unfoldable pub not_allowed_message : OrderStatus → OrderStatus → String
unfolding order_status_name
not_allowed_message from to =
    text_append (order_status_name from)
      (text_append "에서 " (text_append (order_status_name to) "로 변경할 수 없습니다"))

module _ {S : Type 0} where
  unfoldable pub validate_status_transition :
      OrderStatus → OrderStatus → String → Order → Exec S (Unit {0})
  unfolding allowed_transitions
  validate_status_transition current new user_id order = do
    let is_buyer = order.buyer_id == user_id
    let is_seller = order.seller_id == user_id
    throw_if (not (includes_status new (allowed_transitions current)))
        (bad_request (not_allowed_message current new))
    throw_if (includes_status new seller_only_status && not is_seller)
        (forbidden "판매자만 이 상태로 변경할 수 있습니다")
    throw_if (includes_status new buyer_only_status && not is_buyer)
        (forbidden "구매자만 이 상태로 변경할 수 있습니다")
