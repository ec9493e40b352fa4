-- ===== src/Orders/Requests.antt =====
-- A sequence of calls of the methods of src/modules/orders/orders.service.ts that write, each run to
-- its end before the next, whether it returns or throws.
use secondhand_api.Prelude.{ℕ, String, List, [], ◌∷◌}
use secondhand_api.World.{Backend, World}
use secondhand_api.Market.View.{Step, here, next}
use secondhand_api.Market.Invariant.{NoDoubleSale, Reach-NoDoubleSale}
use secondhand_api.Orders.OrdersService
use secondhand_api.Orders.OrdersService.{CreateOrderDto, UpdateOrderDto}
use secondhand_api.Orders.Refinement.{view, update-Step, cancel-Step, confirm-Step, remove-Step}
use secondhand_api.Orders.Ordering.{create-Step}

pub data Request : Type 0 where
  create : (fuel : ℕ) (buyer_id : String) → CreateOrderDto → Request
  update : (id user_id : String) → UpdateOrderDto → Request
  cancel : (id user_id : String) → Request
  confirm : (id user_id : String) → Request
  remove : (id : String) → Request

module _ ⦃b : Backend⦄ where
  unfoldable pub serve : Request → World → World
  serve (create fuel buyer_id dto) w = (OrdersService.create fuel buyer_id dto w).1
  serve (update id user_id dto) w = (OrdersService.update id user_id dto w).1
  serve (cancel id user_id) w = (OrdersService.cancel id user_id w).1
  serve (confirm id user_id) w = (OrdersService.confirm id user_id w).1
  serve (remove id) w = (OrdersService.remove id w).1

  unfoldable pub serve_all : List Request → World → World
  unfolding serve
  serve_all [] w = w
  serve_all (r ∷ rs) w = serve_all rs (serve r w)

  -- One call, whatever its arguments and however it ends, is one step of the abstract market.
  pub serve-Step : (r : Request) (w : World) → Step (view w) (view (serve r w))
  unfolding serve
  serve-Step (create fuel buyer_id dto) w = create-Step fuel buyer_id dto w
  serve-Step (update id user_id dto) w = update-Step id user_id w dto
  serve-Step (cancel id user_id) w = cancel-Step id user_id w
  serve-Step (confirm id user_id) w = confirm-Step id user_id w
  serve-Step (remove id) w = remove-Step id w

  -- Where no open order's product is for sale and no product has two open orders, the same holds
  -- after any sequence of calls of the order service, one after the other.
  pub serve_all-NoDoubleSale :
      (rs : List Request) (w : World) → NoDoubleSale (view w) → NoDoubleSale (view (serve_all rs w))
  unfolding serve_all
  serve_all-NoDoubleSale [] w n = n
  serve_all-NoDoubleSale (r ∷ rs) w n =
      serve_all-NoDoubleSale rs (serve r w) (Reach-NoDoubleSale n (next here (serve-Step r w)))
