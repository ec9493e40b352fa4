-- ===== src/Orders/Endings.antt =====
-- How an order ends: `cancel`, `confirm` and a cancellation by `update`, of
-- src/modules/orders/orders.service.ts, and what each does to the product.
use secondhand_api.Prelude.{
  none, ℕ, suc, String, true, false, some, ◌≡◌, refl, ap, sym, subst, ◌==◌, eq_self, given,
}
use secondhand_api.Http.{ok}
use secondhand_api.Schema.{
  Order, delivered, confirmed, cancelled, Product, active, sold, includes_status, same_order_status,
}
use secondhand_api.World.{Backend, World, order_at, product_at}
use secondhand_api.Orders.Permissions.{Permitted, validate_status_transition_iff}
use secondhand_api.Prisma.Delegate.{rival, update_unique-free}
use secondhand_api.Orders.OrdersRepository
use secondhand_api.Orders.OrdersService
use secondhand_api.Orders.OrdersService.{UpdateOrderDto, update_data, takes_part, release, sell}

module _ ⦃b : Backend⦄ where
  -- One order and one product have changed and the clock has been read, and nothing else, of these
  -- two tables or of the rest of the state.
  pub record OnlyChanged (w w' : World) (id : String) (o : Order) (product_id : String)
      (p : Product) : Type 0 where
    pub order : order_at w' id ≡ some o
    pub product : product_at w' product_id ≡ some p
    pub other_orders : (k : String) → (id == k) ≡ false → order_at w' k ≡ order_at w k
    pub other_products : (k : String) → (product_id == k) ≡ false → product_at w' k ≡ product_at w k
    pub rest : record w { orders = w'.orders; products = w'.products; readings = w'.readings } ≡ w'

  module _ (w : World) (o : Order) (p : Product) (f : Order → Order) (g : Product → Product)
      (m : ℕ) where
    -- The state after an update of an order and one of a product.
    abbrev ended : World
    ended = record w {
      orders = (b.order.update o.id f w.orders).1;
      products = (b.product.update p.id g w.products).1;
      readings = m;
    }

    ended-OnlyChanged :
        order_at w o.id ≡ some o
        → product_at w p.id ≡ some p
        → ((r : Order) → (f r).id ≡ r.id)
        → ((r : Product) → (g r).id ≡ r.id)
        → OnlyChanged w ended o.id (f o) p.id (g p)
    ended-OnlyChanged found there keeps keeps' =
        let order = λ (k : String). b.order.find-update o.id k f w.orders keeps in
        let product = λ (k : String). b.product.find-update p.id k g w.products keeps' in
        record {
          order = rw (order o.id, eq_self o.id, found) refl;
          product = rw (product p.id, eq_self p.id, there) refl;
          other_orders = λ k ne. rw (order k, ne) refl;
          other_products = λ k ne. rw (product k, ne) refl;
          rest = refl;
        }

  module _ (w : World) (o : Order) (p : Product) (found : order_at w o.id ≡ some o)
      (there : product_at w p.id ≡ some p) (deal : o.product_id ≡ p.id) where
    -- The buyer of a pending, unpaid or paid order can cancel it: the order becomes cancelled with
    -- the time of the call, its product is active again, and nothing else changes but the clock.
    pub cancel-succeeds :
        includes_status o.status OrdersService.cancellable_statuses ≡ true
        → (w' : World) × (OrdersService.cancel o.id o.buyer_id w
            ≡ (ok (record o { status = cancelled; cancelled_at = some (b.date w.readings) }), w'))
          × OnlyChanged w w' o.id
              (record o { status = cancelled; cancelled_at = some (b.date w.readings) })
              p.id
              (record p { status = active })
    unfolding OrdersService.cancel
    cancel-succeeds in_time =
        let f =
          λ (r : Order). record r { status = cancelled; cancelled_at = some (b.date w.readings) } in
        (
          ended w o p f release (suc w.readings),
          rw
              (
                found,
                eq_self o.buyer_id,
                in_time,
                b.order.update_row,
                found,
                deal,
                b.product.update_row,
                there,
              )
              refl,
          ended-OnlyChanged w o p f release (suc w.readings) found there (λ r. refl) (λ r. refl),
        )

    -- The buyer of a delivered order can confirm it: the order becomes confirmed and the product
    -- sold, each with a time of the call, and nothing else changes but the clock.
    pub confirm-succeeds :
        o.status ≡ delivered
        → (w' : World) × (OrdersService.confirm o.id o.buyer_id w
            ≡ (ok (record o { status = confirmed; confirmed_at = some (b.date w.readings) }), w'))
          × OnlyChanged w w' o.id
              (record o { status = confirmed; confirmed_at = some (b.date w.readings) })
              p.id
              (record p { status = sold; sold_at = some (b.date (suc w.readings)) })
    unfolding OrdersService.confirm
    confirm-succeeds arrived =
        let f =
          λ (r : Order). record r { status = confirmed; confirmed_at = some (b.date w.readings) } in
        let g = sell (b.date (suc w.readings)) in
        let is_delivered : same_order_status o.status delivered ≡ true = rw arrived refl in
        (
          ended w o p f g (suc (suc w.readings)),
          rw
              (
                found,
                eq_self o.buyer_id,
                is_delivered,
                b.order.update_row,
                found,
                deal,
                b.product.update_row,
                there,
              )
              refl,
          ended-OnlyChanged w o p f g (suc (suc w.readings)) found there (λ r. refl) (λ r. refl),
        )

  -- A buyer who cancels an order by `update`, where the check of the move lets them and no other
  -- order has its payment id, gets it stored as cancelled with its time of cancellation left as it
  -- was. All the rest stays: every other order, and every product, so that a reserved product stays
  -- reserved, with its order cancelled.
  pub update-cancels_order_only :
      (dto : UpdateOrderDto) (o : Order) (w : World)
      → order_at w o.id ≡ some o
      → Permitted o.status cancelled o.buyer_id o
      → dto.status ≡ some cancelled
      → rival b.order o.id (update_data dto o) w.orders ≡ none
      → (w' : World) × (OrdersService.update o.id o.buyer_id dto w ≡ (ok (update_data dto o), w'))
        × ((update_data dto o).status ≡ cancelled)
        × ((update_data dto o).cancelled_at ≡ o.cancelled_at)
        × (order_at w' o.id ≡ some (update_data dto o))
        × ((k : String) → (o.id == k) ≡ false → order_at w' k ≡ order_at w k)
        × (record w { orders = w'.orders } ≡ w')
  unfolding OrdersService.update OrdersRepository.update
  update-cancels_order_only dto o w found permitted set free =
      let passes = (validate_status_transition_iff o.status cancelled o.buyer_id o w).1 permitted in
      let member : takes_part o.buyer_id o ≡ true = rw (eq_self o.buyer_id) refl in
      let checked : OrdersService.validate_given dto.status o.buyer_id o w ≡ (ok tt, w) =
        subst (λ s. OrdersService.validate_given s o.buyer_id o w ≡ (ok tt, w)) (sym set) passes in
      let at = λ (k : String). b.order.find-update o.id k (update_data dto) w.orders (λ r. refl) in
      (
        record w { orders = (b.order.update o.id (update_data dto) w.orders).1 },
        rw
            (
              found,
              member,
              checked,
              update_unique-free b.order o.id (update_data dto) w.orders o found free,
            )
            refl,
        ap (λ s. given s o.status) set,
        refl,
        rw (at o.id, eq_self o.id, found) refl,
        λ k ne. rw (at k, ne) refl,
        refl,
      )
