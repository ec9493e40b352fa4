-- ===== src/Orders/Refinement.antt =====
-- Every method of src/modules/orders/orders.service.ts that writes is a step of the market.
use secondhand_api.Prelude.{
  ℕ, suc, String, true, Option, none, some, ◌≡◌, refl, ◌⊎◌, inl, inr, ◌==◌, arith, eq_iff,
  Bool-cases, Option-cases, given,
}
use secondhand_api.Http.{Exception, ok, err}
use secondhand_api.Schema.{
  Order, OrderStatus, pending, payment_pending, paid, delivered, confirmed, cancelled,
  order_conflicts, Product, same_order_status, includes_status,
}
use secondhand_api.World.{Backend, World, order_at, product_at}
use secondhand_api.Market.View.{
  View, set_at, alter_at, Transition, is_cancellable, SameDeal, Step, idle, move, cancel, confirm,
  remove,
}
use secondhand_api.Orders.Permissions.{validate_status_transition_cases}
use secondhand_api.Prisma.Delegate.{update_unique_cases}
use secondhand_api.Orders.OrdersRepository
use secondhand_api.Orders.OrdersService
use secondhand_api.Orders.OrdersService.{
  CreateOrderDto, UpdateOrderDto, new_order, update_data, takes_part, reserve, release, sell,
}

module _ ⦃b : Backend⦄ where
  abbrev pub view : World → View
  view w = record { orders = order_at w; products = product_at w }

  pub same_rows : (w : World) → Step (view w) (view w)
  same_rows w = idle (record { orders = λ k. refl; products = λ k. refl })

  -- No stored row has the id of an order that clashes with none.
  pub fresh_of_free :
      (o : Order) (w : World)
      → b.order.find_first (order_conflicts o) w.orders ≡ none
      → order_at w o.id ≡ none
  fresh_of_free o w free = elim (Option-cases (order_at w o.id)) [
    | inl gone ↦ gone
    | inr (x, found) ↦
        let clash = b.order.none_first (order_conflicts o) w.orders free o.id x found in
        let same = b.order.key_of_found o.id w.orders x found in
        ground (arith, clash, same, eq_iff o.id x.id)
  ]

  -- What `update` by id does to a table, where the row is there.
  set_of_update :
      (id : String) (f : Order → Order) (o : Order) (w : World)
      → ((r : Order) → (f r).id ≡ r.id)
      → order_at w id ≡ some o
      → (k : String)
      → b.order.find_unique k (b.order.update id f w.orders).1 ≡ set_at id (f o) (order_at w) k
  set_of_update id f o w same found k =
      ground (arith, b.order.find-update id k f w.orders same, found, eq_iff id k)

  update_data-SameDeal : (dto : UpdateOrderDto) (o : Order) → SameDeal o (update_data dto o)
  unfolding update_data
  update_data-SameDeal dto o = record { id = refl; buyer = refl; seller = refl; product = refl }

  -- The write of `update` is a move, if the status that is given, if any, may be reached.
  move_of_update :
      (id : String) (dto : UpdateOrderDto) (o : Order) (w : World)
      → order_at w id ≡ some o
      → (given dto.status o.status ≡ o.status) ⊎ Transition o.status (given dto.status o.status)
      → Step
          (view w)
          (view (record w { orders = (b.order.update id (update_data dto) w.orders).1 }))
  unfolding update_data
  move_of_update id dto o w found goes =
      move id o (update_data dto o) found (update_data-SameDeal dto o) goes
        (set_of_update id (update_data dto) o w (λ r. refl) found) (λ k. refl)

  validate_given_cases :
      (given_status : Option OrderStatus) (user_id : String) (o : Order) (w : World)
      → (OrdersService.validate_given given_status user_id o w ≡ (ok tt, w))
          × ((given given_status o.status ≡ o.status)
              ⊎ Transition o.status (given given_status o.status))
        ⊎ ((e : Exception) × (OrdersService.validate_given given_status user_id o w ≡ (err e, w)))
  validate_given_cases none user_id o w = inl (refl, inl refl)
  validate_given_cases (some t) user_id o w =
      elim (validate_status_transition_cases o.status t user_id o w) [
        | inl (passes, permitted) ↦ inl (passes, inr permitted.moves)
        | inr (e, refused) ↦ inr (e, refused)
      ]

  -- What an update by id does to the products, present or not.
  pub alter_of_update :
      (id : String) (f : Product → Product) (w : World)
      → ((p : Product) → (f p).id ≡ p.id)
      → (k : String)
      → b.product.find_unique k (b.product.update id f w.products).1
        ≡ alter_at id f (product_at w) k
  alter_of_update id f w same k = b.product.find-update id k f w.products same

  abbrev cancel_data : ℕ → Order → Order
  cancel_data now o = record o { status = cancelled; cancelled_at = some now }

  abbrev confirm_data : ℕ → Order → Order
  confirm_data now o = record o { status = confirmed; confirmed_at = some now }

  cancel_of_update :
      (id : String) (now m : ℕ) (o : Order) (w : World)
      → order_at w id ≡ some o
      → is_cancellable o.status ≡ true
      → Step (view w) (
          view (record w {
            orders = (b.order.update id (cancel_data now) w.orders).1;
            products = (b.product.update o.product_id release w.products).1;
            readings = m;
          }))
  cancel_of_update id now m o w found able =
      cancel id o (cancel_data now o) release found
        (record { id = refl; buyer = refl; seller = refl; product = refl }) able refl (λ p. refl)
        (set_of_update id (cancel_data now) o w (λ r. refl) found)
        (alter_of_update o.product_id release w (λ p. refl))

  confirm_of_update :
      (id : String) (now later m : ℕ) (o : Order) (w : World)
      → order_at w id ≡ some o
      → o.status ≡ delivered
      → Step (view w) (
          view (record w {
            orders = (b.order.update id (confirm_data now) w.orders).1;
            products = (b.product.update o.product_id (sell later) w.products).1;
            readings = m;
          }))
  confirm_of_update id now later m o w found arrived =
      confirm id o (confirm_data now o) (sell later) found
        (record { id = refl; buyer = refl; seller = refl; product = refl }) arrived refl (λ p. refl)
        (set_of_update id (confirm_data now) o w (λ r. refl) found)
        (alter_of_update o.product_id (sell later) w (λ p. refl))

  cancellable_of :
      (s : OrderStatus)
      → includes_status s OrdersService.cancellable_statuses ≡ true
      → is_cancellable s ≡ true
  cancellable_of pending h = refl
  cancellable_of payment_pending h = refl
  cancellable_of paid h = refl
  cancellable_of _ h = cc

  delivered_of : (s : OrderStatus) → same_order_status s delivered ≡ true → s ≡ delivered
  delivered_of delivered h = refl
  delivered_of _ h = cc

  module _ (id user_id : String) (w : World) where
    pub update-Step :
        (dto : UpdateOrderDto) → Step (view w) (view (OrdersService.update id user_id dto w).1)
    unfolding OrdersService.update OrdersRepository.update
    update-Step dto = elim (Option-cases (order_at w id)) [
      | inl gone ↦ rw gone (same_rows w)
      | inr (o, found) ↦ elim (Bool-cases (takes_part user_id o)) [
        | inl member ↦ elim (validate_given_cases dto.status user_id o w) [
          | inl (passes, goes) ↦
              elim (update_unique_cases b.order id (update_data dto) w.orders o found) [
                | inl stored ↦
                    rw (found, member, passes, stored) (move_of_update id dto o w found goes)
                | inr taken ↦ rw (found, member, passes, taken) (same_rows w)
              ]
          | inr (e, refused) ↦ rw (found, member, refused) (same_rows w)
        ]
        | inr outsider ↦ rw (found, outsider) (same_rows w)
      ]
    ]

    pub cancel-Step : Step (view w) (view (OrdersService.cancel id user_id w).1)
    unfolding OrdersService.cancel
    cancel-Step = elim (Option-cases (order_at w id)) [
      | inl gone ↦ rw gone (same_rows w)
      | inr (o, found) ↦ elim (Bool-cases (o.buyer_id == user_id)) [
        | inr outsider ↦ rw (found, outsider) (same_rows w)
        | inl mine ↦
            elim (Bool-cases (includes_status o.status OrdersService.cancellable_statuses)) [
              | inr late ↦ rw (found, mine, late) (same_rows w)
              | inl in_time ↦
                  let write =
                    cancel_of_update id (b.date w.readings) (suc w.readings) o w found
                      (cancellable_of o.status in_time) in
                  elim (Option-cases (product_at w o.product_id)) [
                    | inl lost ↦
                        rw
                          (
                            found, mine, in_time, b.order.update_row, found, b.product.update_row,
                            lost,
                          )
                          write
                    | inr (p, there) ↦
                        rw
                          (
                            found, mine, in_time, b.order.update_row, found, b.product.update_row,
                            there,
                          )
                          write
                  ]
            ]
      ]
    ]

    pub confirm-Step : Step (view w) (view (OrdersService.confirm id user_id w).1)
    unfolding OrdersService.confirm
    confirm-Step = elim (Option-cases (order_at w id)) [
      | inl gone ↦ rw gone (same_rows w)
      | inr (o, found) ↦ elim (Bool-cases (o.buyer_id == user_id)) [
        | inr outsider ↦ rw (found, outsider) (same_rows w)
        | inl mine ↦ elim (Bool-cases (same_order_status o.status delivered)) [
          | inr early ↦ rw (found, mine, early) (same_rows w)
          | inl arrived ↦
              let write =
                confirm_of_update id (b.date w.readings) (b.date (suc w.readings))
                  (suc (suc w.readings)) o w found (delivered_of o.status arrived) in
              elim (Option-cases (product_at w o.product_id)) [
                | inl lost ↦
                    rw (found, mine, arrived, b.order.update_row, found, b.product.update_row, lost)
                      write
                | inr (p, there) ↦
                    rw
                      (found, mine, arrived, b.order.update_row, found, b.product.update_row, there)
                      write
              ]
        ]
      ]
    ]

  module _ (id : String) (w : World) where
    pub remove-Step : Step (view w) (view (OrdersService.remove id w).1)
    unfolding OrdersService.remove
    remove-Step = elim (Option-cases (order_at w id)) [
      | inl gone ↦ rw gone (same_rows w)
      | inr (o, found) ↦ rw found (remove id (λ k. b.order.find-delete id k w.orders) (λ k. refl))
    ]
