-- ===== src/Orders/Ordering.antt =====
-- Placing an order: `create` of src/modules/orders/orders.service.ts, its checks and its writes.
use secondhand_api.Prelude.{
  ℕ, suc, String, true, false, none, some, ◌≡◌, refl, ◌⊎◌, inl, inr, ◌==◌, arith, eq_iff,
  Bool-cases, Option-cases,
}
use secondhand_api.Http.{Exception, Result-cases, ok, err, bad_request, not_found}
use secondhand_api.Schema.{
  Order, pending, order_conflicts, Product, ProductStatus, active, same_product_status,
}
use secondhand_api.World.{Backend, World, product_at}
use secondhand_api.Market.View.{Step, place}
use secondhand_api.Orders.OrdersRepository.{generate_order_number}
use secondhand_api.Orders.Numbering.{generate_order_number-keeps}
use secondhand_api.Orders.OrdersService.{
  CreateOrderDto, new_order, reserve, check_create, commit_create, create,
}
use secondhand_api.Orders.Refinement.{view, same_rows, fresh_of_free, alter_of_update}

active_of : (s : ProductStatus) → same_product_status s active ≡ true → s ≡ active
active_of active h = refl
active_of _ h = cc

module _ ⦃b : Backend⦄ where
  -- What the checks establish of the product that they return.
  pub record IsBuyable (w : World) (buyer_id : String) (dto : CreateOrderDto) (p : Product)
      : Type 0 where
    pub found : product_at w dto.product_id ≡ some p
    pub for_sale : p.status ≡ active
    pub other : (p.seller_id == buyer_id) ≡ false

  pub check_create_cases :
      (buyer_id : String) (dto : CreateOrderDto) (w : World)
      → ((p : Product) × (check_create buyer_id dto w ≡ (ok p, w)) × IsBuyable w buyer_id dto p)
        ⊎ ((e : Exception) × (check_create buyer_id dto w ≡ (err e, w)))
  unfolding check_create
  check_create_cases buyer_id dto w = elim (Option-cases (product_at w dto.product_id)) [
    | inl gone ↦ inr (not_found "상품을 찾을 수 없습니다", rw gone refl)
    | inr (p, found) ↦ elim (Bool-cases (same_product_status p.status active)) [
      | inr taken ↦ inr (bad_request "판매 중인 상품이 아닙니다", rw (found, taken) refl)
      | inl for_sale ↦ elim (Bool-cases (p.seller_id == buyer_id)) [
        | inl own ↦ inr (bad_request "자신의 상품은 구매할 수 없습니다", rw (found, for_sale, own) refl)
        | inr other ↦ inl (
          p,
          rw (found, for_sale, other) refl,
          record { found = found; for_sale = active_of p.status for_sale; other = other },
        )
      ]
    ]
  ]

  -- The writes of `create` once its order number and id are drawn.
  place_of_create :
      (o : Order) (p : Product) (m : ℕ) (w : World)
      → b.order.find_first (order_conflicts o) w.orders ≡ none
      → product_at w o.product_id ≡ some p
      → p.status ≡ active
      → p.seller_id ≡ o.seller_id
      → (o.seller_id == o.buyer_id) ≡ false
      → o.status ≡ pending
      → Step (view w) (
          view (record w {
            orders = (b.order.create o w.orders).1;
            products = (b.product.update o.product_id reserve w.products).1;
            readings = m;
          }))
  place_of_create o p m w free found for_sale seller_ other new =
      place o p (reserve p) (fresh_of_free o w free) found for_sale seller_ other new refl
        (λ k. (b.order.create_free o w.orders free).1 k)
        (λ k. ground (
          arith,
          alter_of_update o.product_id reserve w (λ q. refl) k,
          found,
          eq_iff o.product_id k,
        ))

  -- The state in which `create` writes: the number, the id and the time are drawn.
  abbrev pub drawn_state : ℕ → World → World
  drawn_state fuel w = (generate_order_number fuel "ORD" w).1

  -- The row that `create` stores after a number is drawn, with the id and the time of its draw.
  abbrev pub placed : String → CreateOrderDto → Product → String → ℕ → Order
  placed buyer_id dto p n m = new_order (b.uuid m) (b.date (suc m)) buyer_id p dto n

  placed-Step :
      (buyer_id : String) (dto : CreateOrderDto) (p : Product) (n : String) (m : ℕ) (w : World)
      → IsBuyable w buyer_id dto p
      → b.order.find_first (order_conflicts (placed buyer_id dto p n m)) w.orders ≡ none
      → Step (view w) (
          view (record w {
            orders = (b.order.create (placed buyer_id dto p n m) w.orders).1;
            products = (b.product.update dto.product_id reserve w.products).1;
            readings = suc (suc m);
          }))
  unfolding new_order
  placed-Step buyer_id dto p n m w c free =
      place_of_create (placed buyer_id dto p n m) p (suc (suc m)) w free c.found c.for_sale refl
        c.other refl

  pub commit_create-Step :
      (fuel : ℕ) (buyer_id : String) (dto : CreateOrderDto) (p : Product) (w : World)
      → IsBuyable w buyer_id dto p
      → Step (view w) (view (commit_create fuel buyer_id dto p w).1)
  unfolding commit_create
  commit_create-Step fuel buyer_id dto p w c =
      let (m, at) = generate_order_number-keeps fuel "ORD" w in
      elim (Result-cases (generate_order_number fuel "ORD" w).0) [
        | inr (e, hangs) ↦ rw (hangs, at) (same_rows w)
        | inl (n, drawn) ↦
            elim (Option-cases
              (b.order.find_first (order_conflicts (placed buyer_id dto p n m)) w.orders)) [
                | inr (x, taken) ↦
                    rw
                      (drawn, at, b.order.create_taken (placed buyer_id dto p n m) x w.orders taken)
                      (same_rows w)
                | inl free ↦
                    rw
                      (
                        drawn,
                        at,
                        (b.order.create_free (placed buyer_id dto p n m) w.orders free).0,
                        b.product.update_row,
                        c.found,
                      )
                      (placed-Step buyer_id dto p n m w c free)
              ]
      ]

  pub create-Step :
      (fuel : ℕ) (buyer_id : String) (dto : CreateOrderDto) (w : World)
      → Step (view w) (view (create fuel buyer_id dto w).1)
  unfolding create
  create-Step fuel buyer_id dto w = elim (check_create_cases buyer_id dto w) [
    | inl (p, passes, c) ↦ rw passes (commit_create-Step fuel buyer_id dto p w c)
    | inr (e, refused) ↦ rw refused (same_rows w)
  ]
