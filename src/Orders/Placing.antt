-- ===== src/Orders/Placing.antt =====
-- What `create` of src/modules/orders/orders.service.ts stores, and when it succeeds.
use secondhand_api.Prelude.{
  ℕ, suc, ◌<◌, ◌≤◌, String, true, false, none, some, ◌≡◌, refl, subst, inl, inr, ◌==◌, arith,
  eq_iff, eq_self, Option-cases, given,
}
use secondhand_api.Http.{ok}
use secondhand_api.Schema.{Order, pending, order_conflicts, Product, active, same_product_status}
use secondhand_api.World.{Backend, World, order_at, product_at}
use secondhand_api.Orders.Numbering.{
  holder, drawn, generate_order_number-later, generate_order_number-total,
}
use secondhand_api.Orders.OrdersService.{
  CreateOrderDto, new_order, reserve, check_create, commit_create, create,
}
use secondhand_api.Orders.Refinement.{fresh_of_free}
use secondhand_api.Orders.Ordering.{IsBuyable, placed}

module _ ⦃b : Backend⦄ where
  -- An order stands in the state, and was not there in the earlier one, whose other orders stay.
  pub record IsPlaced (w : World) (dto : CreateOrderDto) (o : Order) (w' : World) : Type 0 where
    pub stored : order_at w' o.id ≡ some o
    pub fresh : order_at w o.id ≡ none
    pub others : (k : String) → (o.id == k) ≡ false → order_at w' k ≡ order_at w k
    pub status : o.status ≡ pending
    pub product : o.product_id ≡ dto.product_id

  module _ (buyer_id : String) (dto : CreateOrderDto) (p : Product) (n : String) (m : ℕ)
      (w : World) where
    -- The state after the writes.
    abbrev pub placed_state : World
    placed_state = record w {
      orders = (b.order.create (placed buyer_id dto p n m) w.orders).1;
      products = (b.product.update dto.product_id reserve w.products).1;
      readings = suc (suc m);
    }

    -- No stored order has the id or the number of the new one.
    abbrev pub IsFree : Type 0
    IsFree = b.order.find_first (order_conflicts (placed buyer_id dto p n m)) w.orders ≡ none

    pub placed-IsPlaced : IsFree → IsPlaced w dto (placed buyer_id dto p n m) placed_state
    unfolding new_order
    placed-IsPlaced free =
        let o = placed buyer_id dto p n m in
        let found = (b.order.create_free o w.orders free).1 in
        record {
          stored = rw (found o.id, eq_self o.id) refl;
          fresh = fresh_of_free o w free;
          others = λ k ne. rw (found k, ne) refl;
          status = refl;
          product = refl;
        }

  pub check_create-passes :
      (buyer_id : String) (dto : CreateOrderDto) (p : Product) (w : World)
      → IsBuyable w buyer_id dto p
      → check_create buyer_id dto w ≡ (ok p, w)
  unfolding check_create
  check_create-passes buyer_id dto p w c =
      let listed : same_product_status p.status active ≡ true = rw c.for_sale refl in
      rw (c.found, listed, c.other) refl

  -- With a fresh id and an unused number the new order clashes with no stored one.
  free_of_fresh :
      (buyer_id : String) (dto : CreateOrderDto) (p : Product) (n : String) (m : ℕ) (w : World)
      → order_at w (b.uuid m) ≡ none
      → holder w n ≡ none
      → IsFree buyer_id dto p n m w
  unfolding new_order
  free_of_fresh buyer_id dto p n m w fresh unused =
      elim (Option-cases
        (b.order.find_first (order_conflicts (placed buyer_id dto p n m)) w.orders)) [
          | inl free ↦ free
          | inr (x, clash) ↦
              let (there, conflict) = b.order.found_first _ w.orders x clash in
              let number_differs = b.order.none_first _ w.orders unused x.id x there in
              ground (arith, there, conflict, number_differs, fresh, eq_iff (b.uuid m) x.id)
        ]

  -- The ids to come are unused.
  abbrev pub HasNewIds : World → Type 0
  HasNewIds w = (i : ℕ) → w.readings ≤ i → order_at w (b.uuid i) ≡ none

  -- The writes succeed if a free number is drawn, the ids to come are unused, and the product is
  -- still there.
  pub commit_create-succeeds :
      (fuel k : ℕ) (buyer_id : String) (dto : CreateOrderDto) (p q : Product) (w : World)
      → product_at w dto.product_id ≡ some q
      → k < fuel
      → holder w (drawn "ORD" w k) ≡ none
      → HasNewIds w
      → (n : String) × (m : ℕ) × (holder w n ≡ none)
        × IsFree buyer_id dto p n m w
        × (commit_create fuel buyer_id dto p w
            ≡ (ok (placed buyer_id dto p n m), placed_state buyer_id dto p n m w))
  unfolding commit_create
  commit_create-succeeds fuel k buyer_id dto p q w there lt free_number fresh =
      let (n, m, draw, unused) = generate_order_number-total fuel k "ORD" w lt free_number in
      let later : w.readings ≤ m =
        subst (λ r. w.readings ≤ r.1.readings) draw (generate_order_number-later fuel "ORD" w) in
      let free = free_of_fresh buyer_id dto p n m w (fresh m later) unused in
      let stored = (b.order.create_free (placed buyer_id dto p n m) w.orders free).0 in
      (n, m, unused, free, rw (draw, stored, b.product.update_row, there) refl)

  -- What a successful `create` gives.
  pub record IsOrdered (w : World) (buyer_id : String) (dto : CreateOrderDto) (p : Product)
      (o : Order) (w' : World) : Type 0 where
    pub placed : IsPlaced w dto o w'
    pub buyer : o.buyer_id ≡ buyer_id
    pub seller : o.seller_id ≡ p.seller_id
    pub amount : o.total_amount ≡ dto.total_amount
    pub fee : o.shipping_fee ≡ given dto.shipping_fee 0
    pub unused : holder w o.order_number ≡ none
    pub reserved : product_at w' dto.product_id ≡ some (reserve p)
    pub others : (j : String) → (dto.product_id == j) ≡ false → product_at w' j ≡ product_at w j

  pub placed-IsOrdered :
      (buyer_id : String) (dto : CreateOrderDto) (p : Product) (n : String) (m : ℕ) (w : World)
      → product_at w dto.product_id ≡ some p
      → holder w n ≡ none
      → IsFree buyer_id dto p n m w
      → IsOrdered w buyer_id dto p (placed buyer_id dto p n m) (placed_state buyer_id dto p n m w)
  unfolding new_order
  placed-IsOrdered buyer_id dto p n m w found unused free =
      let at =
        λ (j : String). b.product.find-update dto.product_id j reserve w.products (λ r. refl) in
      record {
        placed = placed-IsPlaced buyer_id dto p n m w free;
        buyer = refl;
        seller = refl;
        amount = refl;
        fee = refl;
        unused = unused;
        reserved = rw (at dto.product_id, eq_self dto.product_id, found) refl;
        others = λ j ne. rw (at j, ne) refl;
      }

  -- A buyer's order of an active product of somebody else succeeds, if one of the first `fuel` draws
  -- gives a number that no order bears and the ids to come are unused: the order is stored as
  -- pending with the seller of the product, the amounts of the request and an unused number, the
  -- product is reserved, and all other orders and products stay.
  pub create-succeeds :
      (fuel k : ℕ) (buyer_id : String) (dto : CreateOrderDto) (p : Product) (w : World)
      → IsBuyable w buyer_id dto p
      → k < fuel
      → holder w (drawn "ORD" w k) ≡ none
      → HasNewIds w
      → (o : Order) × (w' : World) × (create fuel buyer_id dto w ≡ (ok o, w'))
        × IsOrdered w buyer_id dto p o w'
  unfolding create
  create-succeeds fuel k buyer_id dto p w c lt free_number fresh =
      let (n, m, unused, free, run) =
        commit_create-succeeds fuel k buyer_id dto p p w c.found lt free_number fresh in
      (
        placed buyer_id dto p n m,
        placed_state buyer_id dto p n m w,
        rw (check_create-passes buyer_id dto p w c, run) refl,
        placed-IsOrdered buyer_id dto p n m w c.found unused free,
      )
