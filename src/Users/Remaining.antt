-- ===== src/Users/Remaining.antt =====
-- What is left of the trades of a user who has left by `remove` of
-- src/modules/users/users.service.ts.
use secondhand_api.Prelude.{
  String, true, false, some, ◌≡◌, refl, ap, sym, ◌∙◌, inl, inr, ◌==◌, arith, Bool-cases,
  map-eq-some,
}
use secondhand_api.Http.{ok}
use secondhand_api.Schema.{User, Order, cancelled, Product, active, same_product_status}
use secondhand_api.World.{Backend, World, order_at, product_at}
use secondhand_api.Market.View.{is_open}
use secondhand_api.Market.Invariant.{NoDoubleSale}
use secondhand_api.Orders.Refinement.{view}
use secondhand_api.Users.UsersRepository.{is_unpaid_of, is_offer_of}
use secondhand_api.Users.UsersService
use secondhand_api.Users.Leaving.{
  closed_order, closed_product, left_state, order_after, product_after, CanLeave, remove_cases,
  remove-leaves,
}

module _ ⦃b : Backend⦄ where
  module _ (id : String) (w : World) where
    open_kept : (o : Order) → is_open (closed_order id o).status ≡ true → closed_order id o ≡ o
    open_kept o still_open = elim (Bool-cases (is_unpaid_of id o)) [
      | inl unpaid ↦ absurd (ground (arith, unpaid, still_open))
      | inr other ↦ rw other refl
    ]

    sold_kept :
        (p : Product)
        → same_product_status p.status active ≡ false
        → same_product_status (closed_product id p).status active ≡ false
    sold_kept p off = elim (Bool-cases (is_offer_of id p)) [
      | inl offer ↦ rw offer refl
      | inr other ↦ rw other off
    ]

    -- An order that is open once the user has left was there, and the same.
    open_before_leaving :
        (k : String) (o : Order)
        → order_at (left_state id w) k ≡ some o
        → is_open o.status ≡ true
        → order_at w k ≡ some o
    open_before_leaving k o there still_open =
        let (o0, before, same) =
          map-eq-some (closed_order id) _ o (sym (order_after id w k) ∙ there) in
        let unchanged = open_kept o0 (rw (← same) at still_open) in
        before ∙ ap some (sym unchanged ∙ same)

    left_state-NoDoubleSale : NoDoubleSale (view w) → NoDoubleSale (view (left_state id w))
    left_state-NoDoubleSale n = record {
      held = λ k o p there still_open offered.
          let (p0, before, same) =
            map-eq-some (closed_product id) _ p (sym (product_after id w o.product_id) ∙ offered) in
          rw (← same) (
            sold_kept p0
              (n.held k o p0 (open_before_leaving k o there still_open) still_open before));
      single = λ k j o q there there' open_o open_q one_product.
          n.single k j o q (open_before_leaving k o there open_o)
            (open_before_leaving j q there' open_q) open_o open_q one_product;
    }

    -- However it ends, `remove` keeps it so that no open order's product is for sale and no product
    -- has two open orders.
    pub remove-NoDoubleSale :
        NoDoubleSale (view w) → NoDoubleSale (view (UsersService.remove id w).1)
    remove-NoDoubleSale n = elim (remove_cases id w) [
      | inl (u, can, run) ↦ rw run (left_state-NoDoubleSale n)
      | inr (e, refused) ↦ rw refused n
    ]

    -- A buyer who leaves with an unpaid order has the order cancelled, but its product, offered by
    -- somebody else, stays as it was: a reserved product stays reserved though its only order is
    -- cancelled.
    pub remove-keeps_product :
        (u : User) (o : Order) (p : Product)
        → CanLeave id w u
        → order_at w o.id ≡ some o
        → is_unpaid_of id o ≡ true
        → product_at w o.product_id ≡ some p
        → (p.seller_id == id) ≡ false
        → (w' : World) × (UsersService.remove id w ≡ (ok (record u { is_active = false }), w'))
          × (order_at w' o.id ≡ some (record o { status = cancelled }))
          × (product_at w' o.product_id ≡ some p)
    remove-keeps_product u o p can ordered unpaid there other =
        let no_offer : is_offer_of id p ≡ false = rw other refl in
        (
          left_state id w,
          remove-leaves id w u can,
          rw (order_after id w o.id, ordered, unpaid) refl,
          rw (product_after id w o.product_id, there, no_offer) refl,
        )
