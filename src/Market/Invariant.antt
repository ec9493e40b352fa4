-- ===== src/Market/Invariant.antt =====
-- No double sale: every step of the market keeps it.
use secondhand_api.Prelude.{
  String, true, false, none, some, ◌≡◌, refl, ◌⊎◌, inl, inr, arith, eq_iff, Option-cases,
}
use secondhand_api.Schema.{
  Order, OrderStatus, pending, payment_pending, paid, cancelled, Product, active, reserved, sold,
  same_product_status,
}
use secondhand_api.Market.View.{
  View, set_at, alter_at, clear_at, Transition, is_open, is_cancellable, SameDeal, SameRows, Step,
  idle, place, move, cancel, confirm, remove, Reach, here, next,
}

pub record NoDoubleSale (v : View) : Type 0 where
  -- The product of an open order is not for sale.
  pub held :
      (k : String) (o : Order) (p : Product)
      → v.orders k ≡ some o
      → is_open o.status ≡ true
      → v.products o.product_id ≡ some p
      → same_product_status p.status active ≡ false
  -- Two open orders are for two products.
  pub single :
      (k j : String) (o q : Order)
      → v.orders k ≡ some o
      → v.orders j ≡ some q
      → is_open o.status ≡ true
      → is_open q.status ≡ true
      → o.product_id ≡ q.product_id
      → k ≡ j

-- A transition that ends open began open.
open_before : {s t : OrderStatus} → Transition s t → is_open t ≡ true → is_open s ≡ true
open_before Transition.request_payment h = refl
open_before Transition.drop_pending h = refl
open_before Transition.pay h = refl
open_before Transition.drop_unpaid h = refl
open_before Transition.ship h = refl
open_before Transition.refund_paid h = refl
open_before Transition.deliver h = refl
open_before Transition.accept h = refl
open_before Transition.refund_delivered h = refl

open_before_move :
    (s t : OrderStatus) → (t ≡ s) ⊎ Transition s t → is_open t ≡ true → is_open s ≡ true
open_before_move s t (inl same) h = rw (← same) h
open_before_move s t (inr step) h = open_before step h

open_of_cancellable : (s : OrderStatus) → is_cancellable s ≡ true → is_open s ≡ true
open_of_cancellable pending h = refl
open_of_cancellable payment_pending h = refl
open_of_cancellable paid h = refl
open_of_cancellable _ h = cc

-- Where an open order may stand after a step, in terms of the view before it.
module _ {v v' : View} (n : NoDoubleSale v) where
  SameRows-NoDoubleSale : SameRows v v' → NoDoubleSale v'
  SameRows-NoDoubleSale s = record {
    held = λ k o p e live at. ground (arith, s.orders k, s.products o.product_id, n.held k o p);
    single =
        λ k j o q e e' live live' same. ground (arith, s.orders k, s.orders j, n.single k j o q);
  }

  place-NoDoubleSale :
      (o : Order) (p p' : Product)
      → v.orders o.id ≡ none
      → v.products o.product_id ≡ some p
      → p.status ≡ active
      → p'.status ≡ reserved
      → ((k : String) → v'.orders k ≡ set_at o.id o v.orders k)
      → ((k : String) → v'.products k ≡ set_at o.product_id p' v.products k)
      → NoDoubleSale v'
  place-NoDoubleSale o p p' fresh found for_sale taken orders products = record {
    held = λ k q r e live at. ground (
      arith,
      orders k,
      products q.product_id,
      eq_iff o.id k,
      eq_iff o.product_id q.product_id,
      n.held k q r,
    );
    single = λ k j q r e e' live live' same. ground (
      arith,
      orders k,
      orders j,
      eq_iff o.id k,
      eq_iff o.id j,
      n.single k j q r,
      n.held k q p,
      n.held j r p,
    );
  }

  move-NoDoubleSale :
      (id : String) (o o' : Order)
      → v.orders id ≡ some o
      → SameDeal o o'
      → (is_open o'.status ≡ true → is_open o.status ≡ true)
      → ((k : String) → v'.orders k ≡ set_at id o' v.orders k)
      → ((k : String) → v'.products k ≡ v.products k)
      → NoDoubleSale v'
  move-NoDoubleSale id o o' found deal opens orders products = record {
    held = λ k q r e live at. ground (
      arith,
      deal.product,
      opens,
      orders k,
      products q.product_id,
      eq_iff id k,
      n.held k q r,
      n.held id o r,
    );
    single = λ k j q r e e' live live' same. ground (
      arith,
      deal.product,
      opens,
      orders k,
      orders j,
      eq_iff id k,
      eq_iff id j,
      n.single k j q r,
      n.single id j o r,
      n.single k id q o,
    );
  }

  cancel-NoDoubleSale :
      (id : String) (o o' : Order) (f : Product → Product)
      → v.orders id ≡ some o
      → is_open o.status ≡ true
      → o'.status ≡ cancelled
      → ((k : String) → v'.orders k ≡ set_at id o' v.orders k)
      → ((k : String) → v'.products k ≡ alter_at o.product_id f v.products k)
      → NoDoubleSale v'
  cancel-NoDoubleSale id o o' f found was_live gone orders products = record {
    held = λ k q r e live at. ground (
      arith,
      orders k,
      products q.product_id,
      eq_iff id k,
      eq_iff o.product_id q.product_id,
      n.held k q r,
      n.single k id q o,
    );
    single = λ k j q r e e' live live' same.
        ground (arith, orders k, orders j, eq_iff id k, eq_iff id j, n.single k j q r);
  }

  confirm-NoDoubleSale :
      (id : String) (o o' : Order) (f : Product → Product)
      → v.orders id ≡ some o
      → SameDeal o o'
      → is_open o.status ≡ true
      → ((p : Product) → (f p).status ≡ sold)
      → ((k : String) → v'.orders k ≡ set_at id o' v.orders k)
      → ((k : String) → v'.products k ≡ alter_at o.product_id f v.products k)
      → NoDoubleSale v'
  confirm-NoDoubleSale id o o' f found deal was_live sells orders products = record {
    held =
        λ k q r e live at. confirmed_held k q r e live at (Option-cases (v.products q.product_id));
    single = λ k j q r e e' live live' same. ground (
      arith,
      deal.product,
      orders k,
      orders j,
      eq_iff id k,
      eq_iff id j,
      n.single k j q r,
      n.single id j o r,
      n.single k id q o,
    );
  }
    where
      confirmed_held :
          (k : String) (q : Order) (r : Product)
          → v'.orders k ≡ some q
          → is_open q.status ≡ true
          → v'.products q.product_id ≡ some r
          → (v.products q.product_id ≡ none) ⊎ ((p : Product) × (v.products q.product_id ≡ some p))
          → same_product_status r.status active ≡ false
      confirmed_held k q r e live at (inl gone) =
          ground (arith, products q.product_id, eq_iff o.product_id q.product_id)
      confirmed_held k q r e live at (inr (p, there)) = ground (
        arith,
        deal.product,
        orders k,
        products q.product_id,
        eq_iff id k,
        eq_iff o.product_id q.product_id,
        sells p,
        n.held k q p,
        n.held id o p,
      )

  remove-NoDoubleSale :
      (id : String)
      → ((k : String) → v'.orders k ≡ clear_at id v.orders k)
      → ((k : String) → v'.products k ≡ v.products k)
      → NoDoubleSale v'
  remove-NoDoubleSale id orders products = record {
    held = λ k q r e live at. ground (arith, orders k, products q.product_id, n.held k q r);
    single = λ k j q r e e' live live' same. ground (arith, orders k, orders j, n.single k j q r);
  }

-- Every step keeps the invariant.
pub Step-NoDoubleSale : {v v' : View} → Step v v' → NoDoubleSale v → NoDoubleSale v'
Step-NoDoubleSale (idle same) n = SameRows-NoDoubleSale n same
Step-NoDoubleSale (place o p p' fresh found for_sale _ _ _ taken orders products) n =
    place-NoDoubleSale n o p p' fresh found for_sale taken orders products
Step-NoDoubleSale (move id o o' found deal goes orders products) n =
    move-NoDoubleSale n id o o' found deal (open_before_move o.status o'.status goes) orders
      products
Step-NoDoubleSale (cancel id o o' f found _ able gone _ orders products) n =
    cancel-NoDoubleSale n id o o' f found (open_of_cancellable o.status able) gone orders products
Step-NoDoubleSale (confirm id o o' f found deal arrived _ sells orders products) n =
    confirm-NoDoubleSale n id o o' f found deal (rw arrived refl) sells orders products
Step-NoDoubleSale (remove id orders products) n = remove-NoDoubleSale n id orders products

pub Reach-NoDoubleSale : {v v' : View} → NoDoubleSale v → Reach v v' → NoDoubleSale v'
Reach-NoDoubleSale n here = n
Reach-NoDoubleSale n (next r s) = Step-NoDoubleSale s (Reach-NoDoubleSale n r)
