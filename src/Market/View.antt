-- ===== src/Market/View.antt =====
-- The abstract market behind src/modules/orders: orders and products by id, and what one request may
-- do to them. A chain of requests is a chain of steps.
use mathlib.Core.Option
use secondhand_api.Prelude.{
  String, Bool, true, false, Option, none, some, ◌≡◌, ◌⊎◌, ◌==◌, if◌then◌else◌,
}
use secondhand_api.Schema.{
  Order, OrderStatus, pending, payment_pending, paid, shipping, delivered, confirmed, cancelled,
  refunded, Product, active, reserved, sold,
}

pub record View : Type 0 where
  pub orders : String → Option Order
  pub products : String → Option Product

abbrev pub set_at {ℓ} : {A : Type ℓ} → String → A → (String → Option A) → String → Option A
set_at k a m j = if k == j then some a else m j

abbrev pub alter_at {ℓ} : {A : Type ℓ} → String → (A → A) → (String → Option A) → String → Option A
alter_at k f m j = if k == j then Option.map f (m j) else m j

abbrev pub clear_at {ℓ} : {A : Type ℓ} → String → (String → Option A) → String → Option A
clear_at k m j = if k == j then none else m j

-- The life of an order, drawn as a graph.
pub data Transition : OrderStatus → OrderStatus → Type 0 where
  request_payment : Transition pending payment_pending
  drop_pending : Transition pending cancelled
  pay : Transition payment_pending paid
  drop_unpaid : Transition payment_pending cancelled
  ship : Transition paid shipping
  refund_paid : Transition paid refunded
  deliver : Transition shipping delivered
  accept : Transition delivered confirmed
  refund_delivered : Transition delivered refunded

-- An order that still claims its product.
abbrev pub is_open : OrderStatus → Bool
is_open cancelled = false
is_open refunded = false
is_open _ = true

-- An order that its buyer may still call off.
abbrev pub is_cancellable : OrderStatus → Bool
is_cancellable pending = true
is_cancellable payment_pending = true
is_cancellable paid = true
is_cancellable _ = false

-- What identifies an order and its parties never changes.
pub record SameDeal (o o' : Order) : Type 0 where
  pub id : o'.id ≡ o.id
  pub buyer : o'.buyer_id ≡ o.buyer_id
  pub seller : o'.seller_id ≡ o.seller_id
  pub product : o'.product_id ≡ o.product_id

-- A view in which the same rows stand.
pub record SameRows (v v' : View) : Type 0 where
  pub orders : (k : String) → v'.orders k ≡ v.orders k
  pub products : (k : String) → v'.products k ≡ v.products k

pub data Step (v v' : View) : Type 0 where
  idle : SameRows v v' → Step v v'
  -- A buyer takes an active product of another user, which is reserved for the order.
  place :
      (o : Order) (p p' : Product)
      → v.orders o.id ≡ none
      → v.products o.product_id ≡ some p
      → p.status ≡ active
      → p.seller_id ≡ o.seller_id
      → (o.seller_id == o.buyer_id) ≡ false
      → o.status ≡ pending
      → p'.status ≡ reserved
      → ((k : String) → v'.orders k ≡ set_at o.id o v.orders k)
      → ((k : String) → v'.products k ≡ set_at o.product_id p' v.products k)
      → Step v v'
  -- The order moves along the graph, or only its details change; the product is left alone.
  move :
      (id : String) (o o' : Order)
      → v.orders id ≡ some o
      → SameDeal o o'
      → (o'.status ≡ o.status) ⊎ Transition o.status o'.status
      → ((k : String) → v'.orders k ≡ set_at id o' v.orders k)
      → ((k : String) → v'.products k ≡ v.products k)
      → Step v v'
  -- An order is cancelled in time and its product is for sale again.
  cancel :
      (id : String) (o o' : Order) (f : Product → Product)
      → v.orders id ≡ some o
      → SameDeal o o'
      → is_cancellable o.status ≡ true
      → o'.status ≡ cancelled
      → ((p : Product) → (f p).status ≡ active)
      → ((k : String) → v'.orders k ≡ set_at id o' v.orders k)
      → ((k : String) → v'.products k ≡ alter_at o.product_id f v.products k)
      → Step v v'
  -- A delivered order is confirmed and its product is sold.
  confirm :
      (id : String) (o o' : Order) (f : Product → Product)
      → v.orders id ≡ some o
      → SameDeal o o'
      → o.status ≡ delivered
      → o'.status ≡ confirmed
      → ((p : Product) → (f p).status ≡ sold)
      → ((k : String) → v'.orders k ≡ set_at id o' v.orders k)
      → ((k : String) → v'.products k ≡ alter_at o.product_id f v.products k)
      → Step v v'
  remove :
      (id : String)
      → ((k : String) → v'.orders k ≡ clear_at id v.orders k)
      → ((k : String) → v'.products k ≡ v.products k)
      → Step v v'

pub data Reach (v : View) : View → Type 0 where
  here : Reach v v
  next : {u w : View} → Reach v u → Step u w → Reach v w
