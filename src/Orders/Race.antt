-- ===== src/Orders/Race.antt =====
-- Two overlapping calls of `create` of src/modules/orders/orders.service.ts: both have read the
-- product before either writes. Nothing in the code joins the reads to the writes.
use secondhand_api.Prelude.{
  ap, ℕ, String, true, false, none, some, ◌<◌, ◌≡◌, refl, arith, sym, ◌∙◌, ◌==◌, eq_iff, Bool-cases,
  inl, inr,
}
use secondhand_api.Http.{ok}
use secondhand_api.Exec.{Exec, pure, ◌>>=◌}
use secondhand_api.Schema.{Order, Product}
use secondhand_api.World.{Backend, World, order_at, product_at}
use secondhand_api.Market.View.{is_open}
use secondhand_api.Market.Invariant.{NoDoubleSale}
use secondhand_api.Orders.OrdersService.{CreateOrderDto, reserve, check_create, commit_create}
use secondhand_api.Orders.Refinement.{view}
use secondhand_api.Orders.Numbering.{holder, drawn}
use secondhand_api.Orders.Ordering.{IsBuyable, placed}
use secondhand_api.Orders.Placing.{
  IsPlaced, placed_state, placed-IsPlaced, placed-IsOrdered, HasNewIds, check_create-passes,
  commit_create-succeeds,
}

module _ ⦃b : Backend⦄ where
  -- Two calls of `create`, of which the second reads before the first writes.
  unfoldable pub overlap :
      ℕ → (first second : String) → CreateOrderDto → CreateOrderDto → Exec World (Order × Order)
  overlap fuel first second dto dto' = do
    product ← check_create first dto
    product' ← check_create second dto'
    order ← commit_create fuel first dto product
    order' ← commit_create fuel second dto' product'
    pure (order, order')

  -- Two open orders of one product are in the state.
  pub record IsSoldTwice (product_id : String) (o o' : Order) (w : World) : Type 0 where
    pub stored : order_at w o.id ≡ some o
    pub stored' : order_at w o'.id ≡ some o'
    pub different : (o.id == o'.id) ≡ false
    pub product : o.product_id ≡ product_id
    pub product' : o'.product_id ≡ product_id
    pub live : is_open o.status ≡ true
    pub live' : is_open o'.status ≡ true
    pub double_sale : ¬ NoDoubleSale (view w)

  both_open :
      (w : World) (dto dto' : CreateOrderDto) (o o' : Order) (w1 w2 : World)
      → dto.product_id ≡ dto'.product_id
      → IsPlaced w dto o w1
      → IsPlaced w1 dto' o' w2
      → IsSoldTwice dto.product_id o o' w2
  both_open w dto dto' o o' w1 w2 same first second =
      let apart : (o.id == o'.id) ≡ false = elim (Bool-cases (o.id == o'.id)) [
        | inl e ↦ absurd (ground (arith, e, first.stored, second.fresh, eq_iff o.id o'.id))
        | inr e ↦ e
      ] in
      let apart' : (o'.id == o.id) ≡ false =
        ground (arith, apart, eq_iff o.id o'.id, eq_iff o'.id o.id) in
      let kept : order_at w2 o.id ≡ some o = second.others o.id apart' ∙ first.stored in
      let live : is_open o.status ≡ true = rw first.status refl in
      let live' : is_open o'.status ≡ true = rw second.status refl in
      let deal' = second.product ∙ sym same in
      record {
        stored = kept;
        stored' = second.stored;
        different = apart;
        product = first.product;
        product' = deal';
        live = live;
        live' = live';
        double_sale = λ n.
            let one =
              n.single o.id o'.id o o' kept second.stored live live' (first.product ∙ sym deal') in
            ground (arith, apart, one, eq_iff o.id o'.id);
      }

  module _ (fuel : ℕ) (first second : String) (dto dto' : CreateOrderDto) (p : Product)
      (w : World) where
    -- The state between the writes of the first call and those of the second.
    abbrev pub between : World
    between = (commit_create fuel first dto p w).1

    -- Two buyers can each order an active product of somebody else. If their requests overlap, so
    -- that both pass the checks before either writes, both get an order for it, where one of the
    -- first `fuel` draws of each gives a number that no order bears then and the ids to come are
    -- unused: afterwards two different open orders of that product are stored.
    pub overlap-double_sale :
        (k k' : ℕ)
        → dto.product_id ≡ dto'.product_id
        → IsBuyable w first dto p
        → IsBuyable w second dto' p
        → k < fuel
        → holder w (drawn "ORD" w k) ≡ none
        → HasNewIds w
        → k' < fuel
        → holder between (drawn "ORD" between k') ≡ none
        → HasNewIds between
        → (o : Order) × (o' : Order) × (w' : World) × (overlap fuel first second dto dto' w
            ≡ (ok (o, o'), w'))
          × IsSoldTwice dto.product_id o o' w'
    unfolding overlap
    overlap-double_sale k k' same c c' lt free_number fresh lt' free_number' fresh' =
        let (n, m, unused, free, run) =
          commit_create-succeeds fuel k first dto p p w c.found lt free_number fresh in
        let o = placed first dto p n m in
        let w1 = placed_state first dto p n m w in
        let ends : between ≡ w1 = ap (λ r. r.1) run in
        let there : product_at between dto'.product_id ≡ some (reserve p) =
          rw (ends, ← same) (placed-IsOrdered first dto p n m w c.found unused free).reserved in
        let (n', m', unused', free', run') =
          commit_create-succeeds fuel k' second dto' p (reserve p) between there lt' free_number'
            fresh' in
        let o' = placed second dto' p n' m' in
        let w2 = placed_state second dto' p n' m' between in
        (
          o,
          o',
          w2,
          rw (check_create-passes first dto p w c, check_create-passes second dto' p w c', run)
              (rw (← ends) (rw run' refl)),
          both_open w dto dto' o o' between w2 same
              (rw ends (placed-IsPlaced first dto p n m w free))
              (placed-IsPlaced second dto' p n' m' between free'),
        )
