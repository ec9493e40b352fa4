-- ===== src/Orders/Numbering.antt =====
-- The loop that draws order numbers: `generateOrderNumber` of
-- src/modules/orders/repositories/orders.repository.ts.
use secondhand_api.Prelude.{
  ap, ℕ, zero, suc, ◌+◌, ◌*◌, ◌<◌, ◌≤◌, String, Option, none, ◌≡◌, refl, ◌==◌, arith, Option-cases,
  inl, inr,
}
use secondhand_api.Http.{ok}
use secondhand_api.Schema.{Order}
use secondhand_api.World.{Backend, World}
use secondhand_api.Orders.OrdersRepository.{order_number, generate_order_number}

module _ ⦃b : Backend⦄ where
  -- The orders that bear a number.
  abbrev pub holder : World → String → Option Order
  holder w number = b.order.find_first (λ o. number == o.order_number) w.orders

  -- The number of the k-th draw from a state on.
  abbrev pub drawn : String → World → ℕ → String
  drawn prefix w k =
      order_number prefix (b.date (w.readings + 2 * k))
        (b.random 1000000 (suc (w.readings + 2 * k)))

  -- However it ends, the loop has only read the clock and drawn random numbers.
  pub generate_order_number-keeps :
      (fuel : ℕ) (prefix : String) (w : World)
      → (m : ℕ) × ((generate_order_number fuel prefix w).1 ≡ record w { readings = m })
  unfolding generate_order_number
  generate_order_number-keeps zero prefix w = (w.readings, refl)
  generate_order_number-keeps (suc fuel) prefix w =
      let w' = record w { readings = suc (suc w.readings) } in
      let (m, later) = generate_order_number-keeps fuel prefix w' in
      elim (Option-cases (holder w (drawn prefix w 0))) [
        | inl free ↦ (suc (suc w.readings), ground (arith, free))
        | inr (o, taken) ↦ (m, ground (arith, taken, later))
      ]

  -- The clock never goes back.
  pub generate_order_number-later :
      (fuel : ℕ) (prefix : String) (w : World)
      → w.readings ≤ (generate_order_number fuel prefix w).1.readings
  unfolding generate_order_number
  generate_order_number-later zero prefix w = omega arith
  generate_order_number-later (suc fuel) prefix w =
      let w' = record w { readings = suc (suc w.readings) } in
      let later = generate_order_number-later fuel prefix w' in
      elim (Option-cases (holder w (drawn prefix w 0))) [
        | inl free ↦ ground (arith, free)
        | inr (o, taken) ↦ ground (arith, taken, later)
      ]

  -- A number that is returned belongs to no order.
  pub generate_order_number-free :
      (fuel : ℕ) (prefix : String) (w : World) (n : String)
      → (generate_order_number fuel prefix w).0 ≡ ok n
      → holder w n ≡ none
  unfolding generate_order_number
  generate_order_number-free zero prefix w n h = cc
  generate_order_number-free (suc fuel) prefix w n h =
      let w' = record w { readings = suc (suc w.readings) } in
      elim (Option-cases (holder w (drawn prefix w 0))) [
        | inl free ↦ let e : drawn prefix w 0 ≡ n = ground (arith, free) in rw (← e) free
        | inr (o, taken) ↦ generate_order_number-free fuel prefix w' n (ground (arith, taken))
      ]

  drawn-suc :
      (prefix : String) (w : World) (k : ℕ)
      → drawn prefix (record w { readings = suc (suc w.readings) }) k ≡ drawn prefix w (suc k)
  drawn-suc prefix w k =
      let e : suc (suc w.readings) + 2 * k ≡ w.readings + 2 * suc k = omega arith in
      ap (λ i. order_number prefix (b.date i) (b.random 1000000 (suc i))) e

  -- If one of the first `fuel` draws is free, the loop ends with a number that no order bears; only
  -- the clock and the random numbers have been read.
  pub generate_order_number-total :
      (fuel k : ℕ) (prefix : String) (w : World)
      → k < fuel
      → holder w (drawn prefix w k) ≡ none
      → (n : String) × (m : ℕ) × (generate_order_number fuel prefix w
          ≡ (ok n, record w { readings = m }))
        × (holder w n ≡ none)
  unfolding generate_order_number
  generate_order_number-total zero k prefix w lt free = absurd (omega arith)
  generate_order_number-total (suc fuel) zero prefix w lt free =
      (drawn prefix w 0, suc (suc w.readings), ground (arith, free), free)
  generate_order_number-total (suc fuel) (suc k) prefix w lt free =
      let w' = record w { readings = suc (suc w.readings) } in
      let (n, m, returns, unused) =
        generate_order_number-total fuel k prefix w' (omega arith)
          (rw (drawn-suc prefix w k) free) in
      elim (Option-cases (holder w (drawn prefix w 0))) [
        | inl at_once ↦ (drawn prefix w 0, suc (suc w.readings), ground (arith, at_once), at_once)
        | inr (o, taken) ↦ (n, m, ground (arith, taken, returns), unused)
      ]
