-- ===== src/Tests/OrderRuns.antt =====
-- The theorems on src/modules/orders, applied to the market of the fixture.
use secondhand_api.Prelude.{
  ◌≡◌, refl, List, [], ◌∷◌, ℕ, some, none, arith, String, ◌==◌, sym, eqb, ◌∙◌, Bool-cases, inl, inr,
  eq_iff, false, ◌≤◌,
}
use secondhand_api.Http.{ok}
use secondhand_api.Schema.{
  Order, OrderStatus, pending, delivered, cancelled, paid, confirmed, active, sold, reserved,
}
use secondhand_api.World.{World, order_at}
use secondhand_api.Tests.Fixture.{some_id, example_backend, market, deal, offer, buy, move_to}
use secondhand_api.Market.View.{Step, Transition}
use secondhand_api.Market.Invariant.{NoDoubleSale}
use secondhand_api.Orders.OrdersRepository.{generate_order_number, order_number}
use secondhand_api.Orders.OrdersService
use secondhand_api.Orders.OrdersService.{new_order, update_data}
use secondhand_api.Orders.Requests.{Request, serve, serve_all, serve-Step, serve_all-NoDoubleSale}
use secondhand_api.Orders.Race.{between, overlap, IsSoldTwice, overlap-double_sale}
use secondhand_api.Orders.Refinement.{view}
use secondhand_api.Orders.Numbering.{holder, generate_order_number-total}
use secondhand_api.Orders.Placing.{HasNewIds, IsOrdered, create-succeeds}
use secondhand_api.Orders.Permissions.{Permitted}
use secondhand_api.Orders.Endings.{
  OnlyChanged, cancel-succeeds, confirm-succeeds, update-cancels_order_only,
}
use secondhand_api.Prisma.Memory.{find, first_row, rows_of, insert, change}

-- The only order of the market is o1.
pub only_order :
    (k : String) (o : Order) (s : OrderStatus)
    → order_at (market s) k ≡ some o
    → (k ≡ "o1") × (deal s ≡ o)
unfolding find
only_order k o s h = elim (Bool-cases ("o1" == k)) [
  | inl here ↦ (sym ((eq_iff "o1" k).0 here), ground (arith, here))
  | inr away ↦ ground (arith, away)
]

pub market-NoDoubleSale : NoDoubleSale (view (market pending))
unfolding find
market-NoDoubleSale = record {
  held = λ k o p found is_open there.
      let (_, same) = only_order k o pending found in
      let there' : some (offer "p2" reserved) ≡ some p = rw (← same) at there in
      let same' : offer "p2" reserved ≡ p = cc in rw (← same') refl;
  single = λ k j o q found found' _ _ _.
      (only_order k o pending found).0 ∙ sym (only_order j q pending found').0;
}

abbrev requests : List Request
requests =
    Request.create 3 "c" (buy "p1") ∷ Request.cancel "o1" "b" ∷ Request.create 3 "b" (buy "p2") ∷ []

serve_all-NoDoubleSale_example : NoDoubleSale (view (serve_all requests (market pending)))
serve_all-NoDoubleSale_example =
    serve_all-NoDoubleSale requests (market pending) market-NoDoubleSale

serve-Step_example :
    Step (view (market paid)) (view (serve (Request.cancel "o1" "b") (market paid)))
serve-Step_example = serve-Step (Request.cancel "o1" "b") (market paid)

new_ids-fresh : (st : OrderStatus) (i : ℕ) → order_at (market st) (some_id i) ≡ none
unfolding find
new_ids-fresh st i = elim (Bool-cases (eqb i 2)) [
  | inl two ↦ rw two refl
  | inr more ↦ elim (Bool-cases (eqb i 6)) [
    | inl six ↦ rw (more, six) refl
    | inr last ↦ rw (more, last) refl
  ]
]

abbrev after_first : World
after_first = between 3 "b" "c" (buy "p1") (buy "p1") (offer "p1" active) (market pending)

later_than_two : (i : ℕ) → 4 ≤ i → eqb i 2 ≡ false
later_than_two i more = ground arith

ids_after_first : HasNewIds after_first
unfolding OrdersService.commit_create generate_order_number new_order find first_row rows_of
    order_number insert change
ids_after_first i more = elim (Bool-cases (eqb i 6)) [
  | inl six ↦ rw (later_than_two i more, six) refl
  | inr last ↦ rw (later_than_two i more, last) refl
]

overlap-double_sale_example :
    (o : Order) × (o' : Order) × (w' : World) × (overlap 3 "b" "c"
        (buy "p1")
        (buy "p1")
        (market pending)
      ≡ (ok (o, o'), w'))
    × IsSoldTwice "p1" o o' w'
unfolding OrdersService.commit_create generate_order_number new_order find first_row rows_of
    order_number insert change
overlap-double_sale_example =
    overlap-double_sale 3 "b" "c" (buy "p1") (buy "p1") (offer "p1" active) (market pending) 0 0
      refl (record { found = refl; for_sale = refl; other = refl })
      (record { found = refl; for_sale = refl; other = refl }) (omega arith) refl
      (λ i _. new_ids-fresh pending i) (omega arith) refl ids_after_first

generate_order_number-total_example :
    (n : String) × (m : ℕ) × (generate_order_number 3 "ORD" (market paid)
      ≡ (ok n, record (market paid) { readings = m }))
    × (holder (market paid) n ≡ none)
unfolding find first_row rows_of order_number
generate_order_number-total_example =
    generate_order_number-total 3 0 "ORD" (market paid) (omega arith) refl

create-succeeds_example :
    (o : Order) × (w' : World) × (OrdersService.create 3 "c" (buy "p1") (market paid) ≡ (ok o, w'))
    × IsOrdered (market paid) "c" (buy "p1") (offer "p1" active) o w'
unfolding find first_row rows_of order_number
create-succeeds_example =
    create-succeeds 3 0 "c" (buy "p1") (offer "p1" active) (market paid)
      (record { found = refl; for_sale = refl; other = refl }) (omega arith) refl
      (λ i _. new_ids-fresh paid i)

cancel-succeeds_example :
    (w' : World) × (OrdersService.cancel "o1" "b" (market paid)
      ≡ (ok (record (deal paid) { status = cancelled; cancelled_at = some 0 }), w'))
    × OnlyChanged
        (market paid)
        w'
        "o1"
        (record (deal paid) { status = cancelled; cancelled_at = some 0 })
        "p2"
        (record (offer "p2" reserved) { status = active })
unfolding find
cancel-succeeds_example =
    cancel-succeeds (market paid) (deal paid) (offer "p2" reserved) refl refl refl refl

confirm-succeeds_example :
    (w' : World) × (OrdersService.confirm "o1" "b" (market delivered)
      ≡ (ok (record (deal delivered) { status = confirmed; confirmed_at = some 0 }), w'))
    × OnlyChanged
        (market delivered)
        w'
        "o1"
        (record (deal delivered) { status = confirmed; confirmed_at = some 0 })
        "p2"
        (record (offer "p2" reserved) { status = sold; sold_at = some 1 })
unfolding find
confirm-succeeds_example =
    confirm-succeeds (market delivered) (deal delivered) (offer "p2" reserved) refl refl refl refl

may_cancel : Permitted pending cancelled "b" (deal pending)
may_cancel = record { moves = Transition.drop_pending; by_seller = λ h. cc; by_buyer = λ _. refl }

update-cancels_order_only_example :
    (w' : World) × (OrdersService.update "o1" "b" (move_to cancelled) (market pending)
      ≡ (ok (update_data (move_to cancelled) (deal pending)), w'))
    × ((update_data (move_to cancelled) (deal pending)).status ≡ cancelled)
    × ((update_data (move_to cancelled) (deal pending)).cancelled_at ≡ none)
    × (order_at w' "o1" ≡ some (update_data (move_to cancelled) (deal pending)))
    × ((k : String) → ("o1" == k) ≡ false → order_at w' k ≡ order_at (market pending) k)
    × (record (market pending) { orders = w'.orders } ≡ w')
unfolding find first_row rows_of update_data
update-cancels_order_only_example =
    update-cancels_order_only (move_to cancelled) (deal pending) (market pending) refl may_cancel
      refl refl
