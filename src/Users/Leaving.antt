-- ===== src/Users/Leaving.antt =====
-- What `remove` of src/modules/users/users.service.ts does: who may leave, and what is left behind.
use mathlib.Core.Option
use secondhand_api.Prelude.{
  String, Bool, true, false, ◌&&◌, ◌||◌, some, ◌≡◌, refl, ap, sym, ◌∙◌, ◌⊎◌, ◌↔◌, inl, inr, ◌==◌,
  any, if◌then◌else◌, arith, eq_self, map-eq-some, Bool-cases, Option-cases,
}
use secondhand_api.Http.{Exception, ok, err, bad_request, conflict, not_found}
use secondhand_api.Schema.{User, Order, cancelled, Product, deleted}
use secondhand_api.World.{Backend, World, user_at, order_at, product_at}
use secondhand_api.Orders.OrdersService.{is_ongoing, has_ongoing_orders_by_user_id}
use secondhand_api.Users.UsersRepository.{is_unpaid_of, is_offer_of, soft_delete}
use secondhand_api.Users.UsersService
use secondhand_api.Users.Trades.{
  is_party, is_awaiting, is_under_way, is_over, is_offered, over_lem, is_unpaid_lem, is_offer_lem,
  is_ongoing_lem,
}

abbrev pub cancel_order : Order → Order
cancel_order o = record o { status = cancelled }

abbrev pub delete_product : Product → Product
delete_product p = record p { status = deleted }

abbrev pub closed_order : String → Order → Order
closed_order id o = if is_unpaid_of id o then cancel_order o else o

abbrev pub closed_product : String → Product → Product
closed_product id p = if is_offer_of id p then delete_product p else p

module _ ⦃b : Backend⦄ where
  module _ (id : String) (w : World) where
    -- The state once a user has left.
    abbrev pub left_state : World
    left_state = record w {
      orders = b.order.update_many (is_unpaid_of id) cancel_order w.orders;
      products = b.product.update_many (is_offer_of id) delete_product w.products;
      users = (b.user.update id (λ u. record u { is_active = false }) w.users).1;
    }

    pub order_after :
        (k : String) → order_at left_state k ≡ Option.map (closed_order id) (order_at w k)
    order_after k = b.order.find-update_many (is_unpaid_of id) cancel_order w.orders (λ o. refl) k

    pub product_after :
        (k : String) → product_at left_state k ≡ Option.map (closed_product id) (product_at w k)
    product_after k =
        b.product.find-update_many (is_offer_of id) delete_product w.products (λ p. refl) k

    soft_delete-leaves :
        (u : User)
        → user_at w id ≡ some u
        → soft_delete id w ≡ (ok (record u { is_active = false }), left_state)
    unfolding soft_delete
    soft_delete-leaves u found = rw (b.user.update_row, found) refl

    -- The caller is there, has not left, and takes part in no order that is paid, shipped or
    -- delivered.
    pub record CanLeave (u : User) : Type 0 where
      pub found : user_at w id ≡ some u
      pub is_active : u.is_active ≡ true
      pub settled :
          (k : String) (o : Order)
          → order_at w k ≡ some o
          → is_party id o ≡ true
          → is_under_way o.status ≡ false

    or_comm : (x y : Bool) → (x || y) ≡ (y || x)
    or_comm x y = ground arith

    pub remove_cases :
        ((u : User) × CanLeave u
          × (UsersService.remove id w ≡ (ok (record u { is_active = false }), left_state)))
        ⊎ ((e : Exception) × (UsersService.remove id w ≡ (err e, w)))
    unfolding UsersService.remove has_ongoing_orders_by_user_id
    remove_cases = elim (Option-cases (user_at w id)) [
      | inl gone ↦ inr (not_found "사용자를 찾을 수 없습니다", rw gone refl)
      | inr (u, found) ↦ elim (Bool-cases u.is_active) [
        | inr left ↦ inr (bad_request "이미 탈퇴한 계정입니다", rw (found, left) refl)
        | inl stays ↦
            elim (Bool-cases (
              any is_ongoing
                (b.order.find_many (λ o. o.seller_id == id || o.buyer_id == id) w.orders))) [
                  | inl ongoing ↦ inr (
                    conflict "진행 중인 거래가 있어 탈퇴할 수 없습니다. 모든 거래를 완료하거나 취소해주세요.",
                    rw (found, stays, ongoing) refl,
                  )
                  | inr settled ↦ inl (
                    u,
                    record {
                      found = found;
                      is_active = stays;
                      settled = λ k o there member.
                          sym (is_ongoing_lem o)
                          ∙ b.order.none_many _ _ w.orders settled k o there
                              (or_comm (o.seller_id == id) (o.buyer_id == id) ∙ member);
                    },
                    rw (found, stays, settled, soft_delete-leaves u found) refl,
                  )
                ]
      ]
    ]

    none_ongoing :
        (u : User)
        → CanLeave u
        → any is_ongoing (b.order.find_many (λ o. o.seller_id == id || o.buyer_id == id) w.orders)
          ≡ false
    none_ongoing u can =
        elim (Bool-cases (
          any is_ongoing
            (b.order.find_many (λ o. o.seller_id == id || o.buyer_id == id) w.orders))) [
              | inr settled ↦ settled
              | inl ongoing ↦
                  let (o, there, member, goes_on) = b.order.some_many _ _ w.orders ongoing in
                  let settled =
                    is_ongoing_lem o
                    ∙ can.settled o.id o there
                        (or_comm (o.buyer_id == id) (o.seller_id == id) ∙ member) in
                  cc
            ]

    pub remove-leaves :
        (u : User)
        → CanLeave u
        → UsersService.remove id w ≡ (ok (record u { is_active = false }), left_state)
    unfolding UsersService.remove has_ongoing_orders_by_user_id
    remove-leaves u can =
        rw (can.found, can.is_active, none_ongoing u can, soft_delete-leaves u can.found) refl

    -- A user can leave exactly while active and party to no order that is paid, shipped or
    -- delivered; any other call throws and changes nothing.
    pub remove_iff :
        (((u : User) × ((UsersService.remove id w).0 ≡ ok u)) ↔ ((u : User) × CanLeave u))
        × (((u : User) → ¬ CanLeave u) → (e : Exception) × (UsersService.remove id w ≡ (err e, w)))
    remove_iff = (
      (
        λ (u, done). elim remove_cases [
          | inl (u', can, run) ↦ (u', can)
          | inr (e, refused) ↦ absurd (ground (arith, refused, done))
        ],
        λ (u, can). (record u { is_active = false }, ap (λ r. r.0) (remove-leaves u can)),
      ),
      λ never. elim remove_cases [
        | inl (u, can, run) ↦ absurd (never u can)
        | inr refused ↦ refused
      ],
    )

    -- The unpaid orders of a user are cancelled and their offers deleted, so that all of their orders
    -- are over and nothing of theirs is for sale; the account is inactive. The rest is as it was.
    pub record HasLeft (u : User) (w' : World) : Type 0 where
      pub cancelled_orders :
          (k : String) (o : Order)
          → order_at w k ≡ some o
          → is_party id o ≡ true
          → is_awaiting o.status ≡ true
          → order_at w' k ≡ some (record o { status = cancelled })
      pub other_orders :
          (k : String) (o : Order)
          → order_at w k ≡ some o
          → (is_party id o && is_awaiting o.status) ≡ false
          → order_at w' k ≡ some o
      pub over :
          (k : String) (o : Order)
          → order_at w' k ≡ some o
          → is_party id o ≡ true
          → is_over o.status ≡ true
      pub deleted_products :
          (k : String) (p : Product)
          → product_at w k ≡ some p
          → (p.seller_id == id) ≡ true
          → is_offered p.status ≡ true
          → product_at w' k ≡ some (record p { status = deleted })
      pub other_products :
          (k : String) (p : Product)
          → product_at w k ≡ some p
          → (p.seller_id == id && is_offered p.status) ≡ false
          → product_at w' k ≡ some p
      pub withdrawn :
          (k : String) (p : Product)
          → product_at w' k ≡ some p
          → (p.seller_id == id) ≡ true
          → is_offered p.status ≡ false
      pub account : user_at w' id ≡ some (record u { is_active = false })
      pub other_accounts : (k : String) → (id == k) ≡ false → user_at w' k ≡ user_at w k
      pub rest : record w { orders = w'.orders; products = w'.products; users = w'.users } ≡ w'

    left_over :
        (o : Order)
        → (is_party id o ≡ true → is_under_way o.status ≡ false)
        → is_party id (closed_order id o) ≡ true
        → is_over (closed_order id o).status ≡ true
    left_over o settled member = elim (Bool-cases (is_unpaid_of id o)) [
      | inl unpaid ↦ rw unpaid refl
      | inr other ↦
          let party : is_party id o ≡ true = rw other at member in
          let paid_for = sym (is_unpaid_lem id o) ∙ other in
          rw other (over_lem o.status (ground (arith, party, paid_for)) (settled party))
    ]

    left_withdrawn :
        (p : Product)
        → ((closed_product id p).seller_id == id) ≡ true
        → is_offered (closed_product id p).status ≡ false
    left_withdrawn p member = elim (Bool-cases (is_offer_of id p)) [
      | inl offer ↦ rw offer refl
      | inr other ↦
          let own : (p.seller_id == id) ≡ true = rw other at member in
          let off = sym (is_offer_lem id p) ∙ other in rw other (ground (arith, own, off))
    ]

    order_closed :
        (k : String) (o : Order) (unpaid : Bool)
        → order_at w k ≡ some o
        → is_unpaid_of id o ≡ unpaid
        → order_at left_state k ≡ some (if unpaid then cancel_order o else o)
    order_closed k o unpaid there same = rw (order_after k, there, same) refl

    product_closed :
        (k : String) (p : Product) (offer : Bool)
        → product_at w k ≡ some p
        → is_offer_of id p ≡ offer
        → product_at left_state k ≡ some (if offer then delete_product p else p)
    product_closed k p offer there same = rw (product_after k, there, same) refl

    -- Who can leave does: their unpaid orders are cancelled and their offers deleted, so that every
    -- order of theirs is confirmed, cancelled or refunded and none of their products is active, the
    -- account is inactive, and all other orders, products and accounts and the rest of the state
    -- stay.
    pub remove-HasLeft :
        (u : User)
        → CanLeave u
        → (w' : World) × (UsersService.remove id w ≡ (ok (record u { is_active = false }), w'))
          × HasLeft u w'
    remove-HasLeft u can =
        let f = λ (x : User). record x { is_active = false } in
        let at = λ (k : String). b.user.find-update id k f w.users (λ x. refl) in
        (
          left_state,
          remove-leaves u can,
          record {
            cancelled_orders = λ k o there party awaiting.
                order_closed k o true there (is_unpaid_lem id o ∙ rw (party, awaiting) refl);
            other_orders =
                λ k o there other. order_closed k o false there (is_unpaid_lem id o ∙ other);
            over = λ k o there member.
                let (o0, before, same) =
                  map-eq-some (closed_order id) _ o (sym (order_after k) ∙ there) in
                rw (← same) (left_over o0 (can.settled k o0 before) (rw (← same) at member));
            deleted_products = λ k p there own offered.
                product_closed k p true there (is_offer_lem id p ∙ rw (own, offered) refl);
            other_products =
                λ k p there other. product_closed k p false there (is_offer_lem id p ∙ other);
            withdrawn = λ k p there own.
                let (p0, before, same) =
                  map-eq-some (closed_product id) _ p (sym (product_after k) ∙ there) in
                rw (← same) (left_withdrawn p0 (rw (← same) at own));
            account = rw (at id, eq_self id, can.found) refl;
            other_accounts = λ k ne. rw (at k, ne) refl;
            rest = refl;
          },
        )
