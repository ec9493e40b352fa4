-- ===== src/Orders/Permissions.antt =====
-- Who may move an order where: `validateStatusTransition` of src/modules/orders/orders.service.ts
-- against the graph of the market.
use secondhand_api.Prelude.{
  String, Bool, true, false, not, ◌&&◌, ◌≡◌, refl, sym, ◌∙◌, ◌↔◌, ◌⊎◌, inl, inr, ◌==◌, arith,
  Bool-cases,
}
use secondhand_api.Http.{Exception, ok, err, bad_request, forbidden}
use secondhand_api.Schema.{
  Order, OrderStatus, pending, payment_pending, paid, shipping, delivered, confirmed, cancelled,
  refunded, includes_status,
}
use secondhand_api.Market.View.{Transition}
use secondhand_api.Orders.Transitions.{
  allowed_transitions, seller_only_status, buyer_only_status, not_allowed_message,
  validate_status_transition,
}

-- What is up to the seller, and what to the buyer.
abbrev pub is_of_seller : OrderStatus → Bool
is_of_seller shipping = true
is_of_seller delivered = true
is_of_seller _ = false

abbrev pub is_of_buyer : OrderStatus → Bool
is_of_buyer confirmed = true
is_of_buyer cancelled = true
is_of_buyer _ = false

seller_only_lem : (t : OrderStatus) → includes_status t seller_only_status ≡ is_of_seller t
seller_only_lem pending = refl
seller_only_lem payment_pending = refl
seller_only_lem paid = refl
seller_only_lem shipping = refl
seller_only_lem delivered = refl
seller_only_lem confirmed = refl
seller_only_lem cancelled = refl
seller_only_lem refunded = refl

buyer_only_lem : (t : OrderStatus) → includes_status t buyer_only_status ≡ is_of_buyer t
buyer_only_lem pending = refl
buyer_only_lem payment_pending = refl
buyer_only_lem paid = refl
buyer_only_lem shipping = refl
buyer_only_lem delivered = refl
buyer_only_lem confirmed = refl
buyer_only_lem cancelled = refl
buyer_only_lem refunded = refl

-- The move is in the graph; only the seller ships and delivers, only the buyer confirms and cancels.
pub record Permitted (s t : OrderStatus) (user_id : String) (o : Order) : Type 0 where
  pub moves : Transition s t
  pub by_seller : is_of_seller t ≡ true → (o.seller_id == user_id) ≡ true
  pub by_buyer : is_of_buyer t ≡ true → (o.buyer_id == user_id) ≡ true

Transition-of :
    (s t : OrderStatus) → includes_status t (allowed_transitions s) ≡ true → Transition s t
unfolding allowed_transitions
Transition-of pending payment_pending h = Transition.request_payment
Transition-of pending cancelled h = Transition.drop_pending
Transition-of payment_pending paid h = Transition.pay
Transition-of payment_pending cancelled h = Transition.drop_unpaid
Transition-of paid shipping h = Transition.ship
Transition-of paid refunded h = Transition.refund_paid
Transition-of shipping delivered h = Transition.deliver
Transition-of delivered confirmed h = Transition.accept
Transition-of delivered refunded h = Transition.refund_delivered
Transition-of _ _ h = cc

allowed_of : {s t : OrderStatus} → Transition s t → includes_status t (allowed_transitions s) ≡ true
unfolding allowed_transitions
allowed_of Transition.request_payment = refl
allowed_of Transition.drop_pending = refl
allowed_of Transition.pay = refl
allowed_of Transition.drop_unpaid = refl
allowed_of Transition.ship = refl
allowed_of Transition.refund_paid = refl
allowed_of Transition.deliver = refl
allowed_of Transition.accept = refl
allowed_of Transition.refund_delivered = refl

-- `rule && !test` fails where the rule gives the test.
not_broken : (rule test : Bool) → (rule ≡ true → test ≡ true) → (rule && not test) ≡ false
not_broken true test h = rw (h refl) refl
not_broken false test h = refl

module _ {S : Type 0} (s t : OrderStatus) (user_id : String) (o : Order) (w : S) where
  -- The check changes nothing; it passes, and then the move is permitted, or it throws.
  pub validate_status_transition_cases :
      (validate_status_transition s t user_id o w ≡ (ok tt, w)) × Permitted s t user_id o
      ⊎ ((e : Exception) × (validate_status_transition s t user_id o w ≡ (err e, w)))
  unfolding validate_status_transition
  validate_status_transition_cases = elim (Bool-cases (includes_status t (allowed_transitions s))) [
    | inr no_edge ↦ inr (bad_request (not_allowed_message s t), rw no_edge refl)
    | inl edge ↦
        elim (Bool-cases (includes_status t seller_only_status && not (o.seller_id == user_id))) [
          | inl wrong_seller ↦ inr (forbidden "판매자만 이 상태로 변경할 수 있습니다", rw (edge, wrong_seller) refl)
          | inr right_seller ↦
              elim (Bool-cases
                (includes_status t buyer_only_status && not (o.buyer_id == user_id))) [
                  | inl wrong_buyer ↦
                      inr (
                        forbidden "구매자만 이 상태로 변경할 수 있습니다",
                        rw (edge, right_seller, wrong_buyer) refl,
                      )
                  | inr right_buyer ↦ inl (
                    rw (edge, right_seller, right_buyer) refl,
                    record {
                      moves = Transition-of s t edge;
                      by_seller = λ h. ground (arith, seller_only_lem t ∙ h, right_seller);
                      by_buyer = λ h. ground (arith, buyer_only_lem t ∙ h, right_buyer);
                    },
                  )
                ]
        ]
  ]

  pub validate_status_transition_iff :
      (validate_status_transition s t user_id o w ≡ (ok tt, w)) ↔ Permitted s t user_id o
  unfolding validate_status_transition
  validate_status_transition_iff = (
    λ passes. elim validate_status_transition_cases [
      | inl (_, permitted) ↦ permitted
      | inr (e, refused) ↦ cc
    ],
    λ p.
        rw
          (
            allowed_of p.moves,
            not_broken (includes_status t seller_only_status) _
                (λ h. p.by_seller (sym (seller_only_lem t) ∙ h)),
            not_broken (includes_status t buyer_only_status) _
                (λ h. p.by_buyer (sym (buyer_only_lem t) ∙ h)),
          )
          refl,
  )
