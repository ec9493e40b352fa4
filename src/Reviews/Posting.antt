-- ===== src/Reviews/Posting.antt =====
-- Who may write a review, what `create` of src/modules/reviews/reviews.service.ts then stores, and
-- the score of the user who is reviewed.
use secondhand_api.Prelude.{
  suc, Bool, ◌||◌, sym, ◌∙◌, String, true, false, not, ◌&&◌, none, some, ◌≡◌, refl, ◌⊎◌, inl, inr,
  ◌==◌, arith, Bool-cases, Option-cases,
}
use secondhand_api.Http.{Exception, ok, err, bad_request, forbidden, not_found}
use secondhand_api.Schema.{
  Order, OrderStatus, pending, payment_pending, paid, shipping, delivered, confirmed, cancelled,
  refunded, same_order_status, User, Review,
}
use secondhand_api.World.{Backend, World, order_at, user_at, review_at}
use secondhand_api.Reviews.TrustScore.{trust_score_of}
use secondhand_api.Reviews.ReviewsRepository.{
  scored, ratings_of, review_of, update_user_trust_score, calculate_trust_score,
}
use secondhand_api.Reviews.ReviewsService
use secondhand_api.Reviews.ReviewsService.{CreateReviewDto, new_review, is_complete, reviewed_by}

-- The goods have arrived.
abbrev pub is_done : OrderStatus → Bool
is_done delivered = true
is_done confirmed = true
is_done _ = false

done_lem :
    (s : OrderStatus) → (same_order_status s confirmed || same_order_status s delivered) ≡ is_done s
done_lem pending = refl
done_lem payment_pending = refl
done_lem paid = refl
done_lem shipping = refl
done_lem delivered = refl
done_lem confirmed = refl
done_lem cancelled = refl
done_lem refunded = refl

module _ ⦃b : Backend⦄ where
  -- The order is delivered or confirmed, the caller took part in it, and nobody has reviewed it.
  pub record MayReview (w : World) (user_id : String) (dto : CreateReviewDto) (o : Order)
      : Type 0 where
    pub found : order_at w dto.order_id ≡ some o
    pub complete : is_done o.status ≡ true
    pub member : (o.buyer_id == user_id || o.seller_id == user_id) ≡ true
    pub first : review_of w dto.order_id ≡ none

  -- A new score of a user that is there.
  pub rescored :
      (w : World) (id : String) (u : User)
      → user_at w id ≡ some u
      → update_user_trust_score id w ≡ (
        ok tt,
        record w {
          users = (b.user.update id (scored (trust_score_of (ratings_of w id))) w.users).1;
        },
      )
  unfolding update_user_trust_score calculate_trust_score
  rescored w id u found = rw (b.user.update_row, found) refl

  -- A call passes the checks or throws and stores nothing.
  create_cases :
      (user_id : String) (dto : CreateReviewDto) (w : World)
      → ((o : Order) × MayReview w user_id dto o)
        ⊎ ((e : Exception) × (ReviewsService.create user_id dto w ≡ (err e, w)))
  unfolding ReviewsService.create
  create_cases user_id dto w = elim (Option-cases (order_at w dto.order_id)) [
    | inl gone ↦ inr (not_found "주문을 찾을 수 없습니다", rw gone refl)
    | inr (o, found) ↦ elim (Bool-cases (is_complete o)) [
      | inr early ↦ inr (bad_request "완료된 주문에만 리뷰를 작성할 수 있습니다", rw (found, early) refl)
      | inl complete ↦
          elim (Bool-cases (not (o.buyer_id == user_id) && not (o.seller_id == user_id))) [
            | inl stranger ↦
                inr (forbidden "이 주문에 대한 리뷰를 작성할 권한이 없습니다", rw (found, complete, stranger) refl)
            | inr party ↦ elim (Option-cases (review_of w dto.order_id)) [
              | inr (r, there) ↦
                  inr (bad_request "이미 리뷰가 작성된 주문입니다", rw (found, complete, party, there) refl)
              | inl first ↦ inl (
                o,
                record {
                  found = found;
                  complete = sym (done_lem o.status) ∙ complete;
                  member = ground (arith, party);
                  first = first;
                },
              )
            ]
          ]
    ]
  ]

  -- Only a buyer or seller of a delivered or confirmed order that has no review yet can write one:
  -- any other call throws, with nothing stored.
  pub create-refuses :
      (user_id : String) (dto : CreateReviewDto) (w : World)
      → ((o : Order) → ¬ MayReview w user_id dto o)
      → (e : Exception) × (ReviewsService.create user_id dto w ≡ (err e, w))
  create-refuses user_id dto w never = elim (create_cases user_id dto w) [
    | inl (o, may) ↦ absurd (never o may)
    | inr refused ↦ refused
  ]

  -- What a successful `create` gives.
  pub record IsReviewed (w : World) (u : User) (r : Review) (w' : World) : Type 0 where
    pub stored : review_at w' r.id ≡ some r
    pub score :
        user_at w' r.reviewed_id ≡ some (scored (trust_score_of (ratings_of w' r.reviewed_id)) u)
    pub other_reviews : (k : String) → (r.id == k) ≡ false → review_at w' k ≡ review_at w k
    pub other_users : (k : String) → (r.reviewed_id == k) ≡ false → user_at w' k ≡ user_at w k

  -- The review is the caller's, of the order's other party, as the request has it.
  pub record IsOfOtherParty (user_id : String) (dto : CreateReviewDto) (o : Order) (r : Review)
      : Type 0 where
    pub reviewer : r.reviewer_id ≡ user_id
    pub order : r.order_id ≡ dto.order_id
    pub rating : r.rating ≡ dto.rating
    pub comment : r.comment ≡ dto.comment
    pub by_buyer : o.buyer_id ≡ user_id → r.reviewed_id ≡ o.seller_id
    pub by_seller : (o.buyer_id == user_id) ≡ false → r.reviewed_id ≡ o.buyer_id

  module _ (user_id : String) (dto : CreateReviewDto) (w : World) (o : Order) (u : User) where
    abbrev pub posted : Review
    posted =
        new_review (b.uuid w.readings) (b.date (suc w.readings)) user_id (reviewed_by user_id o) dto

    -- The state once the review is stored.
    abbrev review_stored : World
    review_stored = record w {
      reviews = (b.review.create posted w.reviews).1;
      readings = suc (suc w.readings);
    }

    abbrev reviewed_state : World
    reviewed_state = record review_stored {
      users =
          (b.user.update (reviewed_by user_id o)
            (scored (trust_score_of (ratings_of review_stored (reviewed_by user_id o)))) w.users).1;
    }
