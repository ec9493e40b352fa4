-- ===== src/Reviews/ReviewsService.antt =====
-- src/modules/reviews/reviews.service.ts, with the DTOs of src/modules/reviews/dto. A field of a DTO
-- that is absent is `none`.
use secondhand_api.Prelude.{
  ℕ, String, Bool, not, ◌&&◌, ◌||◌, Option, none, some, List, [], ◌==◌, if◌then◌else◌, given,
  given_or_kept, ceil_div,
}
use secondhand_api.Http.{ok, bad_request, forbidden, not_found}
use secondhand_api.Exec.{Exec, pure, or_throw, throw_if, throw_if_found, ◌>>=◌, ◌>>◌}
use secondhand_api.Schema.{Order, Review, confirmed, delivered, same_order_status}
use secondhand_api.World.{Backend, World, order_at, user_at, new_date, new_id}
use secondhand_api.Orders.OrdersService
use secondhand_api.Reviews.ReviewsRepository
use secondhand_api.Reviews.ReviewsRepository.{QueryReviewsDto}
use secondhand_api.Reviews.TrustScore.{TrustScore}

pub record CreateReviewDto : Type 0 where
  pub order_id : String
  pub rating : ℕ
  pub comment : Option String
  pub images : Option (List String)

pub record UpdateReviewDto : Type 0 where
  pub rating : Option ℕ
  pub comment : Option String
  pub images : Option (List String)

pub record ReviewPage : Type 0 where
  pub reviews : List Review
  pub total : ℕ
  pub page : ℕ
  pub limit : ℕ
  pub total_pages : ℕ

pub record UserTrustScore : Type 0 where
  pub user_id : String
  pub data_ : TrustScore

-- The row that `create` stores.
unfoldable pub new_review : String → ℕ → String → String → CreateReviewDto → Review
new_review id now reviewer_id reviewed_id dto = record {
  id = id;
  order_id = dto.order_id;
  reviewer_id = reviewer_id;
  reviewed_id = reviewed_id;
  rating = dto.rating;
  comment = dto.comment;
  images = given dto.images [];
  created_at = now;
}

-- `data: updateReviewDto`
unfoldable pub update_data : UpdateReviewDto → Review → Review
update_data dto r = record r {
  rating = given dto.rating r.rating;
  comment = given_or_kept dto.comment r.comment;
  images = given dto.images r.images;
}

abbrev pub is_complete : Order → Bool
is_complete o = same_order_status o.status confirmed || same_order_status o.status delivered

-- The other party: the seller for the buyer, and the buyer for the seller.
abbrev pub reviewed_by : String → Order → String
reviewed_by user_id o = if o.buyer_id == user_id then o.seller_id else o.buyer_id

module _ ⦃b : Backend⦄ where
  unfoldable pub create : String → CreateReviewDto → Exec World Review
  unfolding ReviewsRepository.create ReviewsRepository.find_by_order_id
      ReviewsRepository.update_user_trust_score new_review new_id new_date
  create user_id dto = do
    found ← λ w. (ok (order_at w dto.order_id), w)
    order ← or_throw (not_found "주문을 찾을 수 없습니다") found
    throw_if (not (is_complete order)) (bad_request "완료된 주문에만 리뷰를 작성할 수 있습니다")
    throw_if (not (order.buyer_id == user_id) && not (order.seller_id == user_id))
        (forbidden "이 주문에 대한 리뷰를 작성할 권한이 없습니다")
    existing ← ReviewsRepository.find_by_order_id dto.order_id
    throw_if_found (bad_request "이미 리뷰가 작성된 주문입니다") existing
    let reviewed_id = reviewed_by user_id order
    id ← new_id
    now ← new_date
    review ← ReviewsRepository.create (new_review id now user_id reviewed_id dto)
    ReviewsRepository.update_user_trust_score reviewed_id
    pure review

  unfoldable pub find_one : String → Exec World Review
  unfolding ReviewsRepository.find_by_id
  find_one id = do
    found ← ReviewsRepository.find_by_id id
    or_throw (not_found "리뷰를 찾을 수 없습니다") found

  unfoldable pub find_all : QueryReviewsDto → Exec World ReviewPage
  unfolding ReviewsRepository.find_many ReviewsRepository.count
  find_all q = do
    reviews ← ReviewsRepository.find_many q
    total ← ReviewsRepository.count q
    let limit = given q.limit 20
    pure (record {
      reviews = reviews;
      total = total;
      page = given q.page 1;
      limit = limit;
      total_pages = ceil_div total limit;
    })

  unfoldable pub find_by_order_id : String → Exec World (Option Review)
  unfolding OrdersService.find_by_id ReviewsRepository.find_by_order_id
  find_by_order_id order_id = do
    order ← OrdersService.find_by_id order_id
    ReviewsRepository.find_by_order_id order_id

  unfoldable pub get_trust_score : String → Exec World UserTrustScore
  unfolding ReviewsRepository.calculate_trust_score
  get_trust_score user_id = do
    found ← λ w. (ok (user_at w user_id), w)
    user ← or_throw (not_found "사용자를 찾을 수 없습니다") found
    score ← ReviewsRepository.calculate_trust_score user_id
    pure (record { user_id = user.id; data_ = score })

  -- `if (updateReviewDto.rating !== undefined) await this.reviewsRepository.updateUserTrustScore(…)`
  abbrev pub rescore : Option ℕ → String → Exec World (Unit {0})
  rescore none user_id = pure tt
  rescore (some _) user_id = ReviewsRepository.update_user_trust_score user_id

  unfoldable pub update : String → String → UpdateReviewDto → Exec World Review
  unfolding ReviewsRepository.find_by_id ReviewsRepository.update
      ReviewsRepository.update_user_trust_score update_data
  update id user_id dto = do
    found ← ReviewsRepository.find_by_id id
    review ← or_throw (not_found "리뷰를 찾을 수 없습니다") found
    throw_if (not (review.reviewer_id == user_id)) (forbidden "리뷰를 수정할 권한이 없습니다")
    updated_review ← ReviewsRepository.update id (update_data dto)
    rescore dto.rating review.reviewed_id
    pure updated_review

  unfoldable pub remove : String → String → Exec World Review
  unfolding ReviewsRepository.find_by_id ReviewsRepository.delete
      ReviewsRepository.update_user_trust_score
  remove id user_id = do
    found ← ReviewsRepository.find_by_id id
    review ← or_throw (not_found "리뷰를 찾을 수 없습니다") found
    throw_if (not (review.reviewer_id == user_id)) (forbidden "리뷰를 삭제할 권한이 없습니다")
    let reviewed_id = review.reviewed_id
    deleted_review ← ReviewsRepository.delete id
    ReviewsRepository.update_user_trust_score reviewed_id
    pure deleted_review
