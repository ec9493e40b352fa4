-- ===== src/Reviews/ReviewsRepository.antt =====
-- src/modules/reviews/repositories/reviews.repository.ts, as in Products/ProductsRepository.
use secondhand_api.Prelude.{
  ℕ, ◌-◌, ◌*◌, String, Bool, ◌&&◌, Option, List, map, ◌==◌, ltb, leb, take, drop, length, given,
}
use secondhand_api.Http.{ok}
use secondhand_api.Exec.{Exec, pure, ◌>>=◌}
use secondhand_api.Schema.{Review, User}
use secondhand_api.World.{Backend, World, review_at, or_reject}
use secondhand_api.Products.ProductsRepository.{if_text, if_number}
use secondhand_api.Reviews.TrustScore.{TrustScore, trust_score_of}

pub record QueryReviewsDto : Type 0 where
  pub reviewer_id : Option String
  pub reviewed_id : Option String
  pub min_rating : Option ℕ
  pub max_rating : Option ℕ
  pub page : Option ℕ
  pub limit : Option ℕ

-- orderBy: { createdAt: 'desc' }
abbrev pub newest : Review → Review → Bool
newest r s = ltb s.created_at r.created_at

-- The `where` of a query. With both bounds the last of the three `rating` entries holds, which has
-- both.
abbrev pub query_filter : QueryReviewsDto → Review → Bool
query_filter q r =
    if_text q.reviewer_id (λ id. r.reviewer_id == id)
    && if_text q.reviewed_id (λ id. r.reviewed_id == id)
    && if_number q.min_rating (λ n. leb n r.rating)
    && if_number q.max_rating (λ n. leb r.rating n)

-- `data: { trustScore, rating: averageRating, ratingCount: totalReviews }`
abbrev pub scored : TrustScore → User → User
scored t u = record u {
  trust_score = t.trust_score;
  rating = t.average_rating;
  rating_count = t.total_reviews;
}

module _ ⦃b : Backend⦄ where
  unfoldable pub create : Review → Exec World Review
  create r w =
      let (r', t) = b.review.create r w.reviews in (or_reject "P2002" r', record w { reviews = t })

  unfoldable pub find_by_id : String → Exec World (Option Review)
  find_by_id id w = (ok (review_at w id), w)

  -- The review of an order, if there is one.
  abbrev pub review_of : World → String → Option Review
  review_of w order_id = b.review.find_first (λ r. r.order_id == order_id) w.reviews

  unfoldable pub find_by_order_id : String → Exec World (Option Review)
  find_by_order_id order_id w = (ok (review_of w order_id), w)

  unfoldable pub find_many : QueryReviewsDto → Exec World (List Review)
  find_many q w =
      let page = given q.page 1 in
      let limit = given q.limit 20 in
      (
        ok (
            take limit
              (drop ((page - 1) * limit) (b.review.find_sorted (query_filter q) newest w.reviews))),
        w,
      )

  unfoldable pub count : QueryReviewsDto → Exec World ℕ
  count q w = (ok (length (b.review.find_many (query_filter q) w.reviews)), w)

  unfoldable pub update : String → (Review → Review) → Exec World Review
  update id f w =
      let (r, t) = b.review.update id f w.reviews in (or_reject "P2025" r, record w { reviews = t })

  unfoldable pub delete : String → Exec World Review
  delete id w =
      let (r, t) = b.review.delete id w.reviews in (or_reject "P2025" r, record w { reviews = t })

  -- The ratings of the reviews that a user has received.
  abbrev pub ratings_of : World → String → List ℕ
  ratings_of w user_id =
      map (λ r. r.rating) (b.review.find_many (λ r. r.reviewed_id == user_id) w.reviews)

  unfoldable pub calculate_trust_score : String → Exec World TrustScore
  calculate_trust_score user_id w = (ok (trust_score_of (ratings_of w user_id)), w)

  unfoldable pub update_user_trust_score : String → Exec World (Unit {0})
  unfolding calculate_trust_score
  update_user_trust_score user_id = do
    t ← calculate_trust_score user_id
    user ← λ w.
        let (r, users) = b.user.update user_id (scored t) w.users in
        (or_reject "P2025" r, record w { users = users })
    pure tt
