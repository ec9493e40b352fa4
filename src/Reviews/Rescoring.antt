-- ===== src/Reviews/Rescoring.antt =====
-- The score of a user when a review about them changes or goes: `update` and `remove` of
-- src/modules/reviews/reviews.service.ts.
use secondhand_api.Prelude.{
  ℕ, String, false, Option, none, some, ◌≡◌, refl, subst, sym, ◌==◌, if◌then◌else◌, arith, eq_self,
  eq_iff,
}
use secondhand_api.Http.{ok}
use secondhand_api.Schema.{User, Review}
use secondhand_api.World.{Backend, World, user_at, review_at}
use secondhand_api.Reviews.TrustScore.{trust_score_of}
use secondhand_api.Reviews.ReviewsRepository.{scored, ratings_of}
use secondhand_api.Reviews.ReviewsService
use secondhand_api.Reviews.ReviewsService.{UpdateReviewDto, update_data, rescore}
use secondhand_api.Reviews.Posting.{rescored}

module _ ⦃b : Backend⦄ where
  -- The user's stored score is that of the stored reviews; no other user and no review but one
  -- differs.
  pub record Rescored (w w' : World) (id user_id : String) (r : Option Review) (u : User)
      : Type 0 where
    pub review : review_at w' id ≡ r
    pub score : user_at w' user_id ≡ some (scored (trust_score_of (ratings_of w' user_id)) u)
    pub other_reviews : (k : String) → (id == k) ≡ false → review_at w' k ≡ review_at w k
    pub other_users : (k : String) → (user_id == k) ≡ false → user_at w' k ≡ user_at w k

  -- The state after a change of the reviews and a new score.
  abbrev rescored_state : World → b.review.Table → String → World
  rescored_state w reviews user_id =
      let w1 = record w { reviews = reviews } in
      record w1 {
        users = (b.user.update user_id (scored (trust_score_of (ratings_of w1 user_id))) w.users).1;
      }

  rescored_state-Rescored :
      (w : World) (reviews : b.review.Table) (id user_id : String) (r : Option Review) (u : User)
      → user_at w user_id ≡ some u
      → ((k : String) → b.review.find_unique k reviews ≡ (if id == k then r else review_at w k))
      → Rescored w (rescored_state w reviews user_id) id user_id r u
  rescored_state-Rescored w reviews id user_id r u found at =
      let f = scored (trust_score_of (ratings_of (record w { reviews = reviews }) user_id)) in
      let users = λ (k : String). b.user.find-update user_id k f w.users (λ r. refl) in
      record {
        review = rw (at id, eq_self id) refl;
        score = rw (users user_id, eq_self user_id, found) refl;
        other_reviews = λ k ne. rw (at k, ne) refl;
        other_users = λ k ne. rw (users k, ne) refl;
      }

  module _ (w : World) (r : Review) (u : User) (found : review_at w r.id ≡ some r)
      (there : user_at w r.reviewed_id ≡ some u) where
    -- The writer of a review can remove it: the review is gone, the reviewed user's stored trust
    -- score, average and number of reviews are those of the reviews that are left, and no other
    -- review or user changes.
    pub remove-rescores :
        (w' : World) × (ReviewsService.remove r.id r.reviewer_id w ≡ (ok r, w'))
        × Rescored w w' r.id r.reviewed_id none u
    unfolding ReviewsService.remove
    remove-rescores =
        let t = (b.review.delete r.id w.reviews).1 in
        (
          rescored_state w t r.reviewed_id,
          rw
              (
                found,
                eq_self r.reviewer_id,
                b.review.delete_row,
                found,
                rescored (record w { reviews = t }) r.reviewed_id u there,
              )
              refl,
          rescored_state-Rescored w t r.id r.reviewed_id none u there
              (λ k. b.review.find-delete r.id k w.reviews),
        )

    -- The writer of a review can give it another rating: the review has what is given, the reviewed
    -- user's stored trust score, average and number of reviews are those of the reviews stored, and
    -- no other review or user changes.
    pub update-rescores :
        (dto : UpdateReviewDto) (n : ℕ)
        → dto.rating ≡ some n
        → (w' : World) × (ReviewsService.update r.id r.reviewer_id dto w
            ≡ (ok (update_data dto r), w'))
          × Rescored w w' r.id r.reviewed_id (some (update_data dto r)) u
    unfolding ReviewsService.update update_data
    update-rescores dto n rated =
        let t = (b.review.update r.id (update_data dto) w.reviews).1 in
        let w1 = record w { reviews = t } in
        let again : rescore dto.rating r.reviewed_id w1
            ≡ (ok tt, rescored_state w t r.reviewed_id) =
          subst (λ s. rescore s r.reviewed_id w1 ≡ (ok tt, rescored_state w t r.reviewed_id))
            (sym rated) (rescored w1 r.reviewed_id u there) in
        (
          rescored_state w t r.reviewed_id,
          rw (found, eq_self r.reviewer_id, b.review.update_row, found, again) refl,
          rescored_state-Rescored w t r.id r.reviewed_id (some (update_data dto r)) u there (λ k.
              ground (
                arith,
                b.review.find-update r.id k (update_data dto) w.reviews (λ q. refl),
                found,
                eq_iff r.id k,
              )),
        )
