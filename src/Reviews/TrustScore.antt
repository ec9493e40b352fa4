-- ===== src/Reviews/TrustScore.antt =====
-- The arithmetic of `calculateTrustScore` in
-- src/modules/reviews/repositories/reviews.repository.ts, on the ratings of the reviews that a user
-- has received. Scores and averages are numbers of tenths, as the code rounds them; the quotients
-- between are exact, where the code has floating point.
use secondhand_api.Prelude.{ℕ, suc, ◌+◌, ◌*◌, ◌/◌, List, [], ◌∷◌, eqb, length, min, if◌then◌else◌}

-- `ratingDistribution`, from 1 to 5. A rating outside that range, which the DTO refuses, is counted
-- nowhere.
pub record RatingDistribution : Type 0 where
  pub one : ℕ
  pub two : ℕ
  pub three : ℕ
  pub four : ℕ
  pub five : ℕ

abbrev pub no_ratings : RatingDistribution
no_ratings = record { one = 0; two = 0; three = 0; four = 0; five = 0 }

pub record TrustScore : Type 0 where
  pub trust_score : ℕ
  pub average_rating : ℕ
  pub total_reviews : ℕ
  pub rating_distribution : RatingDistribution

-- `reviews.reduce((sum, review) => sum + review.rating, 0)`
unfoldable pub sum_from : ℕ → List ℕ → ℕ
sum_from sum [] = sum
sum_from sum (r ∷ rs) = sum_from (sum + r) rs

-- `ratingDistribution[review.rating]++`
unfoldable pub tally : ℕ → RatingDistribution → RatingDistribution
tally r d =
    if eqb r 1
    then record d { one = suc d.one }
    else if eqb r 2
    then record d { two = suc d.two }
    else if eqb r 3
    then record d { three = suc d.three }
    else if eqb r 4
    then record d { four = suc d.four }
    else if eqb r 5
    then record d { five = suc d.five }
    else d

unfoldable pub tally_all : RatingDistribution → List ℕ → RatingDistribution
unfolding tally
tally_all d [] = d
tally_all d (r ∷ rs) = tally_all (tally r d) rs

-- `Math.round(a / b)`, for a positive b.
unfoldable pub round_div : ℕ → ℕ → ℕ
round_div a b = (2 * a + b) / (2 * b)

-- Tenths of `totalRating / totalReviews`, rounded.
unfoldable pub average_tenths : ℕ → ℕ → ℕ
unfolding round_div
average_tenths total_rating total_reviews = round_div (10 * total_rating) total_reviews

-- Tenths of `averageRating / 5 * 80 + min(totalReviews / 50, 1) * 20`, rounded.
unfoldable pub score_tenths : ℕ → ℕ → ℕ
unfolding round_div
score_tenths total_rating total_reviews =
    round_div (160 * total_rating + 4 * min total_reviews 50 * total_reviews) total_reviews

unfoldable pub trust_score_of : List ℕ → TrustScore
unfolding sum_from tally_all average_tenths score_tenths
trust_score_of [] = record {
  trust_score = 0;
  average_rating = 0;
  total_reviews = 0;
  rating_distribution = no_ratings;
}
trust_score_of (r ∷ rs) =
    let ratings = r ∷ rs in
    let total_reviews = length ratings in
    let total_rating = sum_from 0 ratings in
    record {
      trust_score = score_tenths total_rating total_reviews;
      average_rating = average_tenths total_rating total_reviews;
      total_reviews = total_reviews;
      rating_distribution = tally_all no_ratings ratings;
    }
