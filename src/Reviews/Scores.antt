-- ===== src/Reviews/Scores.antt =====
-- What a trust score is, whatever the ratings.
use Prim.Native.Nat.{◌≤◌}
use secondhand_api.Prelude.{
  ℕ, suc, ◌+◌, ◌*◌, ◌<◌, List, [], ◌∷◌, ◌≡◌, ◌↔◌, refl, arith, length, min,
}
use secondhand_api.Reviews.TrustScore.{
  RatingDistribution, no_ratings, sum_from, tally, tally_all, round_div, trust_score_of,
}

-- Ratings from 1 to 5 stars.
abbrev pub AreStars : List ℕ → Type 0
AreStars [] = Unit
AreStars (r ∷ rs) = (1 ≤ r) × (r ≤ 5) × AreStars rs

abbrev pub count_all : RatingDistribution → ℕ
count_all d = d.one + d.two + d.three + d.four + d.five

abbrev pub weigh_all : RatingDistribution → ℕ
weigh_all d = d.one + 2 * d.two + 3 * d.three + 4 * d.four + 5 * d.five

sum_from_bounds :
    (sum : ℕ) (rs : List ℕ)
    → AreStars rs
    → (sum + length rs ≤ sum_from sum rs) × (sum_from sum rs ≤ sum + 5 * length rs)
unfolding sum_from
sum_from_bounds sum [] h = omega arith
sum_from_bounds sum (r ∷ rs) h = omega (arith, sum_from_bounds (sum + r) rs h.2)

tally_counts :
    (r : ℕ) (d : RatingDistribution)
    → 1 ≤ r
    → r ≤ 5
    → (count_all (tally r d) ≡ suc (count_all d)) × (weigh_all (tally r d) ≡ weigh_all d + r)
unfolding tally
tally_counts r d from to = ground arith

tally_all_counts :
    (d : RatingDistribution) (sum : ℕ) (rs : List ℕ)
    → AreStars rs
    → weigh_all d ≡ sum
    → (count_all (tally_all d rs) ≡ count_all d + length rs)
      × (weigh_all (tally_all d rs) ≡ sum_from sum rs)
unfolding tally_all sum_from
tally_all_counts d sum [] h e = (omega arith, e)
tally_all_counts d sum (r ∷ rs) h e =
    let (count, weight) = tally_counts r d h.0 h.1 in
    let (counts, weights) = tally_all_counts (tally r d) (sum + r) rs h.2 (omega arith) in
    (omega arith, weights)

round_div-le : (a b k : ℕ) → 0 < b → a ≤ k * b → round_div a b ≤ k
unfolding round_div
round_div-le a b k pos h = grind arith

le-round_div : (a b k : ℕ) → 0 < b → k * b ≤ a → k ≤ round_div a b
unfolding round_div
le-round_div a b k pos h = grind arith

scale-le : (k m n : ℕ) → k ≤ m → k * n ≤ m * n
scale-le k m n h = grind arith

bonus-le : (n : ℕ) → 4 * min n 50 * n ≤ 200 * n
bonus-le n = scale-le (4 * min n 50) 200 n (omega arith)

le-bonus : (n : ℕ) → 0 < n → 4 * n ≤ 4 * min n 50 * n
le-bonus n pos = scale-le 4 (4 * min n 50) n (omega arith)

-- Scores of users with reviews, all from 1 to 5 stars: the score lies between 16.4 and 100, the
-- average between 1 and 5, and the distribution counts each review once and adds up to the total
-- rating.
pub trust_score_of_bounds :
    (r : ℕ) (rs : List ℕ)
    → AreStars (r ∷ rs)
    → let t = trust_score_of (r ∷ rs) in
      (164 ≤ t.trust_score)
      × (t.trust_score ≤ 1000)
      × (10 ≤ t.average_rating)
      × (t.average_rating ≤ 50)
      × (t.total_reviews ≡ length (r ∷ rs))
      × (count_all t.rating_distribution ≡ t.total_reviews)
      × (weigh_all t.rating_distribution ≡ sum_from 0 (r ∷ rs))
unfolding trust_score_of
trust_score_of_bounds r rs h =
    let n = length (r ∷ rs) in
    let sum = sum_from_bounds 0 (r ∷ rs) h in
    let counts = tally_all_counts no_ratings 0 (r ∷ rs) h refl in
    let sum_low : n ≤ sum_from 0 (r ∷ rs) = omega (arith, sum) in
    let sum_high : sum_from 0 (r ∷ rs) ≤ 5 * n = omega (arith, sum) in
    let low = le-bonus n (omega arith) in
    let high = bonus-le n in
    (
      le-round_div _ n 164 (omega arith) (omega arith),
      round_div-le _ n 1000 (omega arith) (omega arith),
      le-round_div _ n 10 (omega arith) (omega arith),
      round_div-le _ n 50 (omega arith) (omega arith),
      refl,
      omega (arith, counts),
      counts.1,
    )

-- Only a user without reviews has the score nought, among users whose ratings are 1 to 5 stars.
pub trust_score_of-eq-zero_iff :
    (rs : List ℕ) → AreStars rs → ((trust_score_of rs).trust_score ≡ 0) ↔ (rs ≡ [])
unfolding trust_score_of
trust_score_of-eq-zero_iff [] h = (λ _. refl, λ _. refl)
trust_score_of-eq-zero_iff (r ∷ rs) h =
    let low = (trust_score_of_bounds r rs h).0 in (λ e. absurd (omega arith), λ e. cc)

sum_from-add : (sum : ℕ) (rs : List ℕ) → sum_from sum rs ≡ sum + sum_from 0 rs
unfolding sum_from
sum_from-add sum [] = omega arith
sum_from-add sum (r ∷ rs) = omega (arith, sum_from-add (sum + r) rs, sum_from-add (0 + r) rs)
