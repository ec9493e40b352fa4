-- ===== src/Reviews.antt =====
-- src/modules/reviews: reviews of finished orders, and the trust score of a user.
pub mod TrustScore
pub mod Scores
pub mod ReviewsRepository
pub mod ReviewsService
pub mod Posting
pub mod Rescoring
