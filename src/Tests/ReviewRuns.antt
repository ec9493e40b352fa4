-- ===== src/Tests/ReviewRuns.antt =====
-- The theorems on src/modules/reviews, applied to the market of the fixture.
use secondhand_api.Prelude.{none}
use secondhand_api.World.{World}
use secondhand_api.Tests.Fixture.{example_backend}
use secondhand_api.Reviews.ReviewsService
use secondhand_api.Reviews.ReviewsService.{CreateReviewDto, UpdateReviewDto, update_data}

abbrev five_stars : CreateReviewDto
five_stars = record { order_id = "o1"; rating = 5; comment = none; images = none }
