-- ===== src/Filters/Answers.antt =====
-- What users learn from the answers to calls that are refused.
use secondhand_api.Prelude.{ℕ, String, false, Option, none, some, List, ◌≡◌, refl, ◌==◌}
use secondhand_api.Http.{Result, ok, err}
use secondhand_api.Schema.Chats.{Notification}
use secondhand_api.World.{Backend, World, notification_at}
use secondhand_api.Notifications.NotificationsService
use secondhand_api.Notifications.NotificationsRepository
use secondhand_api.Filters.HttpExceptionFilter.{ErrorResponse, catch_exception}

-- What a result is answered with if it is an exception.
abbrev pub answer : {A : Type 0} → Result A → List String → ℕ → String → Option ErrorResponse
answer (ok a) target now path = none
answer (err e) target now path = catch_exception e target now path

-- The answer of a row that is not there.
abbrev missing_row : ℕ → String → ErrorResponse
missing_row now path = record {
  success = false;
  status_code = 404;
  error = record { code = "P2025"; message = "요청한 리소스를 찾을 수 없습니다"; details = none };
  timestamp = now;
  path = path;
}

module _ ⦃b : Backend⦄ where
  -- Who asks to delete a notification of somebody else is answered with status 404, exactly as if
  -- it were not there, and it stays.
  pub delete-hides :
      (id user_id : String) (w w' : World) (n : Notification)
      → notification_at w id ≡ some n
      → (n.user_id == user_id) ≡ false
      → notification_at w' id ≡ none
      → (target : List String) (now : ℕ) (path : String)
      → (r : ErrorResponse) × (answer (NotificationsService.delete id user_id w).0 target now path
          ≡ some r)
        × (answer (NotificationsService.delete id user_id w').0 target now path ≡ some r)
        × (r.status_code ≡ 404)
        × ((NotificationsService.delete id user_id w).1 ≡ w)
  unfolding NotificationsService.delete NotificationsRepository.delete catch_exception
  delete-hides id user_id w w' n there foreign gone target now path =
      (missing_row now path, rw (there, foreign) refl, rw gone refl, refl, rw (there, foreign) refl)
