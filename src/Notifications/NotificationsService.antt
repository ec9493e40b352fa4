-- ===== src/Notifications/NotificationsService.antt =====
-- src/modules/notifications/notifications.service.ts: each method is one of the repository.
use secondhand_api.Prelude.{ℕ, String}
use secondhand_api.Exec.{Exec}
use secondhand_api.Schema.Chats.{Notification}
use secondhand_api.World.{Backend, World}
use secondhand_api.Notifications.NotificationsRepository
use secondhand_api.Notifications.NotificationsRepository.{CreateNotificationDto, NotificationPage}

module _ ⦃b : Backend⦄ where
  unfoldable pub create : CreateNotificationDto → Exec World Notification
  unfolding NotificationsRepository.create
  create = NotificationsRepository.create

  unfoldable pub find_my_notifications : String → ℕ → ℕ → Exec World NotificationPage
  unfolding NotificationsRepository.find_many
  find_my_notifications = NotificationsRepository.find_many

  unfoldable pub mark_as_read : String → String → Exec World ℕ
  unfolding NotificationsRepository.mark_as_read
  mark_as_read = NotificationsRepository.mark_as_read

  unfoldable pub mark_all_as_read : String → Exec World ℕ
  unfolding NotificationsRepository.mark_all_as_read
  mark_all_as_read = NotificationsRepository.mark_all_as_read

  unfoldable pub delete : String → String → Exec World Notification
  unfolding NotificationsRepository.delete
  delete = NotificationsRepository.delete

  unfoldable pub get_unread_count : String → Exec World ℕ
  unfolding NotificationsRepository.get_unread_count
  get_unread_count = NotificationsRepository.get_unread_count
