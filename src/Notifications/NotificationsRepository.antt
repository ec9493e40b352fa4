-- ===== src/Notifications/NotificationsRepository.antt =====
-- src/modules/notifications/repositories/notifications.repository.ts, as in
-- Products/ProductsRepository.
use secondhand_api.Prelude.{
  ℕ, ◌-◌, ◌*◌, String, Bool, true, false, not, ◌&&◌, Option, none, some, List, ◌==◌, ltb, take,
  drop, length, ceil_div, if◌then◌else◌,
}
use secondhand_api.Http.{Result, ok, err, prisma_error}
use secondhand_api.Exec.{Exec, ◌>>=◌}
use secondhand_api.Schema.Chats.{Notification, NotificationType}
use secondhand_api.World.{Backend, World, notification_at, or_reject, new_date, new_id}

-- What a notification is created with.
pub record CreateNotificationDto : Type 0 where
  pub user_id : String
  pub notification_type : NotificationType
  pub title : String
  pub message : String
  pub related_id : Option String
  pub related_type : Option String

pub record NotificationPage : Type 0 where
  pub items : List Notification
  pub total : ℕ
  pub page : ℕ
  pub total_pages : ℕ
  pub unread_count : ℕ

-- where: { userId }, with { isRead: false } and with { id }
abbrev pub is_of : String → Notification → Bool
is_of user_id n = n.user_id == user_id

abbrev pub is_unread_of : String → Notification → Bool
is_unread_of user_id n = n.user_id == user_id && not n.is_read

abbrev pub is_own : String → String → Notification → Bool
is_own id user_id n = n.id == id && n.user_id == user_id

-- orderBy: { createdAt: 'desc' }
abbrev pub newest : Notification → Notification → Bool
newest n o = ltb o.created_at n.created_at

unfoldable pub new_notification : String → ℕ → CreateNotificationDto → Notification
new_notification id now dto = record {
  id = id;
  user_id = dto.user_id;
  notification_type = dto.notification_type;
  title = dto.title;
  message = dto.message;
  related_id = dto.related_id;
  related_type = dto.related_type;
  is_read = false;
  read_at = none;
  created_at = now;
}

module _ ⦃b : Backend⦄ where
  abbrev insert : Notification → Exec World Notification
  insert n w =
      let (r, t) = b.notification.create n w.notifications in
      (or_reject "P2002" r, record w { notifications = t })

  unfoldable pub create : CreateNotificationDto → Exec World Notification
  unfolding new_notification new_id new_date
  create dto = do id ← new_id; now ← new_date; insert (new_notification id now dto)

  abbrev pub count : (Notification → Bool) → World → ℕ
  count where_ w = length (b.notification.find_many where_ w.notifications)

  unfoldable pub find_many : String → ℕ → ℕ → Exec World NotificationPage
  find_many user_id page limit w =
      let items = take limit (
        drop ((page - 1) * limit)
          (b.notification.find_sorted (is_of user_id) newest w.notifications)) in
      let total = count (is_of user_id) w in
      (
        ok (record {
          items = items;
          total = total;
          page = page;
          total_pages = ceil_div total limit;
          unread_count = count (is_unread_of user_id) w;
        }),
        w,
      )

  -- The number of rows that are changed; the time of reading is not set.
  unfoldable pub mark_as_read : String → String → Exec World ℕ
  mark_as_read id user_id w = (
    ok (count (is_own id user_id) w),
    record w {
      notifications =
          b.notification.update_many (is_own id user_id) (λ n. record n { is_read = true })
            w.notifications;
    },
  )

  unfoldable pub mark_all_as_read : String → Exec World ℕ
  unfolding new_date
  mark_all_as_read user_id = do
    now ← new_date
    λ w. (
      ok (count (is_unread_of user_id) w),
      record w {
        notifications =
            b.notification.update_many (is_unread_of user_id)
              (λ n. record n { is_read = true; read_at = some now }) w.notifications;
      },
    )

  abbrev delete_own : String → String → World → Option Notification → Result Notification × World
  delete_own id user_id w none = (err (prisma_error "P2025"), w)
  delete_own id user_id w (some n) =
      if n.user_id == user_id
      then (ok n, record w { notifications = (b.notification.delete id w.notifications).1 })
      else (err (prisma_error "P2025"), w)

  -- delete({ where: { id, userId } })
  unfoldable pub delete : String → String → Exec World Notification
  delete id user_id w = delete_own id user_id w (notification_at w id)

  unfoldable pub get_unread_count : String → Exec World ℕ
  get_unread_count user_id w = (ok (count (is_unread_of user_id) w), w)
