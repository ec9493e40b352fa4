-- ===== src/Notifications/Owners.antt =====
-- Whose notifications the calls of src/modules/notifications/notifications.service.ts change.
use secondhand_api.Prelude.{
  ℕ, String, true, false, none, some, ◌≡◌, refl, sym, ap, ◌∙◌, ◌==◌, ltb, arith, if◌then◌else◌,
  Bool-cases, Option-cases, inl, inr, map-eq-some, eq_true,
}
use mathlib.Core.Option
use secondhand_api.Http.{ok}
use secondhand_api.Prisma.Counting.{row_of_count, uncounted}
use secondhand_api.Schema.Chats.{Notification}
use secondhand_api.World.{Backend, World, notification_at}
use secondhand_api.Notifications.NotificationsRepository
use secondhand_api.Notifications.NotificationsRepository.{is_of, is_own, is_unread_of, count}
use secondhand_api.Notifications.NotificationsService

-- The writes, by the user who calls.
pub data Call : Type 0 where
  read_one : (id user_id : String) → Call
  read_all : (user_id : String) → Call
  remove : (id user_id : String) → Call

abbrev pub caller : Call → String
caller (read_one id user_id) = user_id
caller (read_all user_id) = user_id
caller (remove id user_id) = user_id

unread_gone :
    (user_id : String) (now : ℕ) (x y : Notification)
    → (if is_unread_of user_id x then record x { is_read = true; read_at = some now } else x) ≡ y
    → is_unread_of user_id y ≡ false
unread_gone user_id now x y changed = ground (arith, changed)

module _ ⦃b : Backend⦄ where
  unfoldable pub serve : Call → World → World
  serve (read_one id user_id) w = (NotificationsService.mark_as_read id user_id w).1
  serve (read_all user_id) w = (NotificationsService.mark_all_as_read user_id w).1
  serve (remove id user_id) w = (NotificationsService.delete id user_id w).1

  delete-KeepsOthers :
      (id user_id : String) (w : World) (k : String) (n : Notification)
      → notification_at w k ≡ some n
      → (n.user_id == user_id) ≡ false
      → notification_at (NotificationsService.delete id user_id w).1 k ≡ some n
  unfolding NotificationsService.delete NotificationsRepository.delete
  delete-KeepsOthers id user_id w k n there other = elim (Option-cases (notification_at w id)) [
    | inl gone ↦ rw gone there
    | inr (x, found) ↦ elim (Bool-cases (x.user_id == user_id)) [
      | inr foreign ↦ rw (found, foreign) there
      | inl own ↦
          rw (found, own)
            (elim (Bool-cases (id == k)) [
              | inr apart ↦
                  b.notification.find-delete id k w.notifications
                  ∙ ap (λ c. if c then none else notification_at w k) apart
                  ∙ there
              | inl same ↦
                  let e : some x ≡ some n =
                    sym found ∙ ap (notification_at w) (eq_true same) ∙ there in
                  absurd (ground (arith, e, own, other))
            ])
    ]
  ]

  -- Whatever the call and however it ends, the notifications of all other users stay as they were.
  pub serve-KeepsOthers :
      (c : Call) (w : World) (k : String) (n : Notification)
      → notification_at w k ≡ some n
      → (n.user_id == caller c) ≡ false
      → notification_at (serve c w) k ≡ some n
  unfolding serve NotificationsService.mark_as_read NotificationsService.mark_all_as_read
      NotificationsService.delete NotificationsRepository.mark_as_read
      NotificationsRepository.mark_all_as_read NotificationsRepository.delete
  serve-KeepsOthers (read_one id user_id) w k n there other =
      b.notification.find-update_many (is_own id user_id) _ w.notifications (λ x. refl) k
      ∙ ap (Option.map _) there
      ∙ ground (arith, other)
  serve-KeepsOthers (read_all user_id) w k n there other =
      b.notification.find-update_many (is_unread_of user_id) _ w.notifications (λ x. refl) k
      ∙ ap (Option.map _) there
      ∙ ground (arith, other)
  serve-KeepsOthers (remove id user_id) w k n there other =
      delete-KeepsOthers id user_id w k n there other

  -- After all are marked as read, a user has none unread.
  pub mark_all_as_read-none :
      (user_id : String) (w : World)
      → (w' : World) × (NotificationsService.mark_all_as_read user_id w
          ≡ (ok (count (is_unread_of user_id) w), w'))
        × (NotificationsService.get_unread_count user_id w' ≡ (ok 0, w'))
  unfolding NotificationsService.mark_all_as_read NotificationsService.get_unread_count
      NotificationsRepository.mark_all_as_read NotificationsRepository.get_unread_count
  mark_all_as_read-none user_id w =
      let w' = (NotificationsService.mark_all_as_read user_id w).1 in
      let none_ : count (is_unread_of user_id) w' ≡ 0 =
        elim (Bool-cases (ltb 0 (count (is_unread_of user_id) w'))) [
          | inr nought ↦ uncounted _ nought
          | inl some_ ↦
              let (y, there, unread) =
                row_of_count b.notification (is_unread_of user_id) w'.notifications some_ in
              let (x, was, changed) = map-eq-some _ _ y (
                sym (b.notification.find-update_many _ _ w.notifications (λ n. refl) y.id)
                ∙ there) in
              absurd (let e = sym unread ∙ unread_gone user_id _ x y changed in cc)
        ] in
      (w', refl, ap (λ n. (ok n, w')) none_)
