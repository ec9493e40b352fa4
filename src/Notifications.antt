-- ===== src/Notifications.antt =====
-- src/modules/notifications: what users are told.
pub mod NotificationsRepository
pub mod NotificationsService
pub mod Owners
