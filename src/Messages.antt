-- ===== src/Messages.antt =====
-- src/modules/messages: chat rooms about products, their members and messages.
pub mod MessagesRepository
pub mod MessagesService
pub mod Rooms
pub mod Membership
pub mod Requests
pub mod Unread
