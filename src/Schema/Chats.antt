-- ===== src/Schema/Chats.antt =====
-- The rows of prisma/schema.prisma for chat rooms and notifications, as in Schema.
use secondhand_api.Prelude.{ℕ, String, Bool, ◌||◌, ◌&&◌, Option, ◌==◌}

pub data MessageType : Type 0 where
  text image file system : MessageType

pub data NotificationType : Type 0 where
  product_liked new_message order_created order_confirmed : NotificationType
  order_cancelled payment_completed review_received system : NotificationType

pub record ChatRoom : Type 0 where
  pub id : String
  pub product_id : Option String
  pub created_at : ℕ
  pub updated_at : ℕ

pub record ChatRoomMember : Type 0 where
  pub id : String
  pub chat_room_id : String
  pub user_id : String
  pub last_read_at : Option ℕ
  pub joined_at : ℕ

pub record ChatMessage : Type 0 where
  pub id : String
  pub chat_room_id : String
  pub sender_id : String
  pub content : String
  pub message_type : MessageType
  pub file_url : Option String
  pub file_name : Option String
  pub is_read : Bool
  pub read_at : Option ℕ
  pub created_at : ℕ

pub record Notification : Type 0 where
  pub id : String
  pub user_id : String
  pub notification_type : NotificationType
  pub title : String
  pub message : String
  pub related_id : Option String
  pub related_type : Option String
  pub is_read : Bool
  pub read_at : Option ℕ
  pub created_at : ℕ

abbrev pub room_conflicts : ChatRoom → ChatRoom → Bool
room_conflicts r s = r.id == s.id

abbrev pub member_conflicts : ChatRoomMember → ChatRoomMember → Bool
member_conflicts m n = m.id == n.id || (m.chat_room_id == n.chat_room_id && m.user_id == n.user_id)

abbrev pub message_conflicts : ChatMessage → ChatMessage → Bool
message_conflicts m n = m.id == n.id

abbrev pub notification_conflicts : Notification → Notification → Bool
notification_conflicts n o = n.id == o.id
