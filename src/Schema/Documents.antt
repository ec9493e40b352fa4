-- ===== src/Schema/Documents.antt =====
-- The documents of src/modules/messages-mongo/schemas, which its mappers hand on as entities of the
-- same columns. An id is known by its text.
use secondhand_api.Prelude.{ℕ, String, Bool, Option, List, ◌==◌}

pub record Participant : Type 0 where
  pub user_id : String
  pub joined_at : ℕ
  -- none while the user takes part
  pub left_at : Option ℕ

pub record ChatRoomDocument : Type 0 where
  pub id : String
  pub product_id : String
  pub participants : List Participant
  pub participants_count : ℕ
  pub last_message : Option String
  pub last_message_id : Option String
  pub last_message_at : Option ℕ
  pub related_order_id : Option String
  pub created_at : ℕ

-- The enum of this module.
pub data MongoMessageType : Type 0 where
  text image system : MongoMessageType

pub record MessageDocument : Type 0 where
  pub id : String
  pub conversation_id : String
  pub sender_id : String
  pub receiver_id : String
  pub message : String
  pub message_type : MongoMessageType
  pub read_at : Option ℕ
  pub file_url : Option String
  pub file_name : Option String
  pub created_at : ℕ

abbrev pub room_document_conflicts : ChatRoomDocument → ChatRoomDocument → Bool
room_document_conflicts r s = r.id == s.id

abbrev pub message_document_conflicts : MessageDocument → MessageDocument → Bool
message_document_conflicts m n = m.id == n.id
