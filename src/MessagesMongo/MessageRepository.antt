-- ===== src/MessagesMongo/MessageRepository.antt =====
-- src/modules/messages-mongo/repositories/messages.repository.mongo.ts, as in ChatRoomRepository.
use secondhand_api.Prelude.{ℕ, String, Bool, ◌&&◌, Option, none, some, ◌==◌, take, drop, length}
use secondhand_api.Http.{ok}
use secondhand_api.Exec.{Exec, ◌>>=◌}
use secondhand_api.Schema.Documents.{MessageDocument, MongoMessageType}
use secondhand_api.World.{Backend, World, or_reject, new_date, new_id}
use secondhand_api.Pagination.{PaginatedResult, PaginationOptions, paginate, get_skip}
use secondhand_api.MessagesMongo.ChatRoomRepository.{is_there}

-- What a message is sent with.
pub record SendMessageDto : Type 0 where
  pub chat_room_id : String
  pub receiver_id : String
  pub content : String
  pub message_type : MongoMessageType
  pub file_url : Option String
  pub file_name : Option String

-- { conversationId, readAt: null, receiverId }
abbrev pub is_unread : String → String → MessageDocument → Bool
is_unread chat_room_id receiver_id m =
    m.conversation_id == chat_room_id && (is_there m.read_at && m.receiver_id == receiver_id)

unfoldable pub new_message : String → ℕ → String → SendMessageDto → MessageDocument
new_message id now sender_id dto = record {
  id = id;
  conversation_id = dto.chat_room_id;
  sender_id = sender_id;
  receiver_id = dto.receiver_id;
  message = dto.content;
  message_type = dto.message_type;
  read_at = none;
  file_url = dto.file_url;
  file_name = dto.file_name;
  created_at = now;
}

module _ ⦃b : Backend⦄ where
  abbrev insert_one : MessageDocument → Exec World MessageDocument
  insert_one m w =
      let (r, t) = b.mongo_message.create m w.mongo_messages in
      (or_reject "E11000" r, record w { mongo_messages = t })

  unfoldable pub create_message : String → SendMessageDto → Exec World MessageDocument
  unfolding new_message new_id new_date
  create_message sender_id dto = do
    id ← new_id
    now ← new_date
    insert_one (new_message id now sender_id dto)

  unfoldable pub find_messages_by_room_id :
      String
      → PaginationOptions
      → (MessageDocument → MessageDocument → Bool)
      → Exec World (PaginatedResult MessageDocument)
  unfolding get_skip
  find_messages_by_room_id chat_room_id pagination before w =
      let where_ = λ (m : MessageDocument). m.conversation_id == chat_room_id in
      let items = take pagination.limit (
        drop (get_skip pagination.page pagination.limit)
          (b.mongo_message.find_sorted where_ before w.mongo_messages)) in
      let total = length (b.mongo_message.find_many where_ w.mongo_messages) in
      (ok (paginate items total pagination), w)

  abbrev pub unread_count : World → String → String → ℕ
  unread_count w chat_room_id user_id =
      length (b.mongo_message.find_many (is_unread chat_room_id user_id) w.mongo_messages)

  unfoldable pub mark_messages_as_read : String → String → Exec World ℕ
  unfolding new_date
  mark_messages_as_read chat_room_id receiver_id = do
    now ← new_date
    λ w. (
      ok (unread_count w chat_room_id receiver_id),
      record w {
        mongo_messages =
            b.mongo_message.update_many (is_unread chat_room_id receiver_id)
              (λ m. record m { read_at = some now }) w.mongo_messages;
      },
    )

  unfoldable pub count_unread_messages_by_room_and_user : String → String → Exec World ℕ
  count_unread_messages_by_room_and_user chat_room_id user_id w =
      (ok (unread_count w chat_room_id user_id), w)

  unfoldable pub delete_messages_by_chat_room_id : String → Exec World (Unit {0})
  delete_messages_by_chat_room_id chat_room_id w = (
    ok tt,
    record w {
      mongo_messages =
          b.mongo_message.delete_many (λ m. m.conversation_id == chat_room_id) w.mongo_messages;
    },
  )
