-- ===== src/MessagesMongo/MessageService.antt =====
-- src/modules/messages-mongo/services/message.service.ts, and the handler of its event that changes
-- a room.
use secondhand_api.Prelude.{ℕ, String, Bool}
use secondhand_api.Exec.{Exec, pure, ◌>>=◌, ◌>>◌}
use secondhand_api.Schema.Documents.{MessageDocument}
use secondhand_api.World.{Backend, World, message_sent, emit, new_id, new_date}
use secondhand_api.Users.UsersService
use secondhand_api.Pagination.{PaginatedResult, PaginationOptions}
use secondhand_api.MessagesMongo.MessageRepository
use secondhand_api.MessagesMongo.MessageRepository.{SendMessageDto}
use secondhand_api.MessagesMongo.ChatRoomService

module _ ⦃b : Backend⦄ where
  -- The event has an id and a time of its own.
  unfoldable pub after_message_sent : String → MessageDocument → Exec World (Unit {0})
  unfolding new_id new_date emit
  after_message_sent chat_room_id m = do
    event_id ← new_id
    timestamp ← new_date
    emit (
        message_sent event_id timestamp m.id chat_room_id m.sender_id m.receiver_id m.message
          m.message_type m.file_url m.file_name)

  -- What `sendMessage` reads before it writes; nothing is asked about who takes part in the room.
  unfoldable pub check_send : String → SendMessageDto → Exec World (Unit {0})
  unfolding UsersService.ensure_user_exists ChatRoomService.ensure_chat_room_exist
  check_send sender_id dto = do
    UsersService.ensure_user_exists sender_id
    UsersService.ensure_user_exists dto.receiver_id
    ChatRoomService.ensure_chat_room_exist dto.chat_room_id

  unfoldable pub commit_send : String → SendMessageDto → Exec World MessageDocument
  unfolding MessageRepository.create_message after_message_sent
  commit_send sender_id dto = do
    message ← MessageRepository.create_message sender_id dto
    after_message_sent dto.chat_room_id message
    pure message

  unfoldable pub send_message : String → SendMessageDto → Exec World MessageDocument
  unfolding check_send commit_send
  send_message sender_id dto = do check_send sender_id dto; commit_send sender_id dto

  unfoldable pub find_messages_by_room_id :
      String
      → String
      → PaginationOptions
      → (MessageDocument → MessageDocument → Bool)
      → Exec World (PaginatedResult MessageDocument)
  unfolding ChatRoomService.ensure_user_can_access_chat_room
      MessageRepository.find_messages_by_room_id
  find_messages_by_room_id room_id user_id pagination before = do
    ChatRoomService.ensure_user_can_access_chat_room room_id user_id
    MessageRepository.find_messages_by_room_id room_id pagination before

  unfoldable pub mark_messages_as_read : String → String → Exec World ℕ
  unfolding MessageRepository.mark_messages_as_read
  mark_messages_as_read = MessageRepository.mark_messages_as_read

  unfoldable pub count_unread_messages_by_room : String → String → Exec World ℕ
  unfolding MessageRepository.count_unread_messages_by_room_and_user
  count_unread_messages_by_room = MessageRepository.count_unread_messages_by_room_and_user

  unfoldable pub remove_messages_by_chat_room_id : String → Exec World (Unit {0})
  unfolding MessageRepository.delete_messages_by_chat_room_id
  remove_messages_by_chat_room_id = MessageRepository.delete_messages_by_chat_room_id

  -- UpdateLastMessageHandler.handle
  unfoldable pub update_last_message_handle :
      (chat_room_id message_id message : String) → Exec World (Unit {0})
  unfolding ChatRoomService.update_last_message
  update_last_message_handle chat_room_id message_id message =
      ChatRoomService.update_last_message chat_room_id message message_id
