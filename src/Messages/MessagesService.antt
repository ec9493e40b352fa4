-- ===== src/Messages/MessagesService.antt =====
-- src/modules/messages/messages.service.ts.
use secondhand_api.Prelude.{
  ℕ, String, Bool, not, Option, none, List, ◌==◌, any, select, map, if◌then◌else◌, false,
}
use secondhand_api.Http.{ok, bad_request, forbidden, not_found}
use secondhand_api.Exec.{Exec, pure, or_throw, throw_if, ◌>>=◌, ◌>>◌}
use secondhand_api.Schema.{deleted, same_product_status}
use secondhand_api.Schema.Chats.{ChatRoomMember, ChatMessage, MessageType}
use secondhand_api.World.{Backend, World, chatroom_created, message_created, new_date, new_id, emit}
use secondhand_api.Products.ProductsService
use secondhand_api.Messages.MessagesRepository
use secondhand_api.Messages.MessagesRepository.{
  RoomWithMembers, FoundOrCreated, MessagePage, unread_count,
}

-- What a message is sent with.
pub record SendMessageDto : Type 0 where
  pub chat_room_id : String
  pub content : String
  pub message_type : MessageType
  pub file_url : Option String
  pub file_name : Option String

pub record MemberWithUnread : Type 0 where
  pub member : ChatRoomMember
  pub unread_count : ℕ

unfoldable pub new_message : String → ℕ → String → SendMessageDto → ChatMessage
new_message id now sender_id dto = record {
  id = id;
  chat_room_id = dto.chat_room_id;
  sender_id = sender_id;
  content = dto.content;
  message_type = dto.message_type;
  file_url = dto.file_url;
  file_name = dto.file_name;
  is_read = false;
  read_at = none;
  created_at = now;
}

-- chatRoom.members.some((member) => member.userId === userId)
abbrev pub is_member : String → RoomWithMembers → Bool
is_member user_id chat_room = any (λ (m : ChatRoomMember). m.user_id == user_id) chat_room.members

-- The members other than the sender.
unfoldable pub recipients : String → RoomWithMembers → List String
recipients user_id chat_room =
    map (λ (m : ChatRoomMember). m.user_id)
      (select (λ (m : ChatRoomMember). not (m.user_id == user_id)) chat_room.members)

module _ ⦃b : Backend⦄ where
  -- The event of a room that is new.
  unfoldable pub announce : String → String → String → FoundOrCreated → Exec World (Unit {0})
  unfolding emit
  announce user_id product_id seller_id found =
      if found.is_new
      then emit (chatroom_created found.room.room.id product_id user_id seller_id)
      else pure tt

  unfoldable pub find_or_create_chat_room : String → String → Exec World RoomWithMembers
  unfolding ProductsService.find_by_id MessagesRepository.find_or_create_chat_room announce
  find_or_create_chat_room user_id product_id = do
    product ← ProductsService.find_by_id product_id
    throw_if (product.seller_id == user_id) (bad_request "본인 상품에는 채팅할 수 없습니다.")
    throw_if (same_product_status product.status deleted) (bad_request "삭제된 대화방 조회 시도")
    chat_room ← MessagesRepository.find_or_create_chat_room user_id product_id
    announce user_id product_id product.seller_id chat_room
    pure chat_room.room

  -- The room, if there is one and the user is in it; the messages of the exceptions differ by method.
  unfoldable pub check_member :
      String → String → (missing refusal : String) → Exec World RoomWithMembers
  unfolding MessagesRepository.find_chat_room_by_id
  check_member chat_room_id user_id missing refusal = do
    found ← MessagesRepository.find_chat_room_by_id chat_room_id
    chat_room ← or_throw (not_found missing) found
    throw_if (not (is_member user_id chat_room)) (forbidden refusal)
    pure chat_room

  unfoldable pub send_message : String → SendMessageDto → Exec World ChatMessage
  unfolding check_member MessagesRepository.create_message new_message recipients new_id new_date
      MessagesRepository.update_chat_room_timestamp emit
  send_message user_id dto = do
    chat_room ← check_member dto.chat_room_id user_id "채팅방을 찾을 수 없습니다." "채팅방 멤버만 메시지를 보낼 수 있습니다."
    id ← new_id
    now ← new_date
    message ← MessagesRepository.create_message (new_message id now user_id dto)
    MessagesRepository.update_chat_room_timestamp dto.chat_room_id
    emit (message_created dto.chat_room_id message.id user_id (recipients user_id chat_room))
    pure message

  -- `room.id` is the id of the member's row, which `getUnreadCount` takes for that of a room.
  unfoldable pub find_my_chat_rooms : String → Exec World (List MemberWithUnread)
  unfolding MessagesRepository.find_chat_rooms_by_user_id
  find_my_chat_rooms user_id = do
    chat_rooms ← MessagesRepository.find_chat_rooms_by_user_id user_id
    λ w. (
      ok (
          map
            (λ (room : ChatRoomMember). record {
              member = room;
              unread_count = unread_count w room.id user_id;
            })
            chat_rooms),
      w,
    )

  unfoldable pub find_message : String → String → ℕ → Exec World MessagePage
  unfolding check_member MessagesRepository.find_messages_by_room_id
  find_message user_id chat_room_id page = do
    check_member chat_room_id user_id "채팅방을 찾을 수 없습니다" "채팅방 멤버만 조회 가능합니다."
    MessagesRepository.find_messages_by_room_id chat_room_id page 50

  unfoldable pub mark_as_read : String → String → Exec World (Unit {0})
  unfolding check_member MessagesRepository.mark_messages_as_read
  mark_as_read chat_room_id user_id = do
    check_member chat_room_id user_id "채팅방을 찾을 수 없습니다." "권한이 없습니다."
    MessagesRepository.mark_messages_as_read chat_room_id user_id

  unfoldable pub leave_chat_room : String → String → Exec World (Unit {0})
  unfolding check_member MessagesRepository.leave_chat_room
  leave_chat_room chat_room_id user_id = do
    check_member chat_room_id user_id "채팅방을 찾을 수 없습니다." "권한이 없습니다."
    MessagesRepository.leave_chat_room chat_room_id user_id
