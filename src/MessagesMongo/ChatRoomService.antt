-- ===== src/MessagesMongo/ChatRoomService.antt =====
-- src/modules/messages-mongo/services/chat-room.service.ts.
use secondhand_api.Prelude.{String, Bool, not, Option, none, some, eqb, false}
use secondhand_api.Http.{not_found, forbidden}
use secondhand_api.Exec.{Exec, pure, or_throw, throw_if, ◌>>=◌, ◌>>◌}
use secondhand_api.Schema.Documents.{ChatRoomDocument}
use secondhand_api.World.{Backend, World}
use secondhand_api.Users.UsersService
use secondhand_api.Products.ProductsService
use secondhand_api.Pagination.{PaginatedResult, PaginationOptions}
use secondhand_api.MessagesMongo.ChatRoomRepository
use secondhand_api.MessagesMongo.ChatRoomRepository.{FoundOrCreated, is_participant}

-- chatRoom?.participantsCount === 0
abbrev pub has_nobody : Option ChatRoomDocument → Bool
has_nobody none = false
has_nobody (some room) = eqb room.participants_count 0

module _ ⦃b : Backend⦄ where
  unfoldable pub find_or_create_chatroom : String → String → String → Exec World FoundOrCreated
  unfolding UsersService.ensure_user_exists ProductsService.ensure_product_exists
      ChatRoomRepository.find_or_create_chat_room
  find_or_create_chatroom sender_id receiver_id product_id = do
    UsersService.ensure_user_exists sender_id
    UsersService.ensure_user_exists receiver_id
    ProductsService.ensure_product_exists product_id
    ChatRoomRepository.find_or_create_chat_room sender_id receiver_id product_id

  unfoldable pub ensure_user_can_access_chat_room : String → String → Exec World ChatRoomDocument
  unfolding ChatRoomRepository.find_chat_room_by_id
  ensure_user_can_access_chat_room chat_room_id user_id = do
    found ← ChatRoomRepository.find_chat_room_by_id chat_room_id
    chat_room ← or_throw (not_found "대화방을 찾을 수 없습니다") found
    throw_if (not (is_participant user_id chat_room)) (forbidden "권한이 없습니다")
    pure chat_room

  unfoldable pub get_chat_room_list :
      String
      → PaginationOptions
      → (ChatRoomDocument → ChatRoomDocument → Bool)
      → Exec World (PaginatedResult ChatRoomDocument)
  unfolding ChatRoomRepository.find_chat_rooms_by_user_id
  get_chat_room_list = ChatRoomRepository.find_chat_rooms_by_user_id

  unfoldable pub ensure_chat_room_exist : String → Exec World (Unit {0})
  unfolding ChatRoomRepository.find_chat_room_by_id
  ensure_chat_room_exist chat_room_id = do
    found ← ChatRoomRepository.find_chat_room_by_id chat_room_id
    chat_room ← or_throw (not_found "대화방을 찾을 수 없습니다") found
    pure tt

  unfoldable pub mark_user_as_left : String → String → Exec World (Unit {0})
  unfolding ChatRoomRepository.mark_participants_as_left
  mark_user_as_left = ChatRoomRepository.mark_participants_as_left

  unfoldable pub is_chat_room_empty : String → Exec World Bool
  unfolding ChatRoomRepository.find_chat_room_by_id
  is_chat_room_empty chat_room_id = do
    found ← ChatRoomRepository.find_chat_room_by_id chat_room_id
    pure (has_nobody found)

  unfoldable pub remove_chat_room_by_id : String → Exec World (Unit {0})
  unfolding ChatRoomRepository.delete_chat_room
  remove_chat_room_by_id = ChatRoomRepository.delete_chat_room

  unfoldable pub update_last_message : String → String → String → Exec World (Unit {0})
  unfolding ChatRoomRepository.update_last_message
  update_last_message = ChatRoomRepository.update_last_message
