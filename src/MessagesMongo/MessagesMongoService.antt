-- ===== src/MessagesMongo/MessagesMongoService.antt =====
-- src/modules/messages-mongo/messages-mongo.service.ts. Whether MongoDB runs as a replica set is an
-- argument of `leave_chatroom`.
use Prim.Native.String.{◌++◌}
use secondhand_api.Prelude.{String, Bool, if◌then◌else◌}
use secondhand_api.Http.{Result, ok, err, failure}
use secondhand_api.Http.{message_of}
use secondhand_api.Exec.{Exec, pure, transaction, ◌>>=◌, ◌>>◌}
use secondhand_api.World.{Backend, World}
use secondhand_api.MessagesMongo.ChatRoomService
use secondhand_api.MessagesMongo.MessageService

abbrev pub wrapped : Result (Unit {0}) → Result (Unit {0})
wrapped (ok x) = ok x
wrapped (err e) = err (failure ("대화방 나가기 실패: " ++ message_of e))

module _ ⦃b : Backend⦄ where
  -- The room and its messages go.
  unfoldable pub remove_room : String → Exec World (Unit {0})
  unfolding ChatRoomService.remove_chat_room_by_id MessageService.remove_messages_by_chat_room_id
  remove_room chat_room_id = do
    ChatRoomService.remove_chat_room_by_id chat_room_id
    MessageService.remove_messages_by_chat_room_id chat_room_id

  unfoldable pub leave_steps : String → String → Exec World (Unit {0})
  unfolding ChatRoomService.mark_user_as_left ChatRoomService.is_chat_room_empty remove_room
  leave_steps chat_room_id user_id = do
    ChatRoomService.mark_user_as_left chat_room_id user_id
    is_empty ← ChatRoomService.is_chat_room_empty chat_room_id
    if is_empty then remove_room chat_room_id else pure tt

  -- try { … } catch (error) { throw new Error(…); }
  abbrev rethrow : Exec World (Unit {0}) → Exec World (Unit {0})
  rethrow m w = let (r, w') = m w in (wrapped r, w')

  unfoldable pub leave_chatroom_with_transaction : String → String → Exec World (Unit {0})
  unfolding leave_steps
  leave_chatroom_with_transaction chat_room_id user_id =
      rethrow (transaction (leave_steps chat_room_id user_id))

  unfoldable pub leave_chatroom_without_transaction : String → String → Exec World (Unit {0})
  unfolding leave_steps
  leave_chatroom_without_transaction chat_room_id user_id =
      rethrow (leave_steps chat_room_id user_id)

  unfoldable pub leave_chatroom : Bool → String → String → Exec World (Unit {0})
  unfolding leave_chatroom_with_transaction leave_chatroom_without_transaction
  leave_chatroom is_replica_set chat_room_id user_id =
      if is_replica_set
      then leave_chatroom_with_transaction chat_room_id user_id
      else leave_chatroom_without_transaction chat_room_id user_id
