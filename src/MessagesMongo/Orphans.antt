-- ===== src/MessagesMongo/Orphans.antt =====
-- A message that is sent while the last user leaves: two calls of src/modules/messages-mongo that
-- overlap. Nothing in the code joins the reads of `sendMessage` to its writes.
use secondhand_api.Prelude.{
  ℕ, suc, String, Bool, true, none, some, ◌≡◌, refl, ap, ◌∙◌, eqb, if◌then◌else◌, eq_self, arith,
  ◌-◌,
}
use secondhand_api.Http.{ok}
use secondhand_api.Exec.{Exec, ◌>>◌}
use secondhand_api.Prisma.Delegate.{keep_unless}
use secondhand_api.Prisma.Writing.{free_of_new}
use secondhand_api.Schema.{User}
use secondhand_api.Schema.Documents.{ChatRoomDocument, MessageDocument}
use secondhand_api.World.{Backend, World, mongo_room_at, user_at}
use secondhand_api.Users.UsersService
use secondhand_api.Users.UsersRepository
use secondhand_api.MessagesMongo.ChatRoomRepository
use secondhand_api.MessagesMongo.ChatRoomRepository.{is_participant}
use secondhand_api.MessagesMongo.ChatRoomService
use secondhand_api.MessagesMongo.MessageRepository
use secondhand_api.MessagesMongo.MessageRepository.{SendMessageDto, new_message}
use secondhand_api.MessagesMongo.MessageService
use secondhand_api.MessagesMongo.MessageService.{check_send, commit_send}
use secondhand_api.MessagesMongo.MessagesMongoService.{leave_chatroom}
use secondhand_api.MessagesMongo.Occupancy.{AllOccupied, present, deleted_room}
use secondhand_api.MessagesMongo.Leaving.{emptied_state, left_state, leaving, leaving-id}
use secondhand_api.MessagesMongo.Parting.{leave_chatroom-inside}

last_one : (n : ℕ) → n ≡ 1 → eqb (n - 1) 0 ≡ true
last_one n one = ground (arith, one)

module _ ⦃b : Backend⦄ where
  -- `leaver` leaves the room after `sender` has passed the checks and before the message is written.
  unfoldable pub overlap :
      Bool → (sender leaver : String) → SendMessageDto → Exec World MessageDocument
  overlap replica_set sender leaver dto = do
    check_send sender dto
    leave_chatroom replica_set dto.chat_room_id leaver
    commit_send sender dto

  -- With a replica set or without: if the only user of a room leaves between the checks of a
  -- message to that room and its write, and the id to come is unused, the message is stored though
  -- its room is gone.
  pub overlap-orphan :
      (replica_set : Bool) (sender leaver : String) (dto : SendMessageDto) (w : World) (s t : User)
      (r : ChatRoomDocument)
      → AllOccupied w
      → user_at w sender ≡ some s
      → user_at w dto.receiver_id ≡ some t
      → mongo_room_at w dto.chat_room_id ≡ some r
      → present r.participants ≡ 1
      → is_participant leaver r ≡ true
      → b.mongo_message.find_unique (b.uuid (suc w.readings)) w.mongo_messages ≡ none
      → (m : MessageDocument) × (w' : World) × (overlap replica_set sender leaver dto w
          ≡ (ok m, w'))
        × (b.mongo_message.find_unique m.id w'.mongo_messages ≡ some m)
        × (mongo_room_at w' m.conversation_id ≡ none)
  unfolding overlap check_send commit_send UsersService.ensure_user_exists
      UsersRepository.find_by_id ChatRoomService.ensure_chat_room_exist
      ChatRoomRepository.find_chat_room_by_id MessageRepository.create_message
      MessageService.after_message_sent new_message
  overlap-orphan replica_set sender leaver dto w s t r v from to there last inside fresh =
      let k = dto.chat_room_id in
      let gone = emptied_state k leaver w in
      let alone : eqb (r.participants_count - 1) 0 ≡ true =
        last_one r.participants_count ((v.counted k r there).0 ∙ last) in
      let left : leave_chatroom replica_set k leaver w ≡ (ok tt, gone) =
        leave_chatroom-inside k leaver w r there replica_set inside
        ∙ ap (λ c. (ok tt, if c then gone else left_state k leaver w)) alone in
      let m = new_message (b.uuid (suc w.readings)) (b.date (suc (suc w.readings))) sender dto in
      let unused : b.mongo_message.find_unique m.id gone.mongo_messages ≡ none =
        b.mongo_message.find-delete_many _ m.id w.mongo_messages ∙ ap (keep_unless _) fresh in
      let (row, stored) =
        b.mongo_message.create_free m gone.mongo_messages
          (free_of_new b.mongo_message m gone.mongo_messages (λ x same. same) unused) in
      (
        m,
        (overlap replica_set sender leaver dto w).1,
        rw (from, to, there, left, row) refl,
        rw (from, to, there, left, row)
            (stored m.id
              ∙ ap (λ c. if c then some m else b.mongo_message.find_unique m.id gone.mongo_messages)
                  (eq_self m.id)),
        rw (from, to, there, left, row)
            (deleted_room v k (leaving k leaver w) (leaving-id k leaver w) k (eq_self k)),
      )
