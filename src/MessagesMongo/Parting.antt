-- ===== src/MessagesMongo/Parting.antt =====
-- Leaving a room and writing to one, by src/modules/messages-mongo/messages-mongo.service.ts.
use secondhand_api.Prelude.{
  ℕ, suc, ◌-◌, ◌<◌, String, Bool, true, false, none, some, ◌≡◌, refl, sym, ap, ◌⊎◌, ◌∙◌, ◌==◌, eqb,
  arith, if◌then◌else◌, Bool-cases, inl, inr, eq_self, eq_iff, Option, List, [], ◌∷◌, ◌++◌, any,
}
use secondhand_api.Http.{ok, err, failure, forbidden}
use secondhand_api.Schema.{User}
use secondhand_api.Schema.Documents.{ChatRoomDocument, MessageDocument, Participant}
use secondhand_api.World.{Backend, World, mongo_room_at, user_at, message_sent}
use secondhand_api.Users.UsersService
use secondhand_api.Users.UsersRepository
use secondhand_api.Pagination.{PaginationOptions}
use secondhand_api.MessagesMongo.ChatRoomRepository
use secondhand_api.MessagesMongo.ChatRoomRepository.{
  is_there, takes_part, set_left, is_participant, leave_room,
}
use secondhand_api.MessagesMongo.ChatRoomService
use secondhand_api.MessagesMongo.MessageRepository
use secondhand_api.MessagesMongo.MessageRepository.{SendMessageDto, new_message}
use secondhand_api.MessagesMongo.MessageService
use secondhand_api.MessagesMongo.MessagesMongoService
use secondhand_api.MessagesMongo.MessagesMongoService.{leave_steps}
use secondhand_api.Prisma.Writing.{free_of_new}
use secondhand_api.Prisma.Counting.{spared_by}
use secondhand_api.MessagesMongo.Occupancy.{AllOccupied, present, present-set_left, deleted_room}
use secondhand_api.MessagesMongo.Leaving.{
  leaving, leaving-id, left_state, left_there, emptied_state,
}

-- The first who is the user and has not left gets a time of leaving, and all others stay.
pub data Leaves (user_id : String) (now : ℕ) : List Participant → List Participant → Type 0 where
  leaves :
      (p : Participant) (ps : List Participant)
      → p.user_id ≡ user_id
      → p.left_at ≡ none
      → Leaves user_id now (p ∷ ps) (record p { left_at = some now } ∷ ps)
  stays :
      (p : Participant) (ps qs : List Participant)
      → ¬ ((p.user_id ≡ user_id) × (p.left_at ≡ none))
      → Leaves user_id now ps qs
      → Leaves user_id now (p ∷ ps) (p ∷ qs)

there_lem : (t : Option ℕ) → (is_there t ≡ true → t ≡ none) × (t ≡ none → is_there t ≡ true)
there_lem none = (λ _. refl, λ _. refl)
there_lem (some n) = (λ h. cc, λ h. cc)

set_left-Leaves :
    (user_id : String) (now : ℕ) (ps : List Participant)
    → any (takes_part user_id) ps ≡ true
    → Leaves user_id now ps (set_left user_id now ps)
unfolding set_left
set_left-Leaves user_id now [] inside = cc
set_left-Leaves user_id now (p ∷ ps) inside = elim (Bool-cases (takes_part user_id p)) [
  | inl here ↦ rw here (
      leaves p ps ((eq_iff p.user_id user_id).0 (ground (arith, here)))
        ((there_lem p.left_at).0 (ground (arith, here))))
  | inr away ↦ rw away (
      stays p ps (set_left user_id now ps)
        (λ (same, never).
          ground (arith, away, (eq_iff p.user_id user_id).1 same, (there_lem p.left_at).1 never))
        (set_left-Leaves user_id now ps (rw away at inside)))
]

-- The room once the user has left: its participants but for the user's time of leaving, and the
-- number of those still there.
pub record IsLeft (user_id : String) (now : ℕ) (r r' : ChatRoomDocument) : Type 0 where
  pub participants : Leaves user_id now r.participants r'.participants
  pub counted : r'.participants_count ≡ present r'.participants
  pub less : suc r'.participants_count ≡ r.participants_count
  pub rest :
      record r { participants = r'.participants; participants_count = r'.participants_count } ≡ r'

leave_room-IsLeft :
    (user_id : String) (now : ℕ) (r : ChatRoomDocument)
    → is_participant user_id r ≡ true
    → r.participants_count ≡ present r.participants
    → IsLeft user_id now r (leave_room user_id now r)
unfolding leave_room
leave_room-IsLeft user_id now r inside counted =
    let fewer = present-set_left user_id now r.participants inside in
    record {
      participants = set_left-Leaves user_id now r.participants inside;
      counted = omega (arith, fewer, counted);
      less = omega (arith, fewer, counted);
      rest = refl;
    }

module _ ⦃b : Backend⦄ (k user_id : String) (w : World) (r : ChatRoomDocument)
    (there : mongo_room_at w k ≡ some r) where
  -- What leaving makes of the state, as the room says.
  abbrev pub parted : World
  parted =
      if eqb (r.participants_count - 1) 0 then emptied_state k user_id w else left_state k user_id w

  leave_steps-inside : is_participant user_id r ≡ true → leave_steps k user_id w ≡ (ok tt, parted)
  unfolding leave_steps ChatRoomService.mark_user_as_left ChatRoomService.is_chat_room_empty
      ChatRoomRepository.mark_participants_as_left ChatRoomRepository.find_chat_room_by_id
      MessagesMongoService.remove_room ChatRoomRepository.delete_chat_room
      MessageRepository.delete_messages_by_chat_room_id leave_room
  leave_steps-inside inside = elim (Bool-cases (eqb (r.participants_count - 1) 0)) [
    | inl last ↦ rw (there, inside, left_there k user_id w r there, last) refl
    | inr others ↦ rw (there, inside, left_there k user_id w r there, others) refl
  ]

  pub leave_chatroom-inside :
      (replica_set : Bool)
      → is_participant user_id r ≡ true
      → MessagesMongoService.leave_chatroom replica_set k user_id w ≡ (ok tt, parted)
  unfolding MessagesMongoService.leave_chatroom MessagesMongoService.leave_chatroom_with_transaction
      MessagesMongoService.leave_chatroom_without_transaction
  leave_chatroom-inside true inside = rw (leave_steps-inside inside) refl
  leave_chatroom-inside false inside = rw (leave_steps-inside inside) refl

  leave_chatroom-outside :
      (replica_set : Bool)
      → is_participant user_id r ≡ false
      → (MessagesMongoService.leave_chatroom replica_set k user_id w).0
        ≡ err (failure "대화방 나가기 실패: 대화방을 찾을 수 없습니다")
  unfolding MessagesMongoService.leave_chatroom MessagesMongoService.leave_chatroom_with_transaction
      MessagesMongoService.leave_chatroom_without_transaction leave_steps
      ChatRoomService.mark_user_as_left ChatRoomRepository.mark_participants_as_left
  leave_chatroom-outside true outside = rw (there, outside) refl
  leave_chatroom-outside false outside = rw (there, outside) refl

  last_of : (n m : ℕ) → n ≡ m → 0 < n → eqb (n - 1) 0 ≡ eqb m 1
  last_of n m same positive = ground arith

  -- What is left when one has left: of the last one's room nothing, else the room, which they have
  -- left, with its messages.
  abbrev pub HasParted : World → Type 0
  HasParted w' =
      ((present r.participants ≡ 1)
        × (mongo_room_at w' k ≡ none)
        × ((j : String) (m : MessageDocument)
            → b.mongo_message.find_unique j w'.mongo_messages ≡ some m
            → (m.conversation_id == k) ≡ false))
      ⊎ ((1 < present r.participants)
          × ((r' : ChatRoomDocument) × (mongo_room_at w' k ≡ some r')
              × IsLeft user_id (b.date w.readings) r r')
          × (w'.mongo_messages ≡ w.mongo_messages))

  parted-HasParted : is_participant user_id r ≡ true → AllOccupied w → HasParted parted
  parted-HasParted inside v =
      let (counted, some_) = v.counted k r there in
      let last_one = last_of r.participants_count (present r.participants) counted some_ in
      elim (Bool-cases (eqb (r.participants_count - 1) 0)) [
        | inl last ↦ rw last (
            inl (
              ground (arith, last_one, last),
              deleted_room v k (leaving k user_id w) (leaving-id k user_id w) k (eq_self k),
              λ j m found.
                  (spared_by (λ (n : MessageDocument). n.conversation_id == k) _ m
                    (sym (b.mongo_message.find-delete_many _ j w.mongo_messages) ∙ found)).1,
            ))
        | inr others ↦ rw others (
            inr (
              ground (arith, counted, some_, others),
              (
                leave_room user_id (b.date w.readings) r,
                left_there k user_id w r there,
                leave_room-IsLeft user_id (b.date w.readings) r inside counted,
              ),
              refl,
            ))
      ]

  -- With a replica set or without, where rooms count those who take part: who takes part in a room
  -- gets a time of leaving, and the room then counts the others, with all else of it and all messages
  -- as before; the last one takes the room and all of its messages along; who takes no part is
  -- refused.
  pub leave_chatroom-HasParted :
      (replica_set : Bool)
      → AllOccupied w
      → ((is_participant user_id r ≡ true)
          × ((w' : World) × (MessagesMongoService.leave_chatroom replica_set k user_id w
                ≡ (ok tt, w'))
              × HasParted w'))
        ⊎ ((is_participant user_id r ≡ false)
            × ((MessagesMongoService.leave_chatroom replica_set k user_id w).0
                ≡ err (failure "대화방 나가기 실패: 대화방을 찾을 수 없습니다")))
  leave_chatroom-HasParted replica_set v = elim (Bool-cases (is_participant user_id r)) [
    | inl inside ↦
        inl (inside, (parted, leave_chatroom-inside replica_set inside, parted-HasParted inside v))
    | inr outside ↦ inr (outside, leave_chatroom-outside replica_set outside)
  ]

module _ ⦃b : Backend⦄ where
  -- Any user can send a message to any room, to any user, if the id to come is unused: a message of
  -- the sender to the receiver with the text of the request is stored in that room, and one event
  -- announces it, though the sender takes no part in the room and may not read there.
  pub send_message-outsider :
      (sender : String) (dto : SendMessageDto) (w : World) (s t : User) (r : ChatRoomDocument)
      → user_at w sender ≡ some s
      → user_at w dto.receiver_id ≡ some t
      → mongo_room_at w dto.chat_room_id ≡ some r
      → is_participant sender r ≡ false
      → b.mongo_message.find_unique (b.uuid w.readings) w.mongo_messages ≡ none
      → (m : MessageDocument) × (w' : World) × (MessageService.send_message sender dto w
          ≡ (ok m, w'))
        × (b.mongo_message.find_unique m.id w'.mongo_messages ≡ some m)
        × ((m.sender_id ≡ sender)
            × (m.receiver_id ≡ dto.receiver_id)
            × (m.conversation_id ≡ dto.chat_room_id)
            × (m.message ≡ dto.content))
        × ((event_id : String) × (timestamp : ℕ) × (w'.events
              ≡ w.events
                ++ message_sent event_id timestamp m.id dto.chat_room_id sender dto.receiver_id
                    dto.content m.message_type m.file_url m.file_name
                  ∷ []))
        × ((pagination : PaginationOptions) (before : MessageDocument → MessageDocument → Bool)
            → MessageService.find_messages_by_room_id dto.chat_room_id sender pagination before w'
              ≡ (err (forbidden "권한이 없습니다"), w'))
  unfolding MessageService.send_message MessageService.check_send MessageService.commit_send
      UsersService.ensure_user_exists UsersRepository.find_by_id
      ChatRoomService.ensure_chat_room_exist ChatRoomRepository.find_chat_room_by_id
      MessageRepository.create_message MessageService.after_message_sent
      MessageService.find_messages_by_room_id ChatRoomService.ensure_user_can_access_chat_room
      new_message
  send_message-outsider sender dto w s t r from to there outside fresh =
      let m = new_message (b.uuid w.readings) (b.date (suc w.readings)) sender dto in
      let (row, stored) =
        b.mongo_message.create_free m w.mongo_messages
          (free_of_new b.mongo_message m w.mongo_messages (λ x same. same) fresh) in
      (
        m,
        (MessageService.send_message sender dto w).1,
        rw (from, to, there, row) refl,
        rw (from, to, there, row)
            (stored m.id
              ∙ ap (λ c. if c then some m else b.mongo_message.find_unique m.id w.mongo_messages)
                  (eq_self m.id)),
        (refl, refl, refl, refl),
        (
          b.uuid (suc (suc w.readings)),
          b.date (suc (suc (suc w.readings))),
          rw (from, to, there, row) refl,
        ),
        λ pagination before. rw (from, to, there, row) (rw (there, outside) refl),
      )
