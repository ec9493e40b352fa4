-- ===== src/MessagesMongo/Requests.antt =====
-- Calls of src/modules/messages-mongo/messages-mongo.service.ts, one after the other.
use secondhand_api.Prelude.{
  suc, String, Bool, List, [], ◌∷◌, ◌≡◌, refl, Option-cases, inl, inr, ◌⊎◌,
}
use secondhand_api.Exec.{Keeps}
use secondhand_api.World.{Backend, World, mongo_room_at, user_at, product_at}
use secondhand_api.Users.UsersService
use secondhand_api.Users.UsersRepository
use secondhand_api.Products.ProductsService
use secondhand_api.Products.ProductsRepository
use secondhand_api.MessagesMongo.ChatRoomRepository
use secondhand_api.MessagesMongo.ChatRoomRepository.{
  is_participant, leave_room, is_room_of, new_room,
}
use secondhand_api.MessagesMongo.ChatRoomService
use secondhand_api.MessagesMongo.MessageRepository
use secondhand_api.MessagesMongo.MessageRepository.{SendMessageDto}
use secondhand_api.MessagesMongo.MessageService
use secondhand_api.MessagesMongo.MessagesMongoService
use secondhand_api.MessagesMongo.MessagesMongoService.{leave_steps}
use secondhand_api.MessagesMongo.Occupancy.{
  AllOccupied, create_room-IsOccupied, create_message-IsOccupied, read_messages-IsOccupied,
  update_room-IsOccupied,
}
use secondhand_api.MessagesMongo.Leaving.{leave-AllOccupied}

-- A call, by its user, or the handling of a message that was sent.
pub data Call : Type 0 where
  open_room : (sender_id receiver_id product_id : String) → Call
  send : (sender_id : String) → SendMessageDto → Call
  read : (chat_room_id user_id : String) → Call
  leave : (replica_set : Bool) (chat_room_id user_id : String) → Call
  handle_sent : (chat_room_id message_id message : String) → Call

List-cases : {A : Type 0} (l : List A) → (l ≡ []) ⊎ ((x : A) × (xs : List A) × (l ≡ x ∷ xs))
List-cases [] = inl refl
List-cases (x ∷ xs) = inr (x, xs, refl)

module _ ⦃b : Backend⦄ where
  create-AllOccupied :
      (sender receiver product : String)
      → Keeps AllOccupied (ChatRoomRepository.create_chat_room sender receiver product)
  unfolding ChatRoomRepository.create_chat_room ChatRoomRepository.save
  create-AllOccupied sender receiver product w v =
      let now = b.date (suc w.readings) in
      let room = new_room (b.uuid w.readings) now sender receiver product in
      let kept = create_room-IsOccupied v (b.uuid w.readings) now sender receiver product in
      elim (Option-cases (b.mongo_room.create room w.mongo_rooms).0) [
        | inl refused ↦ rw refused kept
        | inr (r, stored) ↦ rw stored kept
      ]

  repository_open-AllOccupied :
      (sender receiver product : String)
      → Keeps AllOccupied (ChatRoomRepository.find_or_create_chat_room sender receiver product)
  unfolding ChatRoomRepository.find_or_create_chat_room
  repository_open-AllOccupied sender receiver product w v =
      elim (List-cases
        (b.mongo_room.find_many (is_room_of sender receiver product) w.mongo_rooms)) [
          | inl none_ ↦ rw none_ (create-AllOccupied sender receiver product w v)
          | inr (r, rs, found) ↦ rw found v
        ]

  open-AllOccupied :
      (sender receiver product : String)
      → Keeps AllOccupied (ChatRoomService.find_or_create_chatroom sender receiver product)
  unfolding ChatRoomService.find_or_create_chatroom UsersService.ensure_user_exists
      ProductsService.ensure_product_exists UsersRepository.find_by_id ProductsRepository.find_by_id
  open-AllOccupied sender receiver product w v = elim (Option-cases (user_at w sender)) [
    | inl gone ↦ rw gone v
    | inr (s, from) ↦ elim (Option-cases (user_at w receiver)) [
      | inl gone ↦ rw (from, gone) v
      | inr (r, to) ↦ elim (Option-cases (product_at w product)) [
        | inl gone ↦ rw (from, to, gone) v
        | inr (p, there) ↦
            rw (from, to, there) (repository_open-AllOccupied sender receiver product w v)
      ]
    ]
  ]

  send-AllOccupied :
      (sender : String) (dto : SendMessageDto)
      → Keeps AllOccupied (MessageService.send_message sender dto)
  unfolding MessageService.send_message MessageService.check_send MessageService.commit_send
      UsersService.ensure_user_exists UsersRepository.find_by_id
      ChatRoomService.ensure_chat_room_exist ChatRoomRepository.find_chat_room_by_id
      MessageRepository.create_message MessageRepository.new_message
      MessageService.after_message_sent
  send-AllOccupied sender dto w v = elim (Option-cases (user_at w sender)) [
    | inl gone ↦ rw gone v
    | inr (s, from) ↦ elim (Option-cases (user_at w dto.receiver_id)) [
      | inl gone ↦ rw (from, gone) v
      | inr (r, to) ↦ elim (Option-cases (mongo_room_at w dto.chat_room_id)) [
        | inl gone ↦ rw (from, to, gone) v
        | inr (room, there) ↦
            let m =
              MessageRepository.new_message (b.uuid w.readings) (b.date (suc w.readings)) sender
                dto in
            let kept = create_message-IsOccupied v m room there in
            elim (Option-cases (b.mongo_message.create m w.mongo_messages).0) [
              | inl refused ↦ rw (from, to, there, refused) kept
              | inr (x, stored) ↦ rw (from, to, there, stored) kept
            ]
      ]
    ]
  ]

  read-AllOccupied :
      (k user_id : String) → Keeps AllOccupied (MessageService.mark_messages_as_read k user_id)
  unfolding MessageService.mark_messages_as_read MessageRepository.mark_messages_as_read
  read-AllOccupied k user_id w v = read_messages-IsOccupied v _ _

  handle-AllOccupied :
      (k message_id message : String)
      → Keeps AllOccupied (MessageService.update_last_message_handle k message_id message)
  unfolding MessageService.update_last_message_handle ChatRoomService.update_last_message
      ChatRoomRepository.update_last_message
  handle-AllOccupied k message_id message w v =
      update_room-IsOccupied v k _ (λ r. refl) (λ r found. v.counted k r found)

  unfoldable pub serve : Call → World → World
  serve (open_room sender receiver product) w =
      (ChatRoomService.find_or_create_chatroom sender receiver product w).1
  serve (send sender dto) w = (MessageService.send_message sender dto w).1
  serve (read k user_id) w = (MessageService.mark_messages_as_read k user_id w).1
  serve (leave replica_set k user_id) w =
      (MessagesMongoService.leave_chatroom replica_set k user_id w).1
  serve (handle_sent k message_id message) w =
      (MessageService.update_last_message_handle k message_id message w).1

  unfoldable pub serve_all : List Call → World → World
  serve_all [] w = w
  serve_all (c ∷ cs) w = serve_all cs (serve c w)

  serve-AllOccupied : (c : Call) (w : World) → AllOccupied w → AllOccupied (serve c w)
  unfolding serve
  serve-AllOccupied (open_room sender receiver product) w v =
      open-AllOccupied sender receiver product w v
  serve-AllOccupied (send sender dto) w v = send-AllOccupied sender dto w v
  serve-AllOccupied (read k user_id) w v = read-AllOccupied k user_id w v
  serve-AllOccupied (leave replica_set k user_id) w v = leave-AllOccupied replica_set k user_id w v
  serve-AllOccupied (handle_sent k message_id message) w v =
      handle-AllOccupied k message_id message w v

  -- Where every room counts those who take part in it, somebody does, and every message is in a
  -- room that is there, the same holds after any sequence of calls and of handled messages, one
  -- after the other.
  pub serve_all-AllOccupied :
      (cs : List Call) (w : World) → AllOccupied w → AllOccupied (serve_all cs w)
  unfolding serve_all
  serve_all-AllOccupied [] w v = v
  serve_all-AllOccupied (c ∷ cs) w v =
      serve_all-AllOccupied cs (serve c w) (serve-AllOccupied c w v)
