-- ===== src/MessagesMongo/ChatRoomRepository.antt =====
-- src/modules/messages-mongo/repositories/chat-room.repository.mongo.ts. A collection is a delegate
-- too: `find`, `findOne({ _id })`, `save`, `updateOne({ _id })` and `deleteOne({ _id })` are its
-- calls. Ids are taken to be well formed. The column and direction to sort by are an order on
-- documents.
use secondhand_api.Prelude.{
  ℕ, ◌-◌, ◌*◌, String, Bool, true, false, ◌&&◌, Option, none, some, List, [], ◌∷◌, ◌==◌, any, eqb,
  take, drop, length, if◌then◌else◌,
}
use secondhand_api.Http.{ok, err, failure}
use secondhand_api.Exec.{Exec, pure, ◌>>=◌}
use secondhand_api.Schema.Documents.{ChatRoomDocument, Participant}
use secondhand_api.World.{Backend, World, mongo_room_at, or_reject, new_date, new_id}
use secondhand_api.Pagination.{PaginatedResult, PaginationOptions, paginate}

pub record FoundOrCreated : Type 0 where
  pub chat_room : ChatRoomDocument
  pub is_created : Bool

abbrev pub is_there : Option ℕ → Bool
is_there none = true
is_there (some _) = false

abbrev pub takes_part : String → Participant → Bool
takes_part user_id p = p.user_id == user_id && is_there p.left_at

-- 'participants.userId': userId
abbrev pub names : String → ChatRoomDocument → Bool
names user_id room = any (λ (p : Participant). p.user_id == user_id) room.participants

-- participants: { $elemMatch: { userId, leftAt: null } }
abbrev pub is_participant : String → ChatRoomDocument → Bool
is_participant user_id room = any (takes_part user_id) room.participants

-- { productId, 'participants.userId': { $all: [sender, receiver] }, participantsCount: 2 }
abbrev pub is_room_of : String → String → String → ChatRoomDocument → Bool
is_room_of sender_id receiver_id product_id room =
    room.product_id == product_id
    && (names sender_id room && names receiver_id room)
    && eqb room.participants_count 2

unfoldable pub new_participant : String → ℕ → Participant
new_participant user_id now = record { user_id = user_id; joined_at = now; left_at = none }

unfoldable pub new_room : String → ℕ → String → String → String → ChatRoomDocument
unfolding new_participant
new_room id now sender_id receiver_id product_id = record {
  id = id;
  product_id = product_id;
  participants = new_participant sender_id now ∷ new_participant receiver_id now ∷ [];
  participants_count = 2;
  last_message = none;
  last_message_id = none;
  last_message_at = none;
  related_order_id = none;
  created_at = now;
}

-- { $set: { 'participants.$.leftAt': now } }: of the first participant that matches
unfoldable pub set_left : String → ℕ → List Participant → List Participant
set_left user_id now [] = []
set_left user_id now (p ∷ ps) =
    let rest = set_left user_id now ps in
    if takes_part user_id p then record p { left_at = some now } ∷ ps else p ∷ rest

-- With { $inc: { participantsCount: -1 } }, for a count that is positive.
unfoldable pub leave_room : String → ℕ → ChatRoomDocument → ChatRoomDocument
unfolding set_left
leave_room user_id now room = record room {
  participants = set_left user_id now room.participants;
  participants_count = room.participants_count - 1;
}

module _ ⦃b : Backend⦄ where
  unfoldable pub save : ChatRoomDocument → Exec World ChatRoomDocument
  save room w =
      let (r, t) = b.mongo_room.create room w.mongo_rooms in
      (or_reject "E11000" r, record w { mongo_rooms = t })

  unfoldable pub create_chat_room : String → String → String → Exec World FoundOrCreated
  unfolding save new_room new_id new_date
  create_chat_room sender_id receiver_id product_id = do
    id ← new_id
    now ← new_date
    room ← save (new_room id now sender_id receiver_id product_id)
    pure (record { chat_room = room; is_created = true })

  abbrev first_or_created :
      String → String → String → List ChatRoomDocument → Exec World FoundOrCreated
  first_or_created sender_id receiver_id product_id [] =
      create_chat_room sender_id receiver_id product_id
  first_or_created sender_id receiver_id product_id (room ∷ _) =
      pure (record { chat_room = room; is_created = false })

  unfoldable pub find_or_create_chat_room : String → String → String → Exec World FoundOrCreated
  unfolding create_chat_room
  find_or_create_chat_room sender_id receiver_id product_id w =
      first_or_created sender_id receiver_id product_id
        (b.mongo_room.find_many (is_room_of sender_id receiver_id product_id) w.mongo_rooms) w

  unfoldable pub find_chat_rooms_by_user_id :
      String
      → PaginationOptions
      → (ChatRoomDocument → ChatRoomDocument → Bool)
      → Exec World (PaginatedResult ChatRoomDocument)
  find_chat_rooms_by_user_id user_id pagination before w =
      let chat_rooms = take pagination.limit (
        drop ((pagination.page - 1) * pagination.limit)
          (b.mongo_room.find_sorted (names user_id) before w.mongo_rooms)) in
      let total = length (b.mongo_room.find_many (names user_id) w.mongo_rooms) in
      (ok (paginate chat_rooms total pagination), w)

  unfoldable pub find_chat_room_by_id : String → Exec World (Option ChatRoomDocument)
  find_chat_room_by_id chat_room_id w = (ok (mongo_room_at w chat_room_id), w)

  abbrev pub change : String → (ChatRoomDocument → ChatRoomDocument) → Exec World (Unit {0})
  change chat_room_id f w =
      (ok tt, record w { mongo_rooms = (b.mongo_room.update chat_room_id f w.mongo_rooms).1 })

  unfoldable pub update_last_message : String → String → String → Exec World (Unit {0})
  unfolding new_date
  update_last_message chat_room_id last_message last_message_id = do
    now ← new_date
    change chat_room_id (λ room. record room {
      last_message = some last_message;
      last_message_id = some last_message_id;
      last_message_at = some now;
    })

  unfoldable pub update_product_id : String → String → Exec World (Unit {0})
  update_product_id chat_room_id product_id =
      change chat_room_id (λ room. record room { product_id = product_id })

  -- `updateOne` with the condition that the user takes part, and the counts that it answers with.
  abbrev pub leave_matched : String → String → ℕ → Option ChatRoomDocument → Exec World (Unit {0})
  leave_matched chat_room_id user_id now none w = (err (failure "대화방을 찾을 수 없습니다"), w)
  leave_matched chat_room_id user_id now (some room) w =
      if is_participant user_id room
      then change chat_room_id (leave_room user_id now) w
      else (err (failure "대화방을 찾을 수 없습니다"), w)

  unfoldable pub mark_participants_as_left : String → String → Exec World (Unit {0})
  unfolding new_date leave_room
  mark_participants_as_left chat_room_id user_id = do
    now ← new_date
    λ w. leave_matched chat_room_id user_id now (mongo_room_at w chat_room_id) w

  unfoldable pub delete_chat_room : String → Exec World (Unit {0})
  delete_chat_room chat_room_id w =
      (ok tt, record w { mongo_rooms = (b.mongo_room.delete chat_room_id w.mongo_rooms).1 })
