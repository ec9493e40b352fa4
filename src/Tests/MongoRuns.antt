-- ===== src/Tests/MongoRuns.antt =====
-- The theorems on src/modules/messages-mongo, applied to the market of the fixture.
use secondhand_api.Prelude.{
  ◌≡◌, ◌⊎◌, refl, ◌==◌, Bool-cases, sym, ap, ◌∙◌, subst, if◌then◌else◌, inl, inr, arith, [], ◌∷◌,
  true, false, some, none, List, Bool, ◌++◌, String, ℕ,
}
use secondhand_api.Http.{ok, err, failure, forbidden}
use secondhand_api.Schema.{paid}
use secondhand_api.Schema.Documents.{ChatRoomDocument, MessageDocument, MongoMessageType}
use secondhand_api.World.{World, mongo_room_at, message_sent}
use secondhand_api.Pagination.{PaginationOptions}
use secondhand_api.Prisma.Memory.{find, rows_of}
use secondhand_api.Tests.Fixture.{example_backend, market, member}
use secondhand_api.MessagesMongo.ChatRoomRepository.{is_participant, new_room, leave_room}
use secondhand_api.MessagesMongo.MessageRepository.{SendMessageDto}
use secondhand_api.MessagesMongo.MessageService
use secondhand_api.MessagesMongo.MessagesMongoService
use secondhand_api.MessagesMongo.Occupancy.{AllOccupied, IsCounted}
use secondhand_api.MessagesMongo.Requests.{
  Call, open_room, send, leave, serve_all, serve_all-AllOccupied,
}
use secondhand_api.MessagesMongo.Orphans.{overlap, overlap-orphan}
use secondhand_api.MessagesMongo.Parting.{
  HasParted, leave_chatroom-HasParted, send_message-outsider,
}

abbrev greeting : SendMessageDto
greeting = record {
  chat_room_id = "other";
  receiver_id = "a";
  content = "Is it still there?";
  message_type = MongoMessageType.text;
  file_url = none;
  file_name = none;
}

market-AllOccupied : AllOccupied (market paid)
unfolding find
market-AllOccupied = record { counted = λ k r there. cc; housed = λ k m there. cc }

abbrev visit : List Call
visit =
    open_room "a" "b" "p1"
    ∷ send "b" greeting
    ∷ leave true "other" "b"
    ∷ leave false "other" "a"
    ∷ []

serve_all-AllOccupied_example : AllOccupied (serve_all visit (market paid))
serve_all-AllOccupied_example = serve_all-AllOccupied visit (market paid) market-AllOccupied

abbrev room : ChatRoomDocument
room = new_room "other" 0 "a" "b" "p1"

abbrev one_room : ChatRoomDocument → World
one_room r = record (market paid) { mongo_rooms = r ∷ [] }

one_room-AllOccupied : (r : ChatRoomDocument) → IsCounted r → AllOccupied (one_room r)
unfolding find
one_room-AllOccupied r counted = record {
  counted = λ k x there. elim (Bool-cases (r.id == k)) [
    | inl at_ ↦
        let e : some r ≡ some x = sym (ap (λ c. if c then some r else none) at_) ∙ there in
        let same : r ≡ x = cc in subst IsCounted same counted
    | inr away ↦ absurd (ground (arith, away, there))
  ];
  housed = λ k m there. cc;
}

-- With a room of a and b.
abbrev opened : World
opened = one_room room

opened-AllOccupied : AllOccupied opened
unfolding new_room
opened-AllOccupied = one_room-AllOccupied room (refl, omega arith)

room_there : mongo_room_at opened "other" ≡ some room
unfolding find new_room
room_there = refl

leave_chatroom-HasParted_example :
    ((is_participant "b" room ≡ true)
      × ((w' : World) × (MessagesMongoService.leave_chatroom true "other" "b" opened ≡ (ok tt, w'))
          × HasParted "other" "b" opened room room_there w'))
    ⊎ ((is_participant "b" room ≡ false)
        × ((MessagesMongoService.leave_chatroom true "other" "b" opened).0
            ≡ err (failure "대화방 나가기 실패: 대화방을 찾을 수 없습니다")))
leave_chatroom-HasParted_example =
    leave_chatroom-HasParted "other" "b" opened room room_there true opened-AllOccupied

send_message-outsider_example :
    (m : MessageDocument) × (w' : World) × (MessageService.send_message "c" greeting opened
      ≡ (ok m, w'))
    × (find (λ (x : MessageDocument). x.id) m.id w'.mongo_messages ≡ some m)
    × ((m.sender_id ≡ "c")
        × (m.receiver_id ≡ "a")
        × (m.conversation_id ≡ "other")
        × (m.message ≡ "Is it still there?"))
    × ((event_id : String) × (timestamp : ℕ) × (w'.events
          ≡ opened.events
            ++ message_sent event_id timestamp m.id "other" "c" "a" "Is it still there?"
                m.message_type m.file_url m.file_name
              ∷ []))
    × ((pagination : PaginationOptions) (before : MessageDocument → MessageDocument → Bool)
        → MessageService.find_messages_by_room_id "other" "c" pagination before w'
          ≡ (err (forbidden "권한이 없습니다"), w'))
unfolding find rows_of new_room
send_message-outsider_example =
    send_message-outsider "c" greeting opened (member "c") (member "a") room refl refl room_there
      refl refl

-- After a has left.
abbrev one_left : ChatRoomDocument
one_left = leave_room "a" 0 room

abbrev half_left : World
half_left = one_room one_left

half_left-AllOccupied : AllOccupied half_left
unfolding new_room leave_room
half_left-AllOccupied = one_room-AllOccupied one_left (refl, omega arith)

one_left_there : mongo_room_at half_left "other" ≡ some one_left
unfolding find new_room leave_room
one_left_there = refl

overlap-orphan_example :
    (m : MessageDocument) × (w' : World) × (overlap false "c" "b" greeting half_left ≡ (ok m, w'))
    × (find (λ (x : MessageDocument). x.id) m.id w'.mongo_messages ≡ some m)
    × (mongo_room_at w' m.conversation_id ≡ none)
unfolding find rows_of new_room leave_room
overlap-orphan_example =
    overlap-orphan false "c" "b" greeting half_left (member "c") (member "a") one_left
      half_left-AllOccupied refl refl one_left_there refl refl refl
