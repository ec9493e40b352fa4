-- ===== src/Tests/ChatRuns.antt =====
-- The theorems on src/modules/messages and src/modules/notifications, applied to the market of the
-- fixture.
use secondhand_api.Prelude.{
  String, not, ◌&&◌, ◌≡◌, refl, [], ◌∷◌, ◌++◌, true, false, some, none, List, any, ltb, ◌==◌, Bool,
  if◌then◌else◌, ap, ◌∙◌, Bool-cases, inl, inr, arith,
}
use secondhand_api.Http.{ok}
use secondhand_api.Schema.{paid}
use secondhand_api.Schema.Chats.{
  ChatRoom, ChatRoomMember, ChatMessage, Notification, MessageType, NotificationType,
}
use secondhand_api.World.{World, message_at, member_at, notification_at, message_created}
use secondhand_api.Prisma.Memory.{find, rows_of}
use secondhand_api.Notifications.NotificationsService
use secondhand_api.Filters.HttpExceptionFilter.{ErrorResponse}
use secondhand_api.Filters.Answers.{answer, delete-hides}
use secondhand_api.Tests.Fixture.{example_backend, market}
use secondhand_api.Messages.MessagesRepository.{with_members, unread_count}
use secondhand_api.Messages.MessagesService
use secondhand_api.Messages.MessagesService.{
  SendMessageDto, MemberWithUnread, is_member, find_my_chat_rooms,
}
use secondhand_api.Messages.Rooms.{HasHomes}
use secondhand_api.Messages.Requests.{serve_all-HasHomes}
use secondhand_api.Messages.Requests
use secondhand_api.Messages.Unread.{sent, send_message-read, find_my_chat_rooms-none_unread}
use secondhand_api.Notifications.Owners.{serve-KeepsOthers, mark_all_as_read-none}
use secondhand_api.Notifications.Owners

abbrev greeting : SendMessageDto
greeting = record {
  chat_room_id = "other";
  content = "Is it still there?";
  message_type = MessageType.text;
  file_url = none;
  file_name = none;
}

market-HasHomes : HasHomes (market paid)
unfolding find
market-HasHomes = record {
  members_housed = λ k m there. cc;
  messages_housed = λ k m there. cc;
  inhabited = λ k r there. cc;
}

-- A room is opened and both leave it.
abbrev visit : List Requests.Call
visit =
    Requests.open_room "b" "p1"
    ∷ Requests.send "b" greeting
    ∷ Requests.read "other" "a"
    ∷ Requests.leave "other" "b"
    ∷ Requests.leave "other" "a"
    ∷ []

serve_all-HasHomes_example : HasHomes (Requests.serve_all visit (market paid))
serve_all-HasHomes_example = serve_all-HasHomes visit (market paid) market-HasHomes

abbrev room : ChatRoom
room = record { id = "other"; product_id = some "p1"; created_at = 0; updated_at = 0 }

abbrev in_room_as : String → String → ChatRoomMember
in_room_as id user_id = record {
  id = id;
  chat_room_id = "other";
  user_id = user_id;
  last_read_at = none;
  joined_at = 0;
}

-- With a room of a and b.
abbrev talking : World
talking = record (market paid) {
  rooms = room ∷ [];
  members = in_room_as "m1" "a" ∷ in_room_as "m2" "b" ∷ [];
}

send_message-read_example :
    (w' : World) × (w'' : World) × (told_ : List String) × (MessagesService.send_message "b"
        greeting talking
      ≡ (ok (sent "b" "a" greeting talking room), w'))
    × (message_at w' (sent "b" "a" greeting talking room).id
        ≡ some (sent "b" "a" greeting talking room))
    × (w'.events
        ≡ talking.events
          ++ message_created "other" (sent "b" "a" greeting talking room).id "b" told_ ∷ [])
    × ((user_id : String)
        → any (λ v. v == user_id) told_
          ≡ (is_member user_id (with_members talking room) && not ("b" == user_id)))
    × (ltb 0 (unread_count w' "other" "a") ≡ true)
    × (MessagesService.mark_as_read "other" "a" w' ≡ (ok tt, w''))
    × (unread_count w'' "other" "a" ≡ 0)
unfolding find rows_of
send_message-read_example = send_message-read "b" "a" greeting talking room refl refl refl refl refl

abbrev unread_message : ChatMessage
unread_message = record {
  id = "g1";
  chat_room_id = "other";
  sender_id = "b";
  content = "Hello";
  message_type = MessageType.text;
  file_url = none;
  file_name = none;
  is_read = false;
  read_at = none;
  created_at = 0;
}

-- Where b has written to a.
abbrev written : World
written = record talking { messages = unread_message ∷ [] }

only_message :
    (k : String) (m : ChatMessage) → message_at written k ≡ some m → m.chat_room_id ≡ "other"
unfolding find
only_message k m there = elim (Bool-cases ("g1" == k)) [
  | inl at_ ↦ ground (arith, at_, there)
  | inr away ↦ ground (arith, away, there)
]

one_of :
    (m n : ChatRoomMember) (at_m at_n : Bool) (x : ChatRoomMember)
    → ("other" == m.id) ≡ false
    → ("other" == n.id) ≡ false
    → (if at_m then some m else if at_n then some n else none) ≡ some x
    → ("other" == x.id) ≡ false
one_of m n true at_n x h k there = ground (arith, h, there)
one_of m n false true x h k there = ground (arith, k, there)
one_of m n false false x h k there = cc

only_members :
    (j : String) (x : ChatRoomMember) → member_at written j ≡ some x → ("other" == x.id) ≡ false
unfolding find
only_members j x there =
    one_of (in_room_as "m1" "a") (in_room_as "m2" "b") ("m1" == j) ("m2" == j) x refl refl there

written_apart :
    (k j : String) (m : ChatMessage) (x : ChatRoomMember)
    → message_at written k ≡ some m
    → member_at written j ≡ some x
    → (m.chat_room_id == x.id) ≡ false
written_apart k j m x there seated =
    ap (λ i. i == x.id) (only_message k m there) ∙ only_members j x seated

find_my_chat_rooms-none_unread_example :
    (rooms : List MemberWithUnread) × (find_my_chat_rooms "a" written ≡ (ok rooms, written))
    × (any (λ r. ltb 0 r.unread_count) rooms ≡ false)
find_my_chat_rooms-none_unread_example = find_my_chat_rooms-none_unread "a" written written_apart

abbrev told : String → String → Notification
told id user_id = record {
  id = id;
  user_id = user_id;
  notification_type = NotificationType.system;
  title = "Hello";
  message = "Welcome";
  related_id = none;
  related_type = none;
  is_read = false;
  read_at = none;
  created_at = 0;
}

abbrev notified : World
notified = record (market paid) { notifications = told "n1" "a" ∷ told "n2" "b" ∷ [] }

serve-KeepsOthers_example :
    notification_at (Owners.serve (Owners.remove "n1" "b") notified) "n1" ≡ some (told "n1" "a")
unfolding find
serve-KeepsOthers_example =
    serve-KeepsOthers (Owners.remove "n1" "b") notified "n1" (told "n1" "a") refl refl

delete-hides_example :
    (r : ErrorResponse) × (answer
        (NotificationsService.delete "n1" "b" notified).0
        []
        7
        "/notifications/n1"
      ≡ some r)
    × (answer (NotificationsService.delete "n1" "b" (market paid)).0 [] 7 "/notifications/n1"
        ≡ some r)
    × (r.status_code ≡ 404)
    × ((NotificationsService.delete "n1" "b" notified).1 ≡ notified)
unfolding find
delete-hides_example =
    delete-hides "n1" "b" notified (market paid) (told "n1" "a") refl refl refl [] 7
      "/notifications/n1"
