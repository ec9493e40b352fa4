-- ===== src/Messages/MessagesRepository.antt =====
-- src/modules/messages/repositories/messages.repository.ts, as in Products/ProductsRepository. Who is
-- included with a room are its members; the users that stand with them are left out.
use secondhand_api.Prelude.{
  ℕ, ◌-◌, ◌*◌, String, Bool, true, false, not, ◌&&◌, Option, none, some, List, ◌==◌, ltb, eqb, take,
  drop, length, ceil_div, if◌then◌else◌,
}
use mathlib.Core.List.{reverse}
use secondhand_api.Http.{ok, not_found}
use secondhand_api.Exec.{Exec, pure, or_throw, transaction, ◌>>=◌, ◌>>◌}
use secondhand_api.Schema.{same_given}
use secondhand_api.Schema.Chats.{ChatRoom, ChatRoomMember, ChatMessage}
use secondhand_api.World.{Backend, World, product_at, room_at, or_reject, new_date, new_id}

pub record RoomWithMembers : Type 0 where
  pub room : ChatRoom
  pub members : List ChatRoomMember

pub record FoundOrCreated : Type 0 where
  pub room : RoomWithMembers
  pub is_new : Bool

pub record MessagePage : Type 0 where
  pub message : List ChatMessage
  pub total : ℕ
  pub page : ℕ
  pub limit : ℕ
  pub total_pages : ℕ

-- orderBy: { createdAt: 'desc' }
abbrev pub latest : ChatMessage → ChatMessage → Bool
latest m n = ltb n.created_at m.created_at

-- where: { chatRoomId }, and with { userId }
abbrev pub in_room : String → ChatRoomMember → Bool
in_room chat_room_id m = m.chat_room_id == chat_room_id

abbrev pub is_membership : String → String → ChatRoomMember → Bool
is_membership chat_room_id user_id m = m.chat_room_id == chat_room_id && m.user_id == user_id

-- where: { chatRoomId, senderId: { not: userId }, isRead: false }
abbrev pub is_unread : String → String → ChatMessage → Bool
is_unread chat_room_id user_id m =
    m.chat_room_id == chat_room_id && not (m.sender_id == user_id) && not m.is_read

unfoldable pub new_room : String → ℕ → String → ChatRoom
new_room id now product_id = record {
  id = id;
  product_id = some product_id;
  created_at = now;
  updated_at = now;
}

unfoldable pub new_member : String → ℕ → String → String → ChatRoomMember
new_member id now chat_room_id user_id = record {
  id = id;
  chat_room_id = chat_room_id;
  user_id = user_id;
  last_read_at = none;
  joined_at = now;
}

module _ ⦃b : Backend⦄ where
  -- members: { some: { userId } }
  abbrev pub has_member : World → String → String → Bool
  has_member w chat_room_id user_id =
      ltb 0 (length (b.chat_room_member.find_many (is_membership chat_room_id user_id) w.members))

  abbrev pub members_of : World → String → List ChatRoomMember
  members_of w chat_room_id = b.chat_room_member.find_many (in_room chat_room_id) w.members

  abbrev pub with_members : World → ChatRoom → RoomWithMembers
  with_members w room = record { room = room; members = members_of w room.id }

  unfoldable pub insert_room : ChatRoom → Exec World ChatRoom
  insert_room room w =
      let (r, t) = b.chat_room.create room w.rooms in (or_reject "P2002" r, record w { rooms = t })

  unfoldable pub insert_member : ChatRoomMember → Exec World ChatRoomMember
  insert_member member w =
      let (r, t) = b.chat_room_member.create member w.members in
      (or_reject "P2002" r, record w { members = t })

  -- The nested create: the room with its two members, or nothing.
  unfoldable pub create_room : String → String → String → Exec World RoomWithMembers
  unfolding insert_room insert_member new_room new_member new_id new_date
  create_room user_id seller_id product_id = transaction (do
    room_id ← new_id
    buyer_row ← new_id
    seller_row ← new_id
    now ← new_date
    room ← insert_room (new_room room_id now product_id)
    insert_member (new_member buyer_row now room_id user_id)
    insert_member (new_member seller_row now room_id seller_id)
    λ w. (ok (with_members w room), w))

  abbrev pub is_room_about : World → String → String → ChatRoom → Bool
  is_room_about w user_id product_id room =
      same_given room.product_id (some product_id) && has_member w room.id user_id

  abbrev pub existing_or_created : String → String → Option ChatRoom → Exec World FoundOrCreated
  existing_or_created user_id product_id (some room) w =
      (ok (record { room = with_members w room; is_new = false }), w)
  existing_or_created user_id product_id none w =
      (do
        product ← or_throw (not_found "상품을 찾을 수 없습니다.") (product_at w product_id)
        room ← create_room user_id product.seller_id product_id
        pure (record { room = room; is_new = true }))
        w

  unfoldable pub find_or_create_chat_room : String → String → Exec World FoundOrCreated
  unfolding create_room
  find_or_create_chat_room user_id product_id w =
      existing_or_created user_id product_id
        (b.chat_room.find_first (is_room_about w user_id product_id) w.rooms) w

  unfoldable pub create_message : ChatMessage → Exec World ChatMessage
  create_message message w =
      let (r, t) = b.chat_message.create message w.messages in
      (or_reject "P2002" r, record w { messages = t })

  -- The rows of the members, each with its own id.
  unfoldable pub find_chat_rooms_by_user_id : String → Exec World (List ChatRoomMember)
  find_chat_rooms_by_user_id user_id w =
      (ok (b.chat_room_member.find_many (λ m. m.user_id == user_id) w.members), w)

  unfoldable pub find_messages_by_room_id : String → ℕ → ℕ → Exec World MessagePage
  find_messages_by_room_id chat_room_id page limit w =
      let where_ = λ (m : ChatMessage). m.chat_room_id == chat_room_id in
      let messages =
        take limit
          (drop ((page - 1) * limit) (b.chat_message.find_sorted where_ latest w.messages)) in
      let total = length (b.chat_message.find_many where_ w.messages) in
      (
        ok (record {
          message = reverse messages;
          total = total;
          page = page;
          limit = limit;
          total_pages = ceil_div total limit;
        }),
        w,
      )

  unfoldable pub mark_messages_as_read : String → String → Exec World (Unit {0})
  unfolding new_date
  mark_messages_as_read chat_room_id user_id = do
    read_at ← new_date
    λ w. (
      ok tt,
      record w {
        messages =
            b.chat_message.update_many (is_unread chat_room_id user_id)
              (λ m. record m { is_read = true; read_at = some read_at }) w.messages;
      },
    )
    last_read_at ← new_date
    λ w. (
      ok tt,
      record w {
        members =
            b.chat_room_member.update_many (is_membership chat_room_id user_id)
              (λ m. record m { last_read_at = some last_read_at }) w.members;
      },
    )

  abbrev pub unread_count : World → String → String → ℕ
  unread_count w chat_room_id user_id =
      length (b.chat_message.find_many (is_unread chat_room_id user_id) w.messages)

  unfoldable pub get_unread_count : String → String → Exec World ℕ
  get_unread_count chat_room_id user_id w = (ok (unread_count w chat_room_id user_id), w)

  abbrev pub included : World → Option ChatRoom → Option RoomWithMembers
  included w none = none
  included w (some room) = some (with_members w room)

  unfoldable pub find_chat_room_by_id : String → Exec World (Option RoomWithMembers)
  find_chat_room_by_id chat_room_id w = (ok (included w (room_at w chat_room_id)), w)

  unfoldable pub update_chat_room_timestamp : String → Exec World ChatRoom
  unfolding new_date
  update_chat_room_timestamp chat_room_id = do
    now ← new_date
    λ w.
        let (r, t) =
          b.chat_room.update chat_room_id (λ room. record room { updated_at = now }) w.rooms in
        (or_reject "P2025" r, record w { rooms = t })

  -- delete on a room, with what `onDelete: Cascade` deletes.
  unfoldable pub delete_room : String → Exec World ChatRoom
  delete_room chat_room_id w =
      let (r, t) = b.chat_room.delete chat_room_id w.rooms in
      (
        or_reject "P2025" r,
        record w {
          rooms = t;
          members = b.chat_room_member.delete_many (in_room chat_room_id) w.members;
          messages = b.chat_message.delete_many (λ m. m.chat_room_id == chat_room_id) w.messages;
        },
      )

  unfoldable pub delete_if_empty : String → Exec World (Unit {0})
  unfolding delete_room
  delete_if_empty chat_room_id w =
      if eqb (length (members_of w chat_room_id)) 0
      then (do delete_room chat_room_id; pure tt) w
      else (ok tt, w)

  unfoldable pub leave_chat_room : String → String → Exec World (Unit {0})
  unfolding delete_if_empty
  leave_chat_room chat_room_id user_id = do
    λ w. (
      ok tt,
      record w {
        members = b.chat_room_member.delete_many (is_membership chat_room_id user_id) w.members;
      },
    )
    delete_if_empty chat_room_id
