-- ===== src/Messages/Rooms.antt =====
-- What every state of the rooms, members and messages of src/modules/messages has: each member and
-- each message is in a room that is there, and no room is without a member.
use secondhand_api.Prelude.{
  String, Bool, some, ◌≡◌, sym, ap, ◌∙◌, ◌==◌, arith, if◌then◌else◌, map-eq-some, inl, inr,
}
use secondhand_api.Prisma.Writing.{row_of_create}
use secondhand_api.Schema.Chats.{ChatRoom, ChatRoomMember, ChatMessage}
use secondhand_api.World.{Backend, World}
use mathlib.Core.Option

module _ ⦃b : Backend⦄ where
  pub record IsHoused (rooms : b.chat_room.Table) (members : b.chat_room_member.Table)
      (messages : b.chat_message.Table) : Type 0 where
    pub members_housed :
        (k : String) (m : ChatRoomMember)
        → b.chat_room_member.find_unique k members ≡ some m
        → (r : ChatRoom) × (b.chat_room.find_unique m.chat_room_id rooms ≡ some r)
    pub messages_housed :
        (k : String) (m : ChatMessage)
        → b.chat_message.find_unique k messages ≡ some m
        → (r : ChatRoom) × (b.chat_room.find_unique m.chat_room_id rooms ≡ some r)
    pub inhabited :
        (k : String) (r : ChatRoom)
        → b.chat_room.find_unique k rooms ≡ some r
        → (m : ChatRoomMember) × (b.chat_room_member.find_unique m.id members ≡ some m)
          × (m.chat_room_id ≡ k)

  abbrev pub HasHomes : World → Type 0
  HasHomes w = IsHoused w.rooms w.members w.messages

  -- A room that is there after such a change was there, and the other way round.
  module _ (rooms : b.chat_room.Table) (j : String) (f : ChatRoom → ChatRoom)
      (same : (r : ChatRoom) → (f r).id ≡ r.id) where
    pub updated_room :
        (k : String)
        → (b.chat_room.find_unique k (b.chat_room.update j f rooms).1
            ≡ Option.map (λ r. if j == k then f r else r) (b.chat_room.find_unique k rooms))
    updated_room k = ground (arith, b.chat_room.find-update j k f rooms same)

    pub still_there :
        (k : String) (r : ChatRoom)
        → b.chat_room.find_unique k rooms ≡ some r
        → (x : ChatRoom) × (b.chat_room.find_unique k (b.chat_room.update j f rooms).1 ≡ some x)
    still_there k r there = ((if j == k then f r else r), updated_room k ∙ ap (Option.map _) there)

    was_there :
        (k : String) (r : ChatRoom)
        → b.chat_room.find_unique k (b.chat_room.update j f rooms).1 ≡ some r
        → (x : ChatRoom) × (b.chat_room.find_unique k rooms ≡ some x)
    was_there k r found =
        let (x, there, _) = map-eq-some _ _ r (sym (updated_room k) ∙ found) in (x, there)

  -- The room of a row that is changed.
  room_kept :
      (p : ChatMessage → Bool) (f : ChatMessage → ChatMessage)
      → ((m : ChatMessage) → ((f m).id ≡ m.id) × ((f m).chat_room_id ≡ m.chat_room_id))
      → (x m : ChatMessage) → (if p x then f x else x) ≡ m
      → m.chat_room_id ≡ x.chat_room_id
  room_kept p f same x m changed = ground (arith, same x, changed)

  module _ {rooms : b.chat_room.Table} {members : b.chat_room_member.Table}
      {messages : b.chat_message.Table} (v : IsHoused rooms members messages) where
    -- A message that is sent to a room that is there.
    pub create_message-IsHoused :
        (m : ChatMessage) (r : ChatRoom)
        → b.chat_room.find_unique m.chat_room_id rooms ≡ some r
        → IsHoused rooms members (b.chat_message.create m messages).1
    create_message-IsHoused m r there = record {
      members_housed = v.members_housed;
      messages_housed = λ k x found. elim (row_of_create b.chat_message m messages k x found) [
        | inl new ↦ (r, ap (λ y. b.chat_room.find_unique y.chat_room_id rooms) new ∙ there)
        | inr old ↦ v.messages_housed k x old
      ];
      inhabited = v.inhabited;
    }

    -- A change of a room that keeps its id.
    pub update_room-IsHoused :
        (j : String) (f : ChatRoom → ChatRoom)
        → ((r : ChatRoom) → (f r).id ≡ r.id)
        → IsHoused (b.chat_room.update j f rooms).1 members messages
    update_room-IsHoused j f same =
        let still =
          λ (k : String) (r : ChatRoom) (there : b.chat_room.find_unique k rooms ≡ some r).
            still_there rooms j f same k r there in
        record {
          members_housed = λ k m found.
              let (r, there) = v.members_housed k m found in still m.chat_room_id r there;
          messages_housed = λ k m found.
              let (r, there) = v.messages_housed k m found in still m.chat_room_id r there;
          inhabited = λ k r found.
              let (x, there) = was_there rooms j f same k r found in v.inhabited k x there;
        }

    -- Changes of messages and members that keep their rooms.
    pub update_messages-IsHoused :
        (p : ChatMessage → Bool) (f : ChatMessage → ChatMessage)
        → ((m : ChatMessage) → ((f m).id ≡ m.id) × ((f m).chat_room_id ≡ m.chat_room_id))
        → IsHoused rooms members (b.chat_message.update_many p f messages)
    update_messages-IsHoused p f same = record {
      members_housed = v.members_housed;
      messages_housed = λ k m found.
          let (x, there, changed) =
            map-eq-some _ _ m
              (sym (b.chat_message.find-update_many p f messages (λ y. (same y).0) k) ∙ found) in
          let (r, housed) = v.messages_housed k x there in
          (r, ap (λ y. b.chat_room.find_unique y rooms) (room_kept p f same x m changed) ∙ housed);
      inhabited = v.inhabited;
    }
