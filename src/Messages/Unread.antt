-- ===== src/Messages/Unread.antt =====
-- Sending and reading by src/modules/messages/messages.service.ts, and its list of a user's rooms.
use secondhand_api.Prelude.{
  ℕ, suc, String, Bool, true, false, not, ◌&&◌, ◌||◌, none, some, List, [], ◌∷◌, ◌++◌, ◌≡◌, refl,
  sym, ap, ◌∙◌, ◌==◌, ltb, arith, if◌then◌else◌, any, map, Bool-cases, inl, inr, eq_self, eq_iff,
  map-eq-some,
}
use mathlib.Core.Option
use secondhand_api.Http.{ok}
use secondhand_api.Prisma.Counting.{count_of_row, row_of_count, uncounted}
use secondhand_api.Prisma.Writing.{free_of_new}
use secondhand_api.Schema.Chats.{ChatRoom, ChatRoomMember, ChatMessage, message_conflicts}
use secondhand_api.World.{Backend, World, room_at, message_at, member_at, message_created}
use secondhand_api.Messages.MessagesRepository
use secondhand_api.Messages.MessagesRepository.{
  with_members, is_unread, unread_count, is_membership,
}
use secondhand_api.Messages.MessagesService
use secondhand_api.Messages.MessagesService.{
  SendMessageDto, MemberWithUnread, is_member, new_message, recipients, find_my_chat_rooms,
}
use secondhand_api.Messages.Rooms.{updated_room}

read_is_false : (a b : Bool) → (a && b && false) ≡ false
read_is_false a b = ground arith

-- Once marked as read, a message is unread no more.
marked :
    (k user_id : String) (now : ℕ) (x y : ChatMessage)
    → (if is_unread k user_id x then record x { is_read = true; read_at = some now } else x) ≡ y
    → is_unread k user_id y ≡ false
marked k user_id now x y changed = elim (Bool-cases (is_unread k user_id x)) [
  | inl unread ↦
      ap (is_unread k user_id) (sym changed)
      ∙ ap
          (λ c.
            is_unread k user_id (if c then record x { is_read = true; read_at = some now } else x))
          unread
      ∙ read_is_false (x.chat_room_id == k) (not (x.sender_id == user_id))
  | inr read ↦
      ap (is_unread k user_id) (sym changed)
      ∙ ap
          (λ c.
            is_unread k user_id (if c then record x { is_read = true; read_at = some now } else x))
          read
      ∙ read
]

any-map :
    {A B : Type 0} (f : A → B) (q : B → Bool) (l : List A) → any q (map f l) ≡ any (λ x. q (f x)) l
any-map f q [] = refl
any-map f q (x ∷ xs) = ap (λ r. q (f x) || r) (any-map f q xs)

-- A user is told exactly if they are a member other than the sender.
recipients-others :
    (sender user_id : String) (room : ChatRoom) (members : List ChatRoomMember)
    → any (λ v. v == user_id) (recipients sender (record { room = room; members = members }))
      ≡ (any (λ (m : ChatRoomMember). m.user_id == user_id) members && not (sender == user_id))
unfolding recipients
recipients-others sender user_id room [] = refl
recipients-others sender user_id room (m ∷ ms) =
    let rest = recipients-others sender user_id room ms in
    elim (Bool-cases (m.user_id == sender)) [
      | inl own ↦ ground (arith, own, rest, (eq_iff m.user_id sender).0 own)
      | inr other ↦ ground (
        arith,
        other,
        rest,
        eq_iff m.user_id sender,
        eq_iff m.user_id user_id,
        eq_iff sender user_id,
      )
    ]

module _ ⦃b : Backend⦄ where
  -- A list of a user's rooms never tells of an unread message, as long as no room has the id of a
  -- member's row.
  pub find_my_chat_rooms-none_unread :
      (user_id : String) (w : World)
      → ((k j : String) (m : ChatMessage) (x : ChatRoomMember)
          → message_at w k ≡ some m
          → member_at w j ≡ some x
          → (m.chat_room_id == x.id) ≡ false)
      → (rooms : List MemberWithUnread) × (find_my_chat_rooms user_id w ≡ (ok rooms, w))
        × (any (λ r. ltb 0 r.unread_count) rooms ≡ false)
  unfolding find_my_chat_rooms MessagesRepository.find_chat_rooms_by_user_id
  find_my_chat_rooms-none_unread user_id w apart =
      let rows = b.chat_room_member.find_many (λ m. m.user_id == user_id) w.members in
      let shown = λ (x : ChatRoomMember). ltb 0 (unread_count w x.id user_id) in
      let told : any shown rows ≡ false = elim (Bool-cases (any shown rows)) [
        | inr none_ ↦ none_
        | inl some_ ↦
            let (x, there, _, counted) = b.chat_room_member.some_many _ shown w.members some_ in
            let (m, stored, unread) =
              row_of_count b.chat_message (is_unread x.id user_id) w.messages counted in
            absurd (ground (arith, apart m.id x.id m x stored there, unread))
      ] in
      (_, refl, any-map _ _ rows ∙ told)

  module _ (sender reader : String) (dto : SendMessageDto) (w : World) (r : ChatRoom) where
    abbrev pub sent : ChatMessage
    sent = new_message (b.uuid w.readings) (b.date (suc w.readings)) sender dto

    -- An id that no message has clashes with none.
    unclashed :
        message_at w (b.uuid w.readings) ≡ none
        → b.chat_message.find_first (message_conflicts sent) w.messages ≡ none
    unfolding new_message
    unclashed fresh = free_of_new b.chat_message sent w.messages (λ x same. same) fresh

    abbrev touched : ChatRoom → ChatRoom
    touched x = record x { updated_at = b.date (suc (suc w.readings)) }

    abbrev sent_state : World
    sent_state = record w {
      messages = (b.chat_message.create sent w.messages).1;
      rooms = (b.chat_room.update dto.chat_room_id touched w.rooms).1;
      readings = suc (suc (suc w.readings));
      events =
          w.events
          ++ message_created dto.chat_room_id (b.uuid w.readings) sender
              (recipients sender (with_members w r))
            ∷ [];
    }

    abbrev read_state : World
    read_state = record sent_state {
      messages =
          b.chat_message.update_many (is_unread dto.chat_room_id reader)
            (λ m. record m { is_read = true; read_at = some (b.date (suc (suc (suc w.readings)))) })
            sent_state.messages;
      members =
          b.chat_room_member.update_many (is_membership dto.chat_room_id reader)
            (λ m. record m { last_read_at = some (b.date (suc (suc (suc (suc w.readings))))) })
            w.members;
      readings = suc (suc (suc (suc (suc w.readings))));
    }

    read_state-none : unread_count read_state dto.chat_room_id reader ≡ 0
    read_state-none = elim (Bool-cases (ltb 0 (unread_count read_state dto.chat_room_id reader))) [
      | inr none_ ↦ uncounted _ none_
      | inl some_ ↦
          let (y, there, unread) =
            row_of_count b.chat_message (is_unread dto.chat_room_id reader) read_state.messages
              some_ in
          let (x, was, changed) = map-eq-some _ _ y (
            sym (b.chat_message.find-update_many _ _ sent_state.messages (λ m. refl) y.id)
            ∙ there) in
          absurd (let e = sym unread ∙ marked dto.chat_room_id reader _ x y changed in cc)
    ]

    touched_room :
        room_at w dto.chat_room_id ≡ some r → room_at sent_state dto.chat_room_id ≡ some (touched r)
    touched_room there =
        updated_room w.rooms dto.chat_room_id touched (λ x. refl) dto.chat_room_id
        ∙ ap (Option.map _) there
        ∙ ap (λ c. some (if c then touched r else r)) (eq_self dto.chat_room_id)

    unread_there :
        message_at w (b.uuid w.readings) ≡ none
        → (sender == reader) ≡ false
        → ltb 0 (unread_count sent_state dto.chat_room_id reader) ≡ true
    unfolding new_message
    unread_there fresh other =
        count_of_row b.chat_message (is_unread dto.chat_room_id reader) sent_state.messages
          (b.uuid w.readings) sent
          ((b.chat_message.create_free sent w.messages (unclashed fresh)).1 (b.uuid w.readings)
            ∙ ap (λ c. if c then some sent else message_at w (b.uuid w.readings))
                (eq_self (b.uuid w.readings)))
          (rw (eq_self dto.chat_room_id, other) refl)

    -- A member of a room can send a message to it, if the id to come is unused: the message is
    -- stored and announced by one event, to the members other than the sender and to nobody else,
    -- and each of these members then has something unread there; reading the room succeeds, and
    -- afterwards they have nothing unread there.
    pub send_message-read :
        room_at w dto.chat_room_id ≡ some r
        → is_member sender (with_members w r) ≡ true
        → is_member reader (with_members w r) ≡ true
        → (sender == reader) ≡ false
        → message_at w (b.uuid w.readings) ≡ none
        → (w' : World) × (w'' : World) × (told : List String) × (MessagesService.send_message sender
              dto w
            ≡ (ok sent, w'))
          × (message_at w' sent.id ≡ some sent)
          × (w'.events ≡ w.events ++ message_created dto.chat_room_id sent.id sender told ∷ [])
          × ((user_id : String)
              → any (λ v. v == user_id) told
                ≡ (is_member user_id (with_members w r) && not (sender == user_id)))
          × (ltb 0 (unread_count w' dto.chat_room_id reader) ≡ true)
          × (MessagesService.mark_as_read dto.chat_room_id reader w' ≡ (ok tt, w''))
          × (unread_count w'' dto.chat_room_id reader ≡ 0)
    unfolding MessagesService.send_message MessagesService.mark_as_read MessagesService.check_member
        MessagesRepository.find_chat_room_by_id MessagesRepository.create_message
        MessagesRepository.update_chat_room_timestamp MessagesRepository.mark_messages_as_read
        new_message
    send_message-read there from_member to_member other fresh =
        let (row, stored) = b.chat_message.create_free sent w.messages (unclashed fresh) in
        (
          sent_state,
          read_state,
          recipients sender (with_members w r),
          rw
              (
                there,
                from_member,
                row,
                b.chat_room.update_row dto.chat_room_id touched w.rooms,
                there,
              )
              refl,
          stored sent.id
              ∙ ap (λ c. if c then some sent else message_at w sent.id) (eq_self sent.id),
          refl,
          λ user_id. recipients-others sender user_id r (with_members w r).members,
          unread_there fresh other,
          rw (touched_room there, to_member) refl,
          read_state-none,
        )
