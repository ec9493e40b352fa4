-- ===== src/Messages/Membership.antt =====
-- Changes of the members of the rooms of src/modules/messages, and rooms that are created and
-- deleted.
use secondhand_api.Prelude.{
  String, Bool, true, false, none, some, ◌≡◌, refl, sym, ap, ◌∙◌, ◌==◌, arith, eq_true, eq_self,
  eq_sym_false, ltb, length, if◌then◌else◌, Bool-cases, inl, inr, map-eq-some,
}
use secondhand_api.Prisma.Delegate.{keep_unless}
use secondhand_api.Prisma.Counting.{spared_by, row_of_count}
use secondhand_api.Prisma.Writing.{row_of_create, kept_by_create, stored_by_create}
use secondhand_api.Schema.Chats.{ChatRoom, ChatRoomMember, ChatMessage}
use secondhand_api.World.{Backend}
use secondhand_api.Messages.MessagesRepository.{in_room, is_membership}
use secondhand_api.Messages.Rooms.{IsHoused}
use mathlib.Core.Option

member_kept :
    (p : ChatRoomMember → Bool) (f : ChatRoomMember → ChatRoomMember)
    → ((m : ChatRoomMember) → ((f m).id ≡ m.id) × ((f m).chat_room_id ≡ m.chat_room_id))
    → (x m : ChatRoomMember) → (if p x then f x else x) ≡ m
    → (m.id ≡ x.id) × (m.chat_room_id ≡ x.chat_room_id)
member_kept p f same x m changed = ground (arith, same x, changed)

-- A room other than one that a user leaves.
elsewhere :
    (k j user_id : String) (m : ChatRoomMember)
    → m.chat_room_id ≡ j
    → (j == k) ≡ false
    → is_membership k user_id m ≡ false
elsewhere k j user_id m at_ other = ground (arith, ap (λ x. x == k) at_, other)

module _ ⦃b : Backend⦄ {rooms : b.chat_room.Table} {members : b.chat_room_member.Table}
    {messages : b.chat_message.Table} (v : IsHoused rooms members messages) where
  pub update_members-IsHoused :
      (p : ChatRoomMember → Bool) (f : ChatRoomMember → ChatRoomMember)
      → ((m : ChatRoomMember) → ((f m).id ≡ m.id) × ((f m).chat_room_id ≡ m.chat_room_id))
      → IsHoused rooms (b.chat_room_member.update_many p f members) messages
  update_members-IsHoused p f same =
      let updated = b.chat_room_member.find-update_many p f members (λ y. (same y).0) in
      record {
        members_housed = λ k m found.
            let (x, there, changed) = map-eq-some _ _ m (sym (updated k) ∙ found) in
            let (r, housed) = v.members_housed k x there in
            (
              r,
              ap (λ y. b.chat_room.find_unique y rooms) (member_kept p f same x m changed).1
                  ∙ housed,
            );
        messages_housed = v.messages_housed;
        inhabited = λ k r found.
            let (x, there, at_) = v.inhabited k r found in
            let (same_id, same_room) = member_kept p f same x (if p x then f x else x) refl in
            (
              (if p x then f x else x),
              ap
                    (λ j.
                      b.chat_room_member.find_unique j (b.chat_room_member.update_many p f members))
                    same_id
                  ∙ updated x.id
                  ∙ ap (Option.map _) there,
              same_room ∙ at_,
            );
      }

  -- A user leaves a room that has another member.
  module _ (k user_id : String) where
    abbrev left_members : b.chat_room_member.Table
    left_members = b.chat_room_member.delete_many (is_membership k user_id) members

    stayed :
        (j : String) (m : ChatRoomMember)
        → b.chat_room_member.find_unique j left_members ≡ some m
        → b.chat_room_member.find_unique j members ≡ some m
    stayed j m found =
        (spared_by (is_membership k user_id) _ m
          (sym (b.chat_room_member.find-delete_many _ j members) ∙ found)).0

    pub stays :
        (j : String) (m : ChatRoomMember)
        → b.chat_room_member.find_unique j members ≡ some m
        → is_membership k user_id m ≡ false
        → b.chat_room_member.find_unique j left_members ≡ some m
    stays j m there spared =
        b.chat_room_member.find-delete_many _ j members
        ∙ ap (keep_unless _) there
        ∙ ap (λ c. if c then none else some m) spared

    pub leave-IsHoused :
        ltb 0 (length (b.chat_room_member.find_many (in_room k) left_members)) ≡ true
        → IsHoused rooms left_members messages
    leave-IsHoused remain = record {
      members_housed = λ j m found. v.members_housed j m (stayed j m found);
      messages_housed = v.messages_housed;
      inhabited = λ j r found. elim (Bool-cases (j == k)) [
        | inl here_ ↦
            let (m, there, at_) = row_of_count b.chat_room_member (in_room k) left_members remain in
            (m, there, eq_true at_ ∙ sym (eq_true here_))
        | inr other ↦
            let (m, there, at_) = v.inhabited j r found in
            (m, stays m.id m there (elsewhere k j user_id m at_ other), at_)
      ];
    }

    other_room :
        (j : String) (r : ChatRoom)
        → (j == k) ≡ false
        → b.chat_room.find_unique j rooms ≡ some r
        → b.chat_room.find_unique j (b.chat_room.delete k rooms).1 ≡ some r
    other_room j r other there =
        b.chat_room.find-delete k j rooms
        ∙ ap (λ c. if c then none else b.chat_room.find_unique j rooms) (eq_sym_false j k other)
        ∙ there

    -- The last member leaves: the room goes, and what it holds.
    pub leave_last-IsHoused :
        IsHoused
          (b.chat_room.delete k rooms).1
          (b.chat_room_member.delete_many (in_room k) left_members)
          (b.chat_message.delete_many (λ m. m.chat_room_id == k) messages)
    leave_last-IsHoused = record {
      members_housed = λ j m found.
          let (there, other) =
            spared_by (in_room k) _ m
              (sym (b.chat_room_member.find-delete_many _ j left_members) ∙ found) in
          let (r, housed) = v.members_housed j m (stayed j m there) in
          (r, other_room m.chat_room_id r other housed);
      messages_housed = λ j m found.
          let (there, other) =
            spared_by (λ (n : ChatMessage). n.chat_room_id == k) _ m
              (sym (b.chat_message.find-delete_many _ j messages) ∙ found) in
          let (r, housed) = v.messages_housed j m there in
          (r, other_room m.chat_room_id r other housed);
      inhabited = λ j r found. elim (Bool-cases (k == j)) [
        | inl gone ↦ absurd (
            let e =
              sym found
              ∙ b.chat_room.find-delete k j rooms
              ∙ ap (λ c. if c then none else b.chat_room.find_unique j rooms) gone in
            cc)
        | inr other ↦
            let was =
              sym (ap (λ c. if c then none else b.chat_room.find_unique j rooms) other)
              ∙ sym (b.chat_room.find-delete k j rooms)
              ∙ found in
            let (m, there, at_) = v.inhabited j r was in
            let apart = elsewhere k j user_id m at_ (eq_sym_false k j other) in
            (
              m,
              b.chat_room_member.find-delete_many (in_room k) m.id left_members
                  ∙ ap (keep_unless (in_room k)) (stays m.id m there apart)
                  ∙ ap (λ c. if c then none else some m)
                      (ap (λ x. x == k) at_ ∙ eq_sym_false k j other),
              at_,
            )
      ];
    }

  -- A room that is created with two members.
  module _ (room : ChatRoom) (buyer seller : ChatRoomMember)
      (room_stored : (b.chat_room.create room rooms).0 ≡ some room)
      (buyer_stored : (b.chat_room_member.create buyer members).0 ≡ some buyer)
      (buyer_in : buyer.chat_room_id ≡ room.id) (seller_in : seller.chat_room_id ≡ room.id) where
    abbrev with_buyer : b.chat_room_member.Table
    with_buyer = (b.chat_room_member.create buyer members).1

    abbrev with_both : b.chat_room_member.Table
    with_both = (b.chat_room_member.create seller with_buyer).1

    -- Members that were there stay, and the buyer is there too.
    member_stays :
        (k : String) (m : ChatRoomMember)
        → b.chat_room_member.find_unique k with_buyer ≡ some m
        → b.chat_room_member.find_unique k with_both ≡ some m
    member_stays =
        kept_by_create b.chat_room_member seller with_buyer (λ x same. ground (arith, same))

    new_room_there : b.chat_room.find_unique room.id (b.chat_room.create room rooms).1 ≡ some room
    new_room_there =
        (stored_by_create b.chat_room room rooms room room_stored).1 room.id (eq_self room.id)

    in_new_room :
        (m : ChatRoomMember)
        → m.chat_room_id ≡ room.id
        → (r : ChatRoom) × (b.chat_room.find_unique m.chat_room_id (b.chat_room.create room rooms).1
            ≡ some r)
    in_new_room m at_ = (
      room,
      ap (λ j. b.chat_room.find_unique j (b.chat_room.create room rooms).1) at_ ∙ new_room_there,
    )

    housed_still :
        (k : String) (r : ChatRoom)
        → b.chat_room.find_unique k rooms ≡ some r
        → b.chat_room.find_unique k (b.chat_room.create room rooms).1 ≡ some r
    housed_still = kept_by_create b.chat_room room rooms (λ x same. same)

    pub create_room-IsHoused : IsHoused (b.chat_room.create room rooms).1 with_both messages
    create_room-IsHoused = record {
      members_housed = λ k m found.
          elim (row_of_create b.chat_room_member seller with_buyer k m found) [
            | inl new ↦ in_new_room m (ap (λ x. x.chat_room_id) new ∙ seller_in)
            | inr before ↦ elim (row_of_create b.chat_room_member buyer members k m before) [
              | inl new ↦ in_new_room m (ap (λ x. x.chat_room_id) new ∙ buyer_in)
              | inr old ↦ let (r, there) = v.members_housed k m old in (r, housed_still _ r there)
            ]
          ];
      messages_housed =
          λ k m found. let (r, there) = v.messages_housed k m found in (r, housed_still _ r there);
      inhabited = λ k r found. elim (row_of_create b.chat_room room rooms k r found) [
        | inl new ↦
            let key : r.id ≡ k =
              b.chat_room.key_of_found k (b.chat_room.create room rooms).1 r found in
            (
              buyer,
              member_stays buyer.id buyer (
                  (stored_by_create b.chat_room_member buyer members buyer buyer_stored).1 buyer.id
                    (eq_self buyer.id)),
              buyer_in ∙ sym (ap (λ x. x.id) new) ∙ key,
            )
        | inr old ↦
            let (m, there, at_) = v.inhabited k r old in
            (
              m,
              member_stays m.id m (
                  kept_by_create b.chat_room_member buyer members (λ x same. ground (arith, same))
                    m.id m there),
              at_,
            )
      ];
    }
