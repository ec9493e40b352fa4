-- ===== src/Messages/Requests.antt =====
-- Calls of src/modules/messages/messages.service.ts, one after the other.
use secondhand_api.Prelude.{
  suc, ◌+◌, String, true, some, List, [], ◌∷◌, ◌≡◌, refl, ◌==◌, ltb, length, Bool-cases,
  Option-cases, inl, inr, ◌⊎◌,
}
use secondhand_api.Http.{Result-cases, Exception, ok, err, not_found, forbidden}
use secondhand_api.Exec.{Keeps}
use secondhand_api.Prisma.Counting.{counted, uncounted}
use secondhand_api.Prisma.Writing.{own_row_stored}
use secondhand_api.Schema.{deleted, same_product_status}
use secondhand_api.Schema.Chats.{ChatRoom}
use secondhand_api.World.{Backend, World, room_at, product_at}
use secondhand_api.Products.ProductsRepository
use secondhand_api.Products.ProductsService
use secondhand_api.Messages.MessagesRepository
use secondhand_api.Messages.MessagesRepository.{
  RoomWithMembers, with_members, create_room, is_membership, in_room, new_room, new_member,
  is_room_about,
}
use secondhand_api.Messages.MessagesService
use secondhand_api.Messages.MessagesService.{SendMessageDto, is_member, check_member, new_message}
use secondhand_api.Messages.Rooms.{
  HasHomes, create_message-IsHoused, update_room-IsHoused, update_messages-IsHoused,
}
use secondhand_api.Messages.Membership.{
  update_members-IsHoused, leave-IsHoused, leave_last-IsHoused, create_room-IsHoused,
}

-- A call, by the user who makes it.
pub data Call : Type 0 where
  open_room : (user_id product_id : String) → Call
  send : (user_id : String) → SendMessageDto → Call
  read : (chat_room_id user_id : String) → Call
  leave : (chat_room_id user_id : String) → Call

module _ ⦃b : Backend⦄ where
  unfoldable pub serve : Call → World → World
  serve (open_room user_id product_id) w =
      (MessagesService.find_or_create_chat_room user_id product_id w).1
  serve (send user_id dto) w = (MessagesService.send_message user_id dto w).1
  serve (read chat_room_id user_id) w = (MessagesService.mark_as_read chat_room_id user_id w).1
  serve (leave chat_room_id user_id) w = (MessagesService.leave_chat_room chat_room_id user_id w).1

  unfoldable pub serve_all : List Call → World → World
  serve_all [] w = w
  serve_all (c ∷ cs) w = serve_all cs (serve c w)

  -- The check ends in one of two ways, with nothing changed.
  pub check_member_cases :
      (k user_id missing refusal : String) (w : World)
      → ((e : Exception) × (check_member k user_id missing refusal w ≡ (err e, w)))
        ⊎ ((r : ChatRoom) × (room_at w k ≡ some r)
            × (is_member user_id (with_members w r) ≡ true)
            × (check_member k user_id missing refusal w ≡ (ok (with_members w r), w)))
  unfolding check_member MessagesRepository.find_chat_room_by_id
  check_member_cases k user_id missing refusal w = elim (Option-cases (room_at w k)) [
    | inl gone ↦ inl (not_found missing, rw gone refl)
    | inr (r, there) ↦ elim (Bool-cases (is_member user_id (with_members w r))) [
      | inl inside ↦ inr (r, there, inside, rw (there, inside) refl)
      | inr outside ↦ inl (forbidden refusal, rw (there, outside) refl)
    ]
  ]

  send-HasHomes :
      (user_id : String) (dto : SendMessageDto)
      → Keeps HasHomes (MessagesService.send_message user_id dto)
  unfolding MessagesService.send_message new_message MessagesRepository.create_message
      MessagesRepository.update_chat_room_timestamp
  send-HasHomes user_id dto w homes =
      elim (check_member_cases dto.chat_room_id user_id "채팅방을 찾을 수 없습니다." "채팅방 멤버만 메시지를 보낼 수 있습니다."
        w) [
          | inl (e, thrown) ↦ rw thrown homes
          | inr (r, there, inside, checked) ↦
              let now = b.date (suc w.readings) in
              let m = new_message (b.uuid w.readings) now user_id dto in
              let stored = create_message-IsHoused homes m r there in
              let touch =
                λ (x : ChatRoom). record x { updated_at = b.date (suc (suc w.readings)) } in
              elim (Option-cases (b.chat_message.create m w.messages).0) [
                | inl refused ↦ rw (checked, refused) stored
                | inr (x, taken) ↦
                    elim (Option-cases (b.chat_room.update dto.chat_room_id touch w.rooms).0) [
                      | inl gone ↦
                          rw (checked, taken, gone)
                            (update_room-IsHoused stored dto.chat_room_id touch (λ y. refl))
                      | inr (y, touched) ↦
                          rw (checked, taken, touched)
                            (update_room-IsHoused stored dto.chat_room_id touch (λ y. refl))
                    ]
              ]
        ]

  read-HasHomes : (k user_id : String) → Keeps HasHomes (MessagesService.mark_as_read k user_id)
  unfolding MessagesService.mark_as_read MessagesRepository.mark_messages_as_read
  read-HasHomes k user_id w homes =
      elim (check_member_cases k user_id "채팅방을 찾을 수 없습니다." "권한이 없습니다." w) [
        | inl (e, thrown) ↦ rw thrown homes
        | inr (r, there, inside, checked) ↦ rw checked (
            update_members-IsHoused (update_messages-IsHoused homes _ _ (λ m. (refl, refl))) _ _
              (λ m. (refl, refl)))
      ]

  -- The two ends of leaving.
  delete_if_empty-HasHomes :
      (k user_id : String) (w : World)
      → HasHomes w
      → HasHomes (MessagesRepository.leave_chat_room k user_id w).1
  unfolding MessagesRepository.leave_chat_room MessagesRepository.delete_if_empty
      MessagesRepository.delete_room
  delete_if_empty-HasHomes k user_id w homes =
      let left =
        b.chat_room_member.find_many (in_room k)
          (b.chat_room_member.delete_many (is_membership k user_id) w.members) in
      elim (Bool-cases (ltb 0 (length left))) [
        | inl remain ↦ rw (counted _ remain) (leave-IsHoused homes k user_id remain)
        | inr nobody ↦
            rw (uncounted _ nobody) (elim (Option-cases (b.chat_room.delete k w.rooms).0) [
              | inl gone ↦ rw gone (leave_last-IsHoused homes k user_id)
              | inr (r, there) ↦ rw there (leave_last-IsHoused homes k user_id)
            ])
      ]

  leave-HasHomes : (k user_id : String) → Keeps HasHomes (MessagesService.leave_chat_room k user_id)
  unfolding MessagesService.leave_chat_room
  leave-HasHomes k user_id w homes =
      elim (check_member_cases k user_id "채팅방을 찾을 수 없습니다." "권한이 없습니다." w) [
        | inl (e, thrown) ↦ rw thrown homes
        | inr (r, there, inside, checked) ↦ rw checked (delete_if_empty-HasHomes k user_id w homes)
      ]

  create_room-HasHomes :
      (user_id seller_id product_id : String)
      → Keeps HasHomes (create_room user_id seller_id product_id)
  unfolding create_room MessagesRepository.insert_room MessagesRepository.insert_member new_room
      new_member
  create_room-HasHomes user_id seller_id product_id w homes =
      let n = w.readings in
      let now = b.date (suc (suc (suc n))) in
      let room = new_room (b.uuid n) now product_id in
      let buyer = new_member (b.uuid (suc n)) now (b.uuid n) user_id in
      let seller = new_member (b.uuid (suc (suc n))) now (b.uuid n) seller_id in
      let with_buyer = (b.chat_room_member.create buyer w.members).1 in
      elim (Option-cases (b.chat_room.create room w.rooms).0) [
        | inl refused ↦ rw refused homes
        | inr (r, stored) ↦ elim (Option-cases (b.chat_room_member.create buyer w.members).0) [
          | inl refused ↦ rw (stored, refused) homes
          | inr (x, first) ↦ elim (Option-cases (b.chat_room_member.create seller with_buyer).0) [
            | inl refused ↦ rw (stored, first, refused) homes
            | inr (y, second) ↦
                rw (stored, first, second)
                  (create_room-IsHoused homes room buyer seller
                    (own_row_stored b.chat_room room w.rooms r stored)
                    (own_row_stored b.chat_room_member buyer w.members x first) refl refl)
          ]
        ]
      ]

  repository_open-HasHomes :
      (user_id product_id : String)
      → Keeps HasHomes (MessagesRepository.find_or_create_chat_room user_id product_id)
  unfolding MessagesRepository.find_or_create_chat_room
  repository_open-HasHomes user_id product_id w homes =
      elim (Option-cases (b.chat_room.find_first (is_room_about w user_id product_id) w.rooms)) [
        | inr (r, found) ↦ rw found homes
        | inl none_ ↦ elim (Option-cases (product_at w product_id)) [
          | inl gone ↦ rw (none_, gone) homes
          | inr (p, there) ↦
              let kept = create_room-HasHomes user_id p.seller_id product_id w homes in
              elim (Result-cases (create_room user_id p.seller_id product_id w).0) [
                | inl (r, made) ↦ rw (none_, there, made) kept
                | inr (e, thrown) ↦ rw (none_, there, thrown) kept
              ]
        ]
      ]

  open-HasHomes :
      (user_id product_id : String)
      → Keeps HasHomes (MessagesService.find_or_create_chat_room user_id product_id)
  unfolding MessagesService.find_or_create_chat_room MessagesService.announce
      ProductsService.find_by_id ProductsRepository.increment_view_count
  open-HasHomes user_id product_id w homes = elim (Option-cases (product_at w product_id)) [
    | inl gone ↦ rw gone homes
    | inr (p, there) ↦ elim (Bool-cases (p.seller_id == user_id)) [
      | inl own ↦ rw (there, own) homes
      | inr other ↦ elim (Bool-cases (same_product_status p.status deleted)) [
        | inl gone ↦ rw (there, other, gone) homes
        | inr offered ↦
            let viewed = record w {
              products =
                  (b.product.update product_id (λ q. record q { view_count = q.view_count + 1 })
                    w.products).1;
            } in
            let kept = repository_open-HasHomes user_id product_id viewed homes in
            elim (Result-cases
              (MessagesRepository.find_or_create_chat_room user_id product_id viewed).0) [
                | inr (e, thrown) ↦ rw (there, other, offered, thrown) kept
                | inl (found, returned) ↦ elim (Bool-cases found.is_new) [
                  | inl new ↦ rw (there, other, offered, returned, new) kept
                  | inr old ↦ rw (there, other, offered, returned, old) kept
                ]
              ]
      ]
    ]
  ]

  serve-HasHomes : (c : Call) (w : World) → HasHomes w → HasHomes (serve c w)
  unfolding serve
  serve-HasHomes (open_room user_id product_id) = open-HasHomes user_id product_id
  serve-HasHomes (send user_id dto) = send-HasHomes user_id dto
  serve-HasHomes (read chat_room_id user_id) = read-HasHomes chat_room_id user_id
  serve-HasHomes (leave chat_room_id user_id) = leave-HasHomes chat_room_id user_id

  -- Where every message and every member is in a room that is there, and every room has a member,
  -- the same holds after any sequence of calls of the message service, one after the other.
  pub serve_all-HasHomes : (cs : List Call) (w : World) → HasHomes w → HasHomes (serve_all cs w)
  unfolding serve_all
  serve_all-HasHomes [] w homes = homes
  serve_all-HasHomes (c ∷ cs) w homes = serve_all-HasHomes cs (serve c w) (serve-HasHomes c w homes)
