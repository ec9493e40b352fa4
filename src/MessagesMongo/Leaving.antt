-- ===== src/MessagesMongo/Leaving.antt =====
-- How a user leaves a room, by `leaveChatroom` of
-- src/modules/messages-mongo/messages-mongo.service.ts.
use secondhand_api.Prelude.{
  suc, ◌-◌, String, Bool, true, false, Option, some, ◌≡◌, refl, sym, ap, subst, ◌∙◌, ◌==◌, eqb,
  if◌then◌else◌, Bool-cases, Option-cases, inl, inr, ◌⊎◌, eq_self,
}
use mathlib.Core.Option
use secondhand_api.Http.{Result-cases, ok, err, failure}
use secondhand_api.Exec.{Keeps}
use secondhand_api.Schema.Documents.{ChatRoomDocument}
use secondhand_api.World.{Backend, World, mongo_room_at}
use secondhand_api.MessagesMongo.ChatRoomRepository
use secondhand_api.MessagesMongo.ChatRoomRepository.{
  is_participant, leave_room, is_room_of, new_room,
}
use secondhand_api.MessagesMongo.ChatRoomService
use secondhand_api.MessagesMongo.MessageRepository
use secondhand_api.MessagesMongo.MessageRepository.{SendMessageDto}
use secondhand_api.MessagesMongo.MessagesMongoService
use secondhand_api.MessagesMongo.MessagesMongoService.{leave_steps}
use secondhand_api.MessagesMongo.Occupancy.{
  AllOccupied, leave_room-IsCounted, update_room-IsOccupied, remove_room-IsOccupied,
}

pub same_row : {A : Type 0} {o : Option A} {x y : A} → o ≡ some x → o ≡ some y → x ≡ y
same_row h k = let e = sym h ∙ k in cc

module _ ⦃b : Backend⦄ where
  module _ (k user_id : String) (w : World) where
    abbrev pub leaving : ChatRoomDocument → ChatRoomDocument
    leaving = leave_room user_id (b.date w.readings)

    abbrev pub left_state : World
    left_state = record w {
      mongo_rooms = (b.mongo_room.update k leaving w.mongo_rooms).1;
      readings = suc w.readings;
    }

    abbrev pub emptied_state : World
    emptied_state = record left_state {
      mongo_rooms = (b.mongo_room.delete k left_state.mongo_rooms).1;
      mongo_messages = b.mongo_message.delete_many (λ m. m.conversation_id == k) w.mongo_messages;
    }

    pub leaving-id : (r : ChatRoomDocument) → (leaving r).id ≡ r.id
    unfolding leave_room
    leaving-id r = refl

    pub left_there :
        (r : ChatRoomDocument)
        → mongo_room_at w k ≡ some r
        → mongo_room_at left_state k ≡ some (leaving r)
    left_there r there =
        b.mongo_room.find-update k k leaving w.mongo_rooms leaving-id
        ∙ ap (λ c. if c then Option.map leaving (mongo_room_at w k) else mongo_room_at w k)
            (eq_self k)
        ∙ ap (Option.map leaving) there

    -- The three ways in which leaving ends.
    pub leave_steps_cases :
        (leave_steps k user_id w
          ≡ (err (failure "대화방을 찾을 수 없습니다"), record w { readings = suc w.readings }))
        ⊎ ((r : ChatRoomDocument) × (mongo_room_at w k ≡ some r)
            × (is_participant user_id r ≡ true)
            × (leave_steps k user_id w
                ≡ (ok tt, if eqb (r.participants_count - 1) 0 then emptied_state else left_state)))
    unfolding leave_steps ChatRoomService.mark_user_as_left ChatRoomService.is_chat_room_empty
        ChatRoomRepository.mark_participants_as_left ChatRoomRepository.find_chat_room_by_id
        MessagesMongoService.remove_room ChatRoomRepository.delete_chat_room
        MessageRepository.delete_messages_by_chat_room_id leave_room
    leave_steps_cases = elim (Option-cases (mongo_room_at w k)) [
      | inl gone ↦ inl (rw gone refl)
      | inr (r, there) ↦ elim (Bool-cases (is_participant user_id r)) [
        | inr outside ↦ inl (rw (there, outside) refl)
        | inl inside ↦ inr (
          r,
          there,
          inside,
          elim (Bool-cases (eqb (r.participants_count - 1) 0)) [
            | inl last ↦ rw (there, inside, left_there r there, last) refl
            | inr others ↦ rw (there, inside, left_there r there, others) refl
          ],
        )
      ]
    ]

  leave_steps-AllOccupied : (k user_id : String) → Keeps AllOccupied (leave_steps k user_id)
  leave_steps-AllOccupied k user_id w v = elim (leave_steps_cases k user_id w) [
    | inl thrown ↦ rw thrown v
    | inr (r, there, inside, left) ↦ elim (Bool-cases (eqb (r.participants_count - 1) 0)) [
      | inl last ↦
          rw (left, last)
            (remove_room-IsOccupied v k (leaving k user_id w) (leaving-id k user_id w))
      | inr others ↦
          rw (left, others)
            (update_room-IsOccupied v k (leaving k user_id w) (leaving-id k user_id w) λ x found.
              leave_room-IsCounted user_id _ x (v.counted k x found)
                (subst (λ y. is_participant user_id y ≡ true) (same_row there found) inside)
                (subst (λ y. eqb (y.participants_count - 1) 0 ≡ false) (same_row there found)
                  others))
    ]
  ]

  pub leave-AllOccupied :
      (replica_set : Bool) (k user_id : String)
      → Keeps AllOccupied (MessagesMongoService.leave_chatroom replica_set k user_id)
  unfolding MessagesMongoService.leave_chatroom MessagesMongoService.leave_chatroom_with_transaction
      MessagesMongoService.leave_chatroom_without_transaction
  leave-AllOccupied false k user_id w v = leave_steps-AllOccupied k user_id w v
  leave-AllOccupied true k user_id w v =
      let kept = leave_steps-AllOccupied k user_id w v in
      elim (Result-cases (leave_steps k user_id w).0) [
        | inl (x, returned) ↦ rw returned kept
        | inr (e, thrown) ↦ rw thrown v
      ]
