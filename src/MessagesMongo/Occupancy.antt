-- ===== src/MessagesMongo/Occupancy.antt =====
-- What every state of the rooms and messages of src/modules/messages-mongo has: a room counts those
-- who take part in it, and somebody does; a message is in a room that is there.
use secondhand_api.Prelude.{
  ℕ, suc, ◌-◌, ◌<◌, String, Bool, true, false, none, some, List, [], ◌∷◌, ◌≡◌, refl, sym, ap, subst,
  ◌∙◌, ◌==◌, any, eqb, arith, if◌then◌else◌, Bool-cases, inl, inr, map-eq-some, eq_sym_false,
  eq_true,
}
use mathlib.Core.Option
use secondhand_api.Prisma.Counting.{spared_by}
use secondhand_api.Prisma.Writing.{row_of_create, kept_by_create}
use secondhand_api.Schema.Documents.{ChatRoomDocument, Participant, MessageDocument}
use secondhand_api.World.{Backend, World}
use secondhand_api.MessagesMongo.ChatRoomRepository.{
  is_there, takes_part, is_participant, new_room, set_left, leave_room,
}

-- How many take part.
abbrev pub present : List Participant → ℕ
present [] = 0
present (p ∷ ps) = let rest = present ps in if is_there p.left_at then suc rest else rest

-- One participant leaves.
pub present-set_left :
    (user_id : String) (now : ℕ) (ps : List Participant)
    → any (takes_part user_id) ps ≡ true
    → present ps ≡ suc (present (set_left user_id now ps))
unfolding set_left
present-set_left user_id now [] h = cc
present-set_left user_id now (p ∷ ps) h = ground (arith, present-set_left user_id now ps, h)

-- A room that counts who takes part.
abbrev pub IsCounted : ChatRoomDocument → Type 0
IsCounted r = (r.participants_count ≡ present r.participants) × (0 < r.participants_count)

-- Where one of several leaves, the room still counts the others.
pub leave_room-IsCounted :
    (user_id : String) (now : ℕ) (r : ChatRoomDocument)
    → IsCounted r
    → is_participant user_id r ≡ true
    → eqb (r.participants_count - 1) 0 ≡ false
    → IsCounted (leave_room user_id now r)
unfolding leave_room
leave_room-IsCounted user_id now r v inside others =
    ground (arith, present-set_left user_id now r.participants inside, v, others)

module _ ⦃b : Backend⦄ where
  pub record IsOccupied (rooms : b.mongo_room.Table) (messages : b.mongo_message.Table)
      : Type 0 where
    pub counted :
        (k : String) (r : ChatRoomDocument)
        → b.mongo_room.find_unique k rooms ≡ some r
        → IsCounted r
    pub housed :
        (k : String) (m : MessageDocument)
        → b.mongo_message.find_unique k messages ≡ some m
        → (r : ChatRoomDocument) × (b.mongo_room.find_unique m.conversation_id rooms ≡ some r)

  abbrev pub AllOccupied : World → Type 0
  AllOccupied w = IsOccupied w.mongo_rooms w.mongo_messages

  module _ {rooms : b.mongo_room.Table} {messages : b.mongo_message.Table}
      (v : IsOccupied rooms messages) where
    pub create_room-IsOccupied :
        (id : String) (now : ℕ) (sender receiver product : String)
        → IsOccupied
            (b.mongo_room.create (new_room id now sender receiver product) rooms).1
            messages
    unfolding new_room
    create_room-IsOccupied id now sender receiver product =
        let room = new_room id now sender receiver product in
        record {
          counted = λ k r found. elim (row_of_create b.mongo_room room rooms k r found) [
            | inl new ↦ subst IsCounted (sym new) (refl, omega arith)
            | inr old ↦ v.counted k r old
          ];
          housed = λ k m found.
              let (r, there) = v.housed k m found in
              (
                r,
                kept_by_create b.mongo_room room rooms (λ x same. same) m.conversation_id r there,
              );
        }

    pub create_message-IsOccupied :
        (m : MessageDocument) (r : ChatRoomDocument)
        → b.mongo_room.find_unique m.conversation_id rooms ≡ some r
        → IsOccupied rooms (b.mongo_message.create m messages).1
    create_message-IsOccupied m r there = record {
      counted = v.counted;
      housed = λ k x found. elim (row_of_create b.mongo_message m messages k x found) [
        | inl new ↦ (r, ap (λ y. b.mongo_room.find_unique y.conversation_id rooms) new ∙ there)
        | inr old ↦ v.housed k x old
      ];
    }

    kept_message :
        (p : MessageDocument → Bool) (now : ℕ) (x y : MessageDocument)
        → (if p x then record x { read_at = some now } else x) ≡ y
        → y.conversation_id ≡ x.conversation_id
    kept_message p now x y changed = ground (arith, changed)

    pub read_messages-IsOccupied :
        (p : MessageDocument → Bool) (now : ℕ)
        → IsOccupied rooms
            (b.mongo_message.update_many p (λ m. record m { read_at = some now }) messages)
    read_messages-IsOccupied p now = record {
      counted = v.counted;
      housed = λ k y found.
          let (x, there, changed) =
            map-eq-some _ _ y
              (sym (b.mongo_message.find-update_many p _ messages (λ m. refl) k) ∙ found) in
          let (r, home) = v.housed k x there in
          (r, ap (λ j. b.mongo_room.find_unique j rooms) (kept_message p now x y changed) ∙ home);
    }

    -- A room after a change of one room.
    pub updated_room :
        (j : String) (f : ChatRoomDocument → ChatRoomDocument)
        → ((r : ChatRoomDocument) → (f r).id ≡ r.id)
        → (k : String)
        → b.mongo_room.find_unique k (b.mongo_room.update j f rooms).1
          ≡ Option.map (λ r. if j == k then f r else r) (b.mongo_room.find_unique k rooms)
    updated_room j f same k = ground (arith, b.mongo_room.find-update j k f rooms same)

    -- A change of a room that leaves it counted.
    pub update_room-IsOccupied :
        (j : String) (f : ChatRoomDocument → ChatRoomDocument)
        → ((r : ChatRoomDocument) → (f r).id ≡ r.id)
        → ((r : ChatRoomDocument) → b.mongo_room.find_unique j rooms ≡ some r → IsCounted (f r))
        → IsOccupied (b.mongo_room.update j f rooms).1 messages
    update_room-IsOccupied j f same fits = record {
      counted = λ k r found.
          let (x, there, changed) = map-eq-some _ _ r (sym (updated_room j f same k) ∙ found) in
          elim (Bool-cases (j == k)) [
            | inl at_ ↦
                let e : f x ≡ r = ap (λ c. if c then f x else x) (sym at_) ∙ changed in
                subst IsCounted e
                  (fits x (ap (λ i. b.mongo_room.find_unique i rooms) (eq_true at_) ∙ there))
            | inr other ↦
                let e : x ≡ r = ap (λ c. if c then f x else x) (sym other) ∙ changed in
                subst IsCounted e (v.counted k x there)
          ];
      housed = λ k m found.
          let (r, there) = v.housed k m found in
          (
            (if j == m.conversation_id then f r else r),
            updated_room j f same m.conversation_id ∙ ap (Option.map _) there,
          );
    }

    module _ (k : String) (f : ChatRoomDocument → ChatRoomDocument)
        (same : (r : ChatRoomDocument) → (f r).id ≡ r.id) where
      abbrev changed_then_deleted : b.mongo_room.Table
      changed_then_deleted = (b.mongo_room.delete k (b.mongo_room.update k f rooms).1).1

      other_room :
          (j : String)
          → (k == j) ≡ false
          → b.mongo_room.find_unique j changed_then_deleted ≡ b.mongo_room.find_unique j rooms
      other_room j other =
          b.mongo_room.find-delete k j (b.mongo_room.update k f rooms).1
          ∙ ap
              (λ c.
                if c then none else b.mongo_room.find_unique j (b.mongo_room.update k f rooms).1)
              other
          ∙ b.mongo_room.find-update k j f rooms same
          ∙ ap
              (λ c.
                if c
                then Option.map f (b.mongo_room.find_unique j rooms)
                else b.mongo_room.find_unique j rooms)
              other

      pub deleted_room :
          (j : String) → (k == j) ≡ true → b.mongo_room.find_unique j changed_then_deleted ≡ none
      deleted_room j at_ =
          b.mongo_room.find-delete k j (b.mongo_room.update k f rooms).1
          ∙ ap
              (λ c.
                if c then none else b.mongo_room.find_unique j (b.mongo_room.update k f rooms).1)
              at_

      -- A room that is deleted with its messages, after it was changed.
      pub remove_room-IsOccupied :
          IsOccupied changed_then_deleted
            (b.mongo_message.delete_many (λ m. m.conversation_id == k) messages)
      remove_room-IsOccupied = record {
        counted = λ j r found. elim (Bool-cases (k == j)) [
          | inl gone ↦ absurd (let e = sym (deleted_room j gone) ∙ found in cc)
          | inr other ↦ v.counted j r (sym (other_room j other) ∙ found)
        ];
        housed = λ j m found.
            let (there, other) =
              spared_by (λ (n : MessageDocument). n.conversation_id == k) _ m
                (sym (b.mongo_message.find-delete_many _ j messages) ∙ found) in
            let (r, home) = v.housed j m there in
            (r, other_room m.conversation_id (eq_sym_false m.conversation_id k other) ∙ home);
      }
