-- ===== src/World.antt =====
-- The stored data of the program (prisma/schema.prisma, src/prisma/prisma.service.ts) and what else
-- a request draws on: the clock, random numbers and fresh ids. The i-th reading of any of these is
-- an argument; the state counts the readings. Foreign keys are taken to hold: a row that `connect`
-- names is there. The database answers every call.
use secondhand_api.Prelude.{ℕ, Bool, suc, String, Option, none, some, List, [], ◌∷◌, ◌++◌}
use secondhand_api.Http.{Result, ok, err, prisma_error}
use secondhand_api.Exec.{Exec}
use secondhand_api.Prisma.Delegate.{Delegate}
use secondhand_api.Schema.{
  User, user_conflicts, Product, product_conflicts, Order, order_conflicts, Review,
  review_conflicts, Favorite, favorite_conflicts, Category, category_conflicts,
}
use secondhand_api.Schema.Chats.{
  ChatRoom, room_conflicts, ChatRoomMember, member_conflicts, ChatMessage, message_conflicts,
  Notification, notification_conflicts,
}
use secondhand_api.Schema.Documents.{
  MongoMessageType, ChatRoomDocument, room_document_conflicts, MessageDocument,
  message_document_conflicts,
}

-- The client that @prisma/client generates, and the outside world of a request.
pub record Backend : Type 1 where
  pub user : Delegate User (λ r. r.id) user_conflicts
  pub product : Delegate Product (λ r. r.id) product_conflicts
  pub order : Delegate Order (λ r. r.id) order_conflicts
  pub review : Delegate Review (λ r. r.id) review_conflicts
  pub favorite : Delegate Favorite (λ r. r.id) favorite_conflicts
  pub category : Delegate Category (λ r. r.id) category_conflicts
  pub chat_room : Delegate ChatRoom (λ r. r.id) room_conflicts
  pub chat_room_member : Delegate ChatRoomMember (λ r. r.id) member_conflicts
  pub chat_message : Delegate ChatMessage (λ r. r.id) message_conflicts
  pub notification : Delegate Notification (λ r. r.id) notification_conflicts
  -- The collections of MongoDB, by mongoose.
  pub mongo_room : Delegate ChatRoomDocument (λ r. r.id) room_document_conflicts
  pub mongo_message : Delegate MessageDocument (λ r. r.id) message_document_conflicts
  -- new Date(), in milliseconds
  pub date : ℕ → ℕ
  -- date.toISOString().slice(0, 10).replace(/-/g, '')
  pub compact_date : ℕ → String
  -- Math.floor(Math.random() * n)
  pub random : ℕ → ℕ → ℕ
  -- @default(uuid())
  pub uuid : ℕ → String
  -- { contains: keyword, mode: 'insensitive' } on a text, for a keyword
  pub contains_insensitive : String → String → Bool
  -- calculateDistance(lat1, lon1, lat2, lon2) <= radiusKm, in floating point
  pub within : (lat1 lon1 lat2 lon2 radius_km : ℕ) → Bool

-- Messages on the in-process EventEmitter2.
pub data Event : Type 0 where
  product_liked : (favorite_id product_id user_id seller_id : String) → Event
  chatroom_created : (chat_room_id product_id buyer_id seller_id : String) → Event
  message_created :
      (chat_room_id message_id sender_id : String) (recipient_ids : List String) → Event
  message_sent :
      (event_id : String) (timestamp : ℕ)
      (message_id chat_room_id sender_id receiver_id message : String)
      (message_type : MongoMessageType) (file_url file_name : Option String)
      → Event

module _ ⦃b : Backend⦄ where
  pub record World : Type 0 where
    pub users : b.user.Table
    pub products : b.product.Table
    pub orders : b.order.Table
    pub reviews : b.review.Table
    pub favorites : b.favorite.Table
    pub categories : b.category.Table
    pub rooms : b.chat_room.Table
    pub members : b.chat_room_member.Table
    pub messages : b.chat_message.Table
    pub notifications : b.notification.Table
    pub mongo_rooms : b.mongo_room.Table
    pub mongo_messages : b.mongo_message.Table
    pub readings : ℕ
    pub events : List Event

  -- `User`, `Product`, … of a state, by id.
  abbrev pub user_at : World → String → Option User
  user_at w k = b.user.find_unique k w.users

  abbrev pub product_at : World → String → Option Product
  product_at w k = b.product.find_unique k w.products

  abbrev pub order_at : World → String → Option Order
  order_at w k = b.order.find_unique k w.orders

  abbrev pub review_at : World → String → Option Review
  review_at w k = b.review.find_unique k w.reviews

  abbrev pub favorite_at : World → String → Option Favorite
  favorite_at w k = b.favorite.find_unique k w.favorites

  abbrev pub category_at : World → String → Option Category
  category_at w k = b.category.find_unique k w.categories

  abbrev pub room_at : World → String → Option ChatRoom
  room_at w k = b.chat_room.find_unique k w.rooms

  abbrev pub member_at : World → String → Option ChatRoomMember
  member_at w k = b.chat_room_member.find_unique k w.members

  abbrev pub message_at : World → String → Option ChatMessage
  message_at w k = b.chat_message.find_unique k w.messages

  abbrev pub notification_at : World → String → Option Notification
  notification_at w k = b.notification.find_unique k w.notifications

  abbrev pub mongo_room_at : World → String → Option ChatRoomDocument
  mongo_room_at w k = b.mongo_room.find_unique k w.mongo_rooms

  abbrev pub mongo_message_at : World → String → Option MessageDocument
  mongo_message_at w k = b.mongo_message.find_unique k w.mongo_messages

  -- `new Date()`
  unfoldable pub new_date : Exec World ℕ
  new_date w = (ok (b.date w.readings), record w { readings = suc w.readings })

  -- `Math.floor(Math.random() * n)`
  unfoldable pub random_below : ℕ → Exec World ℕ
  random_below n w = (ok (b.random n w.readings), record w { readings = suc w.readings })

  -- The id of a row to be created.
  unfoldable pub new_id : Exec World String
  new_id w = (ok (b.uuid w.readings), record w { readings = suc w.readings })

  -- `eventEmitter.emit(…)`; the listeners run later.
  unfoldable pub emit : Event → Exec World (Unit {0})
  emit e w = (ok tt, record w { events = w.events ++ e ∷ [] })

-- A call of Prisma that was rejected with a code.
abbrev pub or_reject {ℓ} : {A : Type ℓ} → String → Option A → Result A
or_reject code none = err (prisma_error code)
or_reject code (some a) = ok a
