-- ===== src/MessagesMongo.antt =====
-- src/modules/messages-mongo: the chat rooms and messages that are kept in MongoDB.
pub mod ChatRoomRepository
pub mod MessageRepository
pub mod ChatRoomService
pub mod MessageService
pub mod MessagesMongoService
pub mod Occupancy
pub mod Leaving
pub mod Requests
pub mod Parting
pub mod Orphans
