-- ===== src/Events.antt =====
-- src/events: domain events, their publisher and the handlers' base class.
pub mod EventTypes
pub mod EventPublisher
pub mod EventHandler
pub mod Publishing
pub mod Routing
