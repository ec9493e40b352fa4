-- ===== src/Orders.antt =====
-- src/modules/orders: the life of an order.
pub mod OrdersRepository
pub mod Transitions
pub mod OrdersService
pub mod Permissions
pub mod Numbering
pub mod Refinement
pub mod Ordering
pub mod Requests
pub mod Placing
pub mod Race
pub mod Endings
