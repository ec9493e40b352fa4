-- ===== src/Products.antt =====
-- src/modules/products: what is offered for sale.
pub mod ProductsRepository
pub mod ProductsService
pub mod Owners
pub mod Matching
pub mod Search
pub mod Reopening
