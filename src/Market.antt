-- ===== src/Market.antt =====
-- The market that the order service keeps: what an order means for its product, apart from how the
-- rows are stored.
pub mod View
pub mod Invariant
