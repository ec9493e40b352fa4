-- ===== src/Auth.antt =====
-- src/modules/auth: who a request is from, and what they may do.
pub mod Strategies
pub mod Guards
pub mod Access
