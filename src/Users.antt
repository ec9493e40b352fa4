-- ===== src/Users.antt =====
-- src/modules/users: accounts, logging in and leaving.
pub mod Security
pub mod UsersRepository
pub mod UsersService
pub mod Accounts
pub mod Leaving
pub mod Trades
pub mod Remaining
pub mod Logins
