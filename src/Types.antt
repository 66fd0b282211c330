-- ===== src/Types.antt =====
-- types/: coins, account lists, errors.
pub mod Coin
pub mod Accounts
pub mod Errors
