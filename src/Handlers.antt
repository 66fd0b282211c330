-- ===== src/Handlers.antt =====
-- The handlers of the messages, which call several managers in turn.
pub mod Store
pub mod Vote
pub mod Account
pub mod Validator
pub mod Developer
pub mod Return
pub mod Withdraw
pub mod Blocks
