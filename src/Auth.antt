-- ===== src/Auth.antt =====
-- x/auth: what is checked of a transaction before its messages are handled.
pub mod Ante
pub mod Counts
pub mod Sequences
pub mod Replay
pub mod Once
