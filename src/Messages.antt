-- ===== src/Messages.antt =====
-- x/*/msg.go: the messages of a transaction.
pub mod Check
pub mod Account
pub mod Vote
pub mod Validator
pub mod Infra
pub mod Developer
pub mod Post
pub mod Proposal
pub mod Lino
pub mod Signers
