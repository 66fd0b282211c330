-- ===== src/Tests.antt =====
-- Runs of the modelled code, and the theorems at concrete inputs.
mod Ints
mod Reputation
mod Validator
mod Vote
mod Account
mod Queue
mod Bank
mod Global
mod Handlers
mod Auth
mod Proposal
mod Post
