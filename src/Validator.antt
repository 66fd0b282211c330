-- ===== src/Validator.antt =====
-- x/validator: the validators, their deposits, and the list of those oncall.
pub mod Store
pub mod Lists
pub mod Lowest
pub mod Candidate
pub mod Oncall
pub mod Invariant
pub mod Membership
pub mod Penalty
pub mod Untouched
pub mod Rest
pub mod Punished
pub mod Deposits
pub mod Signing
pub mod Keeps
pub mod Steps
pub mod Operations
pub mod Loops
pub mod Reachable
pub mod Funds
