-- ===== src/Vote.antt =====
-- x/vote: voters, their stake, the delegation of voting power, and votes on proposals.
pub mod Store
pub mod Manager
pub mod Delegations
pub mod Withdrawals
pub mod SelfDelegation
pub mod Voting
