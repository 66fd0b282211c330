-- ===== src/Proposal.antt =====
-- x/proposal: proposals, from the day they are made until their votes are counted.
pub mod Store
pub mod Manager
pub mod Votes
pub mod Life
