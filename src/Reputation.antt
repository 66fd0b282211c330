-- ===== src/Reputation.antt =====
-- x/reputation/internal: reputation scores, the rounds of the donation game, and its keys.
pub mod Keys
pub mod Records
pub mod Score
pub mod Store
pub mod Manager
