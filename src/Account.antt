-- ===== src/Account.antt =====
-- x/account: who may sign for an account, the keys that an account grants, and
-- its balance with the queue of pending coin days.
pub mod Store
pub mod Signing
pub mod CoinDay
pub mod Sums
pub mod Queue
pub mod Bank
pub mod Balance
pub mod Income
pub mod Frozen
pub mod CoinReturn
pub mod Profile
pub mod Opening
pub mod Grants
pub mod Owners
pub mod Permissions
