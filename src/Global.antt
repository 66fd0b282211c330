-- ===== src/Global.antt =====
-- x/global: the records of the whole chain, what changes them, and the theorems about it.
pub mod Store
pub mod Clock
pub mod Stakes
pub mod Inflation
pub mod Supply
pub mod Issue
pub mod Interest
pub mod Growth
pub mod Schedule
