-- ===== src/Developer.antt =====
-- x/developer: the deposits of developers and the consumption that their apps report.
pub mod Manager
pub mod Registry
pub mod Refinement
