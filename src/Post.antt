-- ===== src/Post.antt =====
-- x/post: posts, and what is recorded of views, comments and donations.
pub mod Store
pub mod Manager
pub mod Sources
pub mod Originals
pub mod Reposts
pub mod Operations
