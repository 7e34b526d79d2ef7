-- ===== src/User.antt =====
-- internal/user: the service of users.
pub mod Service
pub mod Sessions
pub mod Removal
pub mod Update
pub mod Changes
pub mod Pages
