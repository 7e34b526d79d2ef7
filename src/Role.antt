-- ===== src/Role.antt =====
-- internal/role: who may hand out which permission, and the service of roles.
pub mod Privilege
pub mod Service
pub mod Laws
pub mod Assignment
