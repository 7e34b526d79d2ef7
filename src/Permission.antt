-- ===== src/Permission.antt =====
-- internal/permission/service.go: the permissions themselves.
pub mod Service
pub mod Laws
