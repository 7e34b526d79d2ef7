-- ===== src/Notification.antt =====
-- internal/notification/service.go: notifications, their order and their pages.
pub mod Service
pub mod Laws
pub mod Counters
