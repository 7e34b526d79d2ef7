-- ===== src/Ratelimit.antt =====
-- internal/ratelimit/limiter.go: the fixed windows of a limiter, in Redis or in memory.
pub mod Limiter
pub mod Quota
pub mod Bounds
