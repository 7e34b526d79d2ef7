-- ===== src/Http.antt =====
-- internal/httpapi: the endpoints and the gate before each of them.
pub mod Registry
pub mod Gate
pub mod Policies
pub mod Passing
pub mod Refusals
