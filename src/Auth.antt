-- ===== src/Auth.antt =====
-- internal/auth/service.go: accounts, sessions and access tokens.
pub mod Session
pub mod SignOut
pub mod Access
pub mod Families
pub mod Exchange
pub mod Rotation
pub mod Ending
pub mod Logout
pub mod SignedOut
pub mod Checks
pub mod SignIn
pub mod Commit
