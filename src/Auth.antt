-- ===== src/Auth.antt =====
-- Signing in: internal/store/auth.go (users, members, sessions and one-time flows) and
-- internal/auth/auth.go (the checks on them).
pub mod Stamp
pub mod Tables
pub mod Roles
pub mod Members
pub mod Flows
pub mod Sessions
pub mod Login
mod Examples
