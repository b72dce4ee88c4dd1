-- ===== src/Tests.antt =====
-- The library's theorems at concrete inputs.
pub mod Data
mod Alerts
mod Access
mod Console
mod Lockout
mod Storage
pub mod Server
mod Lifetime
mod Accounts
mod Service
