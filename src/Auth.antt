-- ===== src/Auth.antt =====
-- server/auth.go. The clock and the random values are arguments.
pub mod Password
pub mod Sessions
pub mod Throttle
pub mod Guard
pub mod Random
