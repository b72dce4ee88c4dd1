-- ===== src/Console.antt =====
-- The handlers that the web console and API tokens call: server/api_admin.go.
pub mod Spec
pub mod Alerts
pub mod Users
pub mod Login
pub mod Groups
pub mod Templates
pub mod Settings
pub mod Computers
