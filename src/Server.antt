-- ===== src/Server.antt =====
-- server/main.go: how the parts are put together, started, stopped and administered.
pub mod Routes
pub mod Serve
pub mod Traffic
pub mod Main
pub mod Answer
pub mod Log
pub mod Config
pub mod Bootstrap
pub mod Run
pub mod Service
pub mod Command
