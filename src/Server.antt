-- ===== src/Server.antt =====
-- server
pub mod AdminGate
pub mod Device
pub mod Requests
pub mod Tokens
pub mod Config
pub mod Accounts
pub mod Backup
pub mod Lifecycle
pub mod RequestLog
