-- ===== src/Storage.antt =====
-- storage/crsqlite
pub mod TableName
pub mod OpLog
pub mod Meta
pub mod Database
pub mod Backend
