-- ===== src/Admin.antt =====
-- The admin pages and the stores behind them.
pub mod Web
pub mod Devices
pub mod Events
pub mod Data
pub mod Metrics
pub mod Router
