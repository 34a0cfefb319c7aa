-- ===== src/App.antt =====
-- The application's own data: src-tauri/src/config.rs, traffic.rs and logger.rs.
pub mod Config
pub mod Traffic
pub mod Log
pub mod Connection
pub mod Host
mod Tests
