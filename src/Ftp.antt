-- ===== src/Ftp.antt =====
-- The built-in FTP server of src-tauri/src/ftp.
pub mod Log
pub mod Config
pub mod Auth
pub mod Tree
pub mod Storage
pub mod Server
mod Tests
