-- ===== src/Desktop.antt =====
-- The desktop sharing of src-tauri/src/desktop_share.
pub mod Protocol
pub mod State
pub mod Session
pub mod Encoder
pub mod Network
mod Tests
