-- ===== src/Transfer.antt =====
-- File transfer between two devices (src-tauri/src/file_transfer/).
pub mod Protocol
pub mod Disk
pub mod Resumable
pub mod Receiver
pub mod Sender
pub mod Filter
pub mod Manager
pub mod History
pub mod State
pub mod Listener
pub mod Network
mod Tests
mod RecordTests
mod Samples
mod ListenerTests
mod NetworkTests
