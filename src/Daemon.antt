-- ===== src/Daemon.antt =====
-- The background process of src-tauri/src/daemon, which runs the services of VNT and FTP.
pub mod State
pub mod Vnt
pub mod Ftp
pub mod Rpc
mod Tests
mod RpcTests
